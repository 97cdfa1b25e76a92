-- ===== src/Dgk.antt =====
-- heu/library/algorithms/dgk: the scheme of Damgard, Geisler and Kroigaard on small integers.
pub mod Keys
pub mod Scheme
pub mod Numbers
pub mod Runs
pub mod Decryption
pub mod KeyGenerator
pub mod Examples
