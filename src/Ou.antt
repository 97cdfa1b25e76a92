-- ===== src/Ou.antt =====
-- heu/library/algorithms/ou: the scheme of Okamoto and Uchiyama on integers.
pub mod Keys
pub mod Scheme
pub mod Cache
pub mod Numbers
pub mod Runs
pub mod Decryption
pub mod KeyGenerator
pub mod Primes
pub mod Examples
