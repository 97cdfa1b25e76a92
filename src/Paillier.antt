-- ===== src/Paillier.antt =====
-- heu/library/algorithms/paillier_zahlen: the Paillier scheme on integers.
pub mod BigInts
pub mod Numbers
pub mod Residues
pub mod Keys
pub mod Scheme
pub mod Decryption
pub mod KeyGenerator
pub mod Examples
