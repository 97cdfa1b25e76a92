-- ===== src/ElGamal.antt =====
-- heu/library/algorithms/elgamal: the table of small discrete logarithms that decryption searches.
pub mod HashMap
pub mod LookupTable
pub mod Group
pub mod Scheme
pub mod KeyGenerator
pub mod Examples
