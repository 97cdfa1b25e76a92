-- ===== src/Ishe.antt =====
-- heu/algorithms/incubator/ishe: a symmetric scheme whose ciphertexts are added and multiplied.
pub mod Scheme
pub mod Circuit
pub mod Numbers
pub mod Runs
pub mod Decryption
pub mod Kit
pub mod Correct
pub mod Examples
