-- ===== src/Spi.antt =====
-- heu/spi/he: the types that every homomorphic encryption library shares.
pub mod Schema
pub mod Batch
pub mod Words
