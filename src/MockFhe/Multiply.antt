-- ===== src/MockFhe/Multiply.antt =====
-- evaluator.cc of mock_fhe: products, squares and powers.
pub mod Defs
pub mod Ckks
pub mod Arrays
pub mod Power
