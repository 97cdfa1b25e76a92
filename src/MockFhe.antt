-- ===== src/MockFhe.antt =====
-- heu/algorithms/incubator/mock_fhe: the mock of BFV and CKKS on vectors of int64_t.
pub mod Objects
pub mod Evaluator
pub mod Copy
pub mod Degree
pub mod Slots
pub mod Multiply
pub mod Galois
pub mod Encoders
pub mod Pipeline
pub mod Rescaling
pub mod Examples
pub mod Kit
