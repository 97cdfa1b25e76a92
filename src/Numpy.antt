-- ===== src/Numpy.antt =====
-- heu/library/numpy: matrices of ciphertexts or plaintexts, stored by columns.
pub mod Shape
pub mod Matrix
pub mod Views
pub mod Tabulate
pub mod Elementwise
pub mod MatMul
pub mod Reduce
pub mod Examples
