-- ===== src/Pylib.antt =====
-- heu/pylib: the Python bindings, as far as they compute.
pub mod Slices
pub mod Examples
