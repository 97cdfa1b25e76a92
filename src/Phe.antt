-- ===== src/Phe.antt =====
-- heu/library/phe: the dispatching layer of the library.
pub mod Schema
pub mod BatchEncoder
pub mod Examples
