-- ===== src/Vecs.antt =====
-- The crate vecs/: type-erased vectors.
pub mod Layout
pub mod FreestandingVec
pub mod ClosureVec
