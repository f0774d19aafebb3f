-- ===== src/Bags.antt =====
-- The crate bags/: message passing over fixed-size bit vectors.
pub mod CachePadded
pub mod Mpmc
pub mod Slot
