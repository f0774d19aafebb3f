-- ===== src/Bags/Mpmc/System.antt =====
-- Any number of threads over one channel of bags/src/mpmc.rs, interleaved in any order.
pub mod Clients
pub mod Owners
pub mod Invariant
pub mod Safety
pub mod Conservation
