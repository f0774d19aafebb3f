-- ===== src/Bags/Mpmc/Protocol.antt =====
-- Who may touch a cell: the ownership discipline behind the two words of bags/src/mpmc.rs.
pub mod Obeys
pub mod Drain
pub mod Reserve
pub mod Send
pub mod Recv
pub mod Silent
pub mod Waiting
pub mod Handles
