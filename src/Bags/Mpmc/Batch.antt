-- ===== src/Bags/Mpmc/Batch.antt =====
-- Batches of messages through the bag of bags/src/mpmc.rs, where no other thread takes a step.
pub mod Memory
pub mod Cells
pub mod Receiving
pub mod Request
pub mod Publishing
pub mod Sending
pub mod RoundTrip
