-- ===== src/Bags/Mpmc.antt =====
-- bags/src/mpmc.rs: the bag of N cells with many senders and many receivers.
pub mod Status
pub mod Masks
pub mod Buffer
pub mod Drain
pub mod Sender
pub mod Receiver
pub mod Blocking
pub mod Handles
pub mod Protocol
pub mod Sleepers
pub mod System
pub mod Batch
pub mod Rounds
pub mod Alone
