-- ===== src/Bags/Slot.antt =====
-- bags/src/slot.rs: a slot for one message, with many senders and one receiver.
pub mod Status
pub mod Sender
pub mod Receiver
pub mod Handles
pub mod Contract
pub mod Waiting
pub mod Protocol
pub mod System
pub mod Sleepers
