-- ===== src/Bags/Slot/System.antt =====
-- Any number of senders and one receiver over a slot of bags/src/slot.rs, interleaved in any order.
pub mod Clients
pub mod Owners
pub mod Steps
pub mod Aborts
pub mod Moves
pub mod Invariant
pub mod Safety
pub mod Order
