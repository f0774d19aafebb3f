-- ===== src/Machine.antt =====
-- The machine on which the channels run: atomic words, the cells of a bag, and programs over them.
pub mod Program
pub mod Access
pub mod Sequential
pub mod Waking
pub mod Threads
pub mod Futex
