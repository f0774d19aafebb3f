-- ===== src/Executor.antt =====
-- The code of executor/src that is written: the number of threads, and what a panic reads as.
pub mod Decimal
pub mod MaxThreads
pub mod Error
