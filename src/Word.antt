-- ===== src/Word.antt =====
-- Unsigned machine words as native numbers: the operations of Rust's integers that the crates use.
pub mod Digits
pub mod Bits
pub mod Count
pub mod LeadingZeros
