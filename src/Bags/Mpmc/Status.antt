-- ===== src/Bags/Mpmc/Status.antt =====
-- The status bits that share a word with the reservation bits (bags/src/mpmc.rs, `Status`).
pub mod Cells
pub mod Flags
use lockness.Prelude.{ℕ, ◌-◌, bit_and, Bool, ◌==◌, ltb, ◌&&◌}
use lockness.Word.Bits.{test_bit}

-- `u32::BITS`, `usize::BITS` is not needed.
abbrev pub u32_bits : ℕ
u32_bits = 32

abbrev pub u32_max : ℕ
u32_max = 0xffff_ffff

-- The number of cells, `N`, which `mpmc` and both `Clone` impls fix to 30.
abbrev pub n : ℕ
n = 30

abbrev pub counterparty_dead : ℕ
counterparty_dead = 1

abbrev pub sleeping : ℕ
sleeping = 2

abbrev pub all : ℕ
all = 3

-- `Status::from_bits_retain(bits).contains(flag)`.
unfoldable pub contains : ℕ → ℕ → Bool
contains bits flag = bit_and bits flag == flag

-- Cell `i` is reserved, or committed, by the bit `i` from the highest.
unfoldable pub slot_bit : ℕ → ℕ → Bool
unfolding test_bit
slot_bit word i = ltb i n && test_bit word (31 - i)
