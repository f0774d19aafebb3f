-- ===== src/Bags/Mpmc/Status/Cells.antt =====
-- The bits of cells under the bitwise operators and the constants.
use lockness.Prelude.{
  ℕ, suc, ◌+◌, ◌-◌, ◌^◌, ◌<◌, bit_and, bit_or, ◌≡◌, refl, sym, ◌∙◌, true, false, not, ◌&&◌, ◌||◌,
  ◌==◌, ltb, leb, ltb→lt, arith, inl, inr, Bool-cases, all_below, all_below_sound,
}
use lockness.Word.Bits.{
  test_bit, complement, test_bit-or, test_bit-and, test_bit-complement, test_bit-zero, test_bit-pow,
  pow-lt, bit_and-le,
}
use lockness.Word.Count.{count_ones, count_ones-remove}
use lockness.Word.LeadingZeros.{
  leading_zeros, leading_zeros_at, leading_zeros_above, leading_zeros_of_clear,
}
use lockness.Bags.Mpmc.Status.{slot_bit, n, all, u32_max}
use lockness.Bags.Mpmc.Drain.{clear_bit}

pub slot_bit-or : (a b i : ℕ) → slot_bit (bit_or a b) i ≡ (slot_bit a i || slot_bit b i)
unfolding slot_bit
slot_bit-or a b i = ground (arith, test_bit-or (31 - i) a b)

pub slot_bit-and : (a b i : ℕ) → slot_bit (bit_and a b) i ≡ (slot_bit a i && slot_bit b i)
unfolding slot_bit
slot_bit-and a b i = ground (arith, test_bit-and (31 - i) a b)

pub slot_bit-complement :
    (a i : ℕ) → a < 2 ^ 32 → slot_bit (complement 32 a) i ≡ (ltb i n && not (slot_bit a i))
unfolding slot_bit
slot_bit-complement a i fits = ground (arith, test_bit-complement 32 (31 - i) a (omega arith) fits)

pub slot_bit-zero : (i : ℕ) → slot_bit 0 i ≡ false
unfolding slot_bit
slot_bit-zero i = ground (arith, test_bit-zero (31 - i))

pub slot_bit-above : (w i : ℕ) → ltb i n ≡ false → slot_bit w i ≡ false
unfolding slot_bit
slot_bit-above w i h = rw h

all_table : all_below 30 (λ i. not (slot_bit all i) && slot_bit u32_max i) ≡ true
unfolding all_below slot_bit
all_table = refl

constant_bits : (i : ℕ) → ltb i n ≡ true → (slot_bit all i ≡ false) × (slot_bit u32_max i ≡ true)
constant_bits i h =
    let e =
      all_below_sound 30 (λ i. not (slot_bit all i) && slot_bit u32_max i) i all_table
        (ltb→lt i 30 h) in
    (ground arith, ground arith)

-- No status bit is the bit of a cell.
pub slot_bit-all : (i : ℕ) → slot_bit all i ≡ false
slot_bit-all i = elim (Bool-cases (ltb i n)) [
  | inl lt ↦ (constant_bits i lt).0
  | inr ge ↦ slot_bit-above all i ge
]

pub slot_bit-u32_max : (i : ℕ) → slot_bit u32_max i ≡ ltb i n
slot_bit-u32_max i = elim (Bool-cases (ltb i n)) [
  | inl lt ↦ (constant_bits i lt).1 ∙ sym lt
  | inr ge ↦ slot_bit-above u32_max i ge ∙ sym ge
]

pub slot_bit-range : (w i : ℕ) → slot_bit w i ≡ true → ltb i n ≡ true
unfolding slot_bit
slot_bit-range w i h = ground arith

-- `drain_mask` visits the first cell of a mask, if there is one.
pub slot_bit-leading_zeros :
    (mask : ℕ)
    → leb n (leading_zeros 32 mask) ≡ false
    → slot_bit mask (leading_zeros 32 mask) ≡ true
unfolding slot_bit
slot_bit-leading_zeros mask h = ground (arith, leading_zeros_at 32 mask)

pub slot_bit-below : (mask i : ℕ) → i < leading_zeros 32 mask → slot_bit mask i ≡ false
unfolding slot_bit
slot_bit-below mask i h = ground (arith, leading_zeros_above 32 mask i)

pub no_cells : (mask : ℕ) → leb n (leading_zeros 32 mask) ≡ true → (i : ℕ) → slot_bit mask i ≡ false
no_cells mask h i = elim (Bool-cases (ltb i n)) [
  | inl lt ↦ slot_bit-below mask i (ground arith)
  | inr ge ↦ slot_bit-above mask i ge
]

test_bit-clear_bit :
    (mask z i : ℕ)
    → z < 32
    → i < 32
    → test_bit (clear_bit mask z) i ≡ (test_bit mask i && not (i == 32 - z - 1))
unfolding clear_bit
test_bit-clear_bit mask z i lt lt' =
    rw
      (
        test_bit-and i mask (complement 32 (2 ^ (32 - z - 1))),
        test_bit-complement 32 i (2 ^ (32 - z - 1)) lt' (pow-lt 32 (32 - z - 1) (omega arith)),
        test_bit-pow (32 - z - 1) i,
      )
      refl

pub slot_bit-clear_bit :
    (mask z i : ℕ) → z < n → slot_bit (clear_bit mask z) i ≡ (slot_bit mask i && not (i == z))
unfolding slot_bit
slot_bit-clear_bit mask z i lt = ground (arith, test_bit-clear_bit mask z (31 - i))

pub clear_bit-lt : (mask z : ℕ) → mask < 2 ^ 32 → clear_bit mask z < 2 ^ 32
unfolding clear_bit
clear_bit-lt mask z fits = omega (arith, bit_and-le 32 mask (complement 32 (2 ^ (32 - z - 1))) fits)

-- After the first cell of a mask is cleared, the next one lies further on.
pub leading_zeros-clear_bit :
    (mask : ℕ)
    → leb n (leading_zeros 32 mask) ≡ false
    → leading_zeros 32 mask < leading_zeros 32 (clear_bit mask (leading_zeros 32 mask))
leading_zeros-clear_bit mask h =
    let z : ℕ = leading_zeros 32 mask in
    leading_zeros_of_clear 32 (clear_bit mask z) (suc z) (ground arith)
      λ j lt. ground (arith, test_bit-clear_bit mask z (32 - 1 - j), leading_zeros_above 32 mask j)

pub count_ones-clear_bit :
    (mask z : ℕ)
    → z < n
    → slot_bit mask z ≡ true
    → count_ones 32 (clear_bit mask z) + 1 ≡ count_ones 32 mask
unfolding slot_bit
count_ones-clear_bit mask z lt h =
    count_ones-remove 32 (32 - z - 1) mask (clear_bit mask z) (omega arith) (ground arith)
      (λ i lt'. test_bit-clear_bit mask z i (omega arith) lt')
