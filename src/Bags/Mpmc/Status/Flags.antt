-- ===== src/Bags/Mpmc/Status/Flags.antt =====
-- `contains` of a flag, by bits.
use lockness.Prelude.{
  ℕ, ◌^◌, ◌<◌, bit_and, ◌≡◌, if◌then◌else◌, arith, one-le-pow, inl, inr, Bool-cases,
}
use lockness.Word.Bits.{
  test_bit, test_bit-and, word_ext, bit_and-le, test_bit-zero, test_bit-pow, pow-lt,
}
use lockness.Bags.Mpmc.Status.{contains}

and-flag : (w x j : ℕ) → x < 2 ^ w → j < w → bit_and x (2 ^ j) ≡ (if test_bit x j then 2 ^ j else 0)
and-flag w x j fits lt = elim (Bool-cases (test_bit x j)) [
  | inl set ↦ rw set (
      word_ext w _ _ (omega (arith, bit_and-le w x (2 ^ j) fits)) (pow-lt w j lt)
        (λ i _. ground (arith, test_bit-and i x (2 ^ j), test_bit-pow j i)))
  | inr clear ↦ rw clear (
      word_ext w _ _ (omega (arith, bit_and-le w x (2 ^ j) fits)) (omega (arith, one-le-pow w 2))
        (λ i _. ground (arith, test_bit-and i x (2 ^ j), test_bit-pow j i, test_bit-zero i)))
]

pub contains-flag : (w x j : ℕ) → x < 2 ^ w → j < w → contains x (2 ^ j) ≡ test_bit x j
unfolding contains
contains-flag w x j fits lt = ground (arith, and-flag w x j fits lt, one-le-pow j 2)
