-- ===== src/Word/LeadingZeros.antt =====
-- The number of zeros above the highest set bit of a word, `leading_zeros` of Rust, at any width.
use lockness.Prelude.{
  ℕ, zero, suc, ◌-◌, ◌≤◌, ◌<◌, ◌≡◌, arith, true, false, if◌then◌else◌, Bool-cases, inl, inr,
}
use lockness.Word.Bits.{test_bit}

unfoldable pub leading_zeros : ℕ → ℕ → ℕ
leading_zeros zero x = 0
leading_zeros (suc w) x = if test_bit x w then 0 else suc (leading_zeros w x)

pub leading_zeros-le : (w x : ℕ) → leading_zeros w x ≤ w
unfolding leading_zeros
leading_zeros-le zero x = omega arith
leading_zeros-le (suc w) x = ground (arith, leading_zeros-le w x)

-- The bits above the first set one are clear.
pub leading_zeros_above : (w x i : ℕ) → i < leading_zeros w x → test_bit x (w - 1 - i) ≡ false
unfolding leading_zeros
leading_zeros_above zero x i p = absurd (omega arith)
leading_zeros_above (suc w) x zero p =
    let e : suc w - 1 - 0 ≡ w = omega arith in rw e (ground arith)
leading_zeros_above (suc w) x (suc i) p =
    let e : suc w - 1 - suc i ≡ w - 1 - i = omega arith in
    rw e (leading_zeros_above w x i (ground arith))

-- The first bit that is not clear is set.
pub leading_zeros_at :
    (w x : ℕ) → leading_zeros w x < w → test_bit x (w - 1 - leading_zeros w x) ≡ true
unfolding leading_zeros
leading_zeros_at zero x p = absurd (omega arith)
leading_zeros_at (suc w) x p = elim (Bool-cases (test_bit x w)) [
  | inl set ↦ let e : suc w - 1 - 0 ≡ w = omega arith in rw set (rw e set)
  | inr clear ↦
      let e : suc w - 1 - suc (leading_zeros w x) ≡ w - 1 - leading_zeros w x = omega arith in
      rw clear (rw e (leading_zeros_at w x (ground arith)))
]

-- Where the first `k` bits from the top are clear, there are `k` leading zeros at least.
pub leading_zeros_of_clear :
    (w x k : ℕ) → k ≤ w → ((j : ℕ) → j < k → test_bit x (w - 1 - j) ≡ false) → k ≤ leading_zeros w x
unfolding leading_zeros
leading_zeros_of_clear w x zero le h = omega arith
leading_zeros_of_clear zero x (suc k) le h = absurd (omega arith)
leading_zeros_of_clear (suc w) x (suc k) le h =
    let e : suc w - 1 - 0 ≡ w = omega arith in
    let top : test_bit x w ≡ false = rw e at (h 0 (omega arith)) in
    rw top (
      omega (
        arith,
        leading_zeros_of_clear w x k (omega arith) (λ j lt.
            let d : suc w - 1 - suc j ≡ w - 1 - j = omega arith in
            rw d at (h (suc j) (omega arith))),
      ))
