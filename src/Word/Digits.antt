-- ===== src/Word/Digits.antt =====
-- The native `|` and `&` by their lowest digit.
use Prim.Native.Nat.{digits, bitwise, bit_and-bitwise, bit_or-bitwise}
use native.Mathlib.Decide.{dec_lt}
use lockness.Prelude.{
  ℕ, zero, suc, ◌+◌, ◌*◌, ◌/◌, ◌%◌, ◌≤◌, min, max, bit_and, bit_or, ◌≡◌, refl, ◌∙◌, arith,
}

-- The recursion of `digits` runs on fuel. A round more than the first number needs changes nothing.
module _ (last : ℕ → ℕ) (digit : ℕ → ℕ → ℕ) where
  one_more : (a k b : ℕ) → a ≤ k → digits last digit (suc k) a b ≡ digits last digit k a b
  one_more zero zero b le = refl
  one_more zero (suc k) b le = refl
  one_more (suc a) zero b le = absurd (omega arith)
  one_more (suc a) (suc k) b le = rw (one_more (suc a / 2) k (b / 2) (omega arith))

  any_more : (k a b : ℕ) → a ≤ k → digits last digit k a b ≡ digits last digit a a b
  any_more zero a b le = let e : a ≡ 0 = omega arith in rw e refl
  any_more (suc k) a b le = elim (dec_lt k a) [
    | yes exact ↦ let e : a ≡ suc k = omega arith in rw e refl
    | no spare ↦ one_more a k b (omega arith) ∙ any_more k a b (omega arith)
  ]

  low_digit :
      (op : ℕ → ℕ → ℕ)
      → ((x y : ℕ) → op x y ≡ bitwise last digit x y)
      → (a b : ℕ) → op (suc a) b ≡ op (suc a / 2) (b / 2) * 2 + digit (suc a % 2) (b % 2)
  low_digit op meaning a b =
      rw
        (
          meaning (suc a) b,
          meaning (suc a / 2) (b / 2),
          any_more a (suc a / 2) (b / 2) (omega arith),
        )
        refl

pub bit_or_step : (a b : ℕ) → bit_or a b ≡ bit_or (a / 2) (b / 2) * 2 + max (a % 2) (b % 2)
bit_or_step (suc a) = low_digit (λ y. y) max bit_or bit_or-bitwise a
bit_or_step zero = λ b. omega (arith, bit_or-bitwise 0 b, bit_or-bitwise 0 (b / 2))

pub bit_and_step : (a b : ℕ) → bit_and a b ≡ bit_and (a / 2) (b / 2) * 2 + min (a % 2) (b % 2)
bit_and_step (suc a) = low_digit (λ _. 0) min bit_and bit_and-bitwise a
bit_and_step zero = λ b. omega (arith, bit_and-bitwise 0 b, bit_and-bitwise 0 (b / 2))
