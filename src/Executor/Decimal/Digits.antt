-- ===== src/Executor/Decimal/Digits.antt =====
-- Decimal digits and their number, for the parser that executor/src/lib.rs uses.
use lockness.Prelude.{
  ℕ, zero, suc, ◌+◌, ◌*◌, ◌/◌, ◌%◌, ◌≤◌, ◌<◌, ◌≡◌, refl, ap, ◌∙◌, true, false, ltb, leb, ◌==◌,
  if◌then◌else◌, Option, none, some, List, [], ◌∷◌, ◌++◌, map, arith, inl, inr, Bool-cases,
}
use native.Mathlib.Decide.{dec_le}
use lockness.Vecs.Layout.{isize_max}
use lockness.Executor.Decimal.{ℤ, pos, and_then, to_digit, digits, positive, parse, plus, minus}

-- The number of a list of digits, the first one the highest, after `acc`.
unfoldable pub value : ℕ → List ℕ → ℕ
value acc [] = acc
value acc (d ∷ ds) = value (acc * 10 + d) ds

abbrev pub byte_of : ℕ → ℕ
byte_of d = 48 + d

abbrev pub AreDigits : List ℕ → Type 0
AreDigits [] = Unit
AreDigits (d ∷ ds) = (d < 10) × AreDigits ds

-- The decimal digits of a number that is below the fuel.
unfoldable pub digits_of : ℕ → ℕ → List ℕ
digits_of zero n = []
digits_of (suc fuel) n = if ltb n 10 then n ∷ [] else (digits_of fuel (n / 10) ++ (n % 10 ∷ []))

abbrev pub in_range : ℕ → ℕ → Option ℕ
in_range limit n = if leb n limit then some n else none

value-ge : (acc : ℕ) (ds : List ℕ) → acc ≤ value acc ds
unfolding value
value-ge acc [] = omega arith
value-ge acc (d ∷ ds) = omega (arith, value-ge (acc * 10 + d) ds)

to_digit-byte_of : (d : ℕ) → d < 10 → to_digit (byte_of d) ≡ some d
to_digit-byte_of d lt = ground arith

-- The digits are read as their number, where that is in range.
digits-value :
    (limit acc : ℕ) (ds : List ℕ)
    → AreDigits ds
    → acc ≤ limit
    → digits limit acc (map byte_of ds) ≡ in_range limit (value acc ds)
unfolding digits value
digits-value limit acc [] a le = ground arith
digits-value limit acc (d ∷ ds) a le =
    rw (to_digit-byte_of d a.0) (elim (dec_le (acc * 10 + d) limit) [
      | yes fits ↦
          let e : leb (acc * 10 + d) limit ≡ true = ground arith in
          rw e (digits-value limit (acc * 10 + d) ds a.1 fits)
      | no over ↦
          let e : leb (acc * 10 + d) limit ≡ false = ground arith in
          rw e (ground (arith, value-ge (acc * 10 + d) ds))
    ])

abbrev pub as_pos : Option ℕ → Option ℤ
as_pos o = and_then o (λ n. some (pos n))

positive-value :
    (ds : List ℕ)
    → AreDigits ds
    → positive (map byte_of ds) ≡ as_pos (in_range isize_max (value 0 ds))
unfolding positive
positive-value ds a = ap as_pos (digits-value isize_max 0 ds a (omega arith))

unsigned : (d : ℕ) (ds : List ℕ) → parse (map byte_of (d ∷ ds)) ≡ positive (map byte_of (d ∷ ds))
unfolding parse
unsigned d ds =
    let not_plus : (byte_of d == plus) ≡ false = ground arith in
    let not_minus : (byte_of d == minus) ≡ false = ground arith in
    unsigned_bytes ds not_plus not_minus
  where
    unsigned_bytes :
        (ds : List ℕ)
        → (byte_of d == plus) ≡ false
        → (byte_of d == minus) ≡ false
        → parse (map byte_of (d ∷ ds)) ≡ positive (map byte_of (d ∷ ds))
    unsigned_bytes [] not_plus not_minus = rw (not_plus, not_minus) refl
    unsigned_bytes (c ∷ ds) not_plus not_minus = rw (not_plus, not_minus) refl

-- A text of digits is read as their number.
pub parse-value :
    (d : ℕ) (ds : List ℕ)
    → AreDigits (d ∷ ds)
    → parse (map byte_of (d ∷ ds)) ≡ as_pos (in_range isize_max (value 0 (d ∷ ds)))
parse-value d ds a = unsigned d ds ∙ positive-value (d ∷ ds) a

value-append : (acc : ℕ) (ds : List ℕ) (d : ℕ) → value acc (ds ++ (d ∷ [])) ≡ value acc ds * 10 + d
unfolding value
value-append acc [] d = refl
value-append acc (c ∷ ds) d = value-append (acc * 10 + c) ds d

AreDigits-append : (ds : List ℕ) (d : ℕ) → AreDigits ds → d < 10 → AreDigits (ds ++ (d ∷ []))
AreDigits-append [] d a lt = (lt, tt)
AreDigits-append (c ∷ ds) d a lt = (a.0, AreDigits-append ds d a.1 lt)

pub digits_of-AreDigits : (fuel n : ℕ) → AreDigits (digits_of fuel n)
unfolding digits_of
digits_of-AreDigits zero n = tt
digits_of-AreDigits (suc fuel) n = elim (Bool-cases (ltb n 10)) [
  | inl small ↦ rw small (ground arith, tt)
  | inr large ↦ rw large (
      AreDigits-append (digits_of fuel (n / 10)) (n % 10) (digits_of-AreDigits fuel (n / 10))
        (omega arith))
]

pub value-digits_of : (fuel n : ℕ) → n < fuel → value 0 (digits_of fuel n) ≡ n
unfolding digits_of value
value-digits_of zero n lt = absurd (omega arith)
value-digits_of (suc fuel) n lt = elim (Bool-cases (ltb n 10)) [
  | inl small ↦ rw small (omega arith)
  | inr large ↦ rw large (
      value-append 0 (digits_of fuel (n / 10)) (n % 10)
      ∙ ground (arith, value-digits_of fuel (n / 10)))
]
