-- ===== src/Executor/Decimal/Range.antt =====
-- The range of what the parser gives that executor/src/lib.rs uses.
use lockness.Prelude.{
  ℕ, ◌+◌, ◌*◌, ◌≤◌, ◌≡◌, refl, Bool, true, false, leb, if◌then◌else◌, Option, none, some, List, [],
  ◌∷◌, arith, ◌==◌, ◌||◌, zero, suc,
}
use lockness.Vecs.Layout.{isize_max}
use lockness.Executor.Decimal.{
  ℤ, pos, negsuc, and_then, next, to_digit, digits, negate, positive, negative, parse, plus, minus,
}

-- A value, if there is one, is as `P` says.
abbrev pub AllOf : {A : Type 0} → Option A → (A → Type 0) → Type 0
AllOf none P = Unit
AllOf (some a) P = P a

module _ {A B : Type 0} (P : A → Type 0) (Q : B → Type 0) where
  pub AllOf-and_then :
      (o : Option A) (f : A → Option B)
      → AllOf o P
      → ((a : A) → P a → AllOf (f a) Q)
      → AllOf (and_then o f) Q
  AllOf-and_then none f all step = tt
  AllOf-and_then (some a) f all step = step a all

AllOf-if :
    {A : Type 0} (P : A → Type 0) (b : Bool) (x y : Option A)
    → AllOf x P
    → AllOf y P
    → AllOf (if b then x else y) P
AllOf-if P true x y p q = p
AllOf-if P false x y p q = q

next-AllOf : (limit acc : ℕ) (o : Option ℕ) → AllOf (next limit acc o) (λ n. n ≤ limit)
next-AllOf limit acc none = tt
next-AllOf limit acc (some d) = checked (leb (acc * 10 + d) limit) refl
  where
    checked :
        (b : Bool)
        → leb (acc * 10 + d) limit ≡ b
        → AllOf (if b then some (acc * 10 + d) else none) (λ n. n ≤ limit)
    checked true e = ground arith
    checked false e = tt

digits-AllOf :
    (limit acc : ℕ) (cs : List ℕ) → acc ≤ limit → AllOf (digits limit acc cs) (λ n. n ≤ limit)
unfolding digits
digits-AllOf limit acc [] le = le
digits-AllOf limit acc (c ∷ cs) le =
    AllOf-and_then (λ n. n ≤ limit) (λ n. n ≤ limit) (next limit acc (to_digit c))
      (λ a. digits limit a cs) (next-AllOf limit acc (to_digit c))
      (λ a small. digits-AllOf limit a cs small)

abbrev pub InRange : ℤ → Type 0
InRange (pos n) = n ≤ isize_max
InRange (negsuc n) = n ≤ isize_max

negate-InRange : (n : ℕ) → n ≤ isize_max + 1 → InRange (negate n)
negate-InRange zero le = omega arith
negate-InRange (suc n) le = omega arith

positive-AllOf : (cs : List ℕ) → AllOf (positive cs) InRange
unfolding positive
positive-AllOf cs =
    AllOf-and_then (λ n. n ≤ isize_max) InRange (digits isize_max 0 cs) (λ n. some (pos n))
      (digits-AllOf isize_max 0 cs (omega arith)) (λ n small. small)

negative-AllOf : (cs : List ℕ) → AllOf (negative cs) InRange
unfolding negative
negative-AllOf cs =
    AllOf-and_then (λ n. n ≤ isize_max + 1) InRange (digits (isize_max + 1) 0 cs)
      (λ n. some (negate n)) (digits-AllOf (isize_max + 1) 0 cs (omega arith)) negate-InRange

-- Whatever the text, the number that is read is one of an `isize`.
pub parse-AllOf : (cs : List ℕ) → AllOf (parse cs) InRange
unfolding parse
parse-AllOf [] = tt
parse-AllOf (c ∷ []) =
    AllOf-if InRange (c == plus || c == minus) none (positive (c ∷ [])) tt (positive-AllOf (c ∷ []))
parse-AllOf (c ∷ d ∷ cs) =
    AllOf-if InRange (c == plus) (positive (d ∷ cs))
      (if c == minus then negative (d ∷ cs) else positive (c ∷ d ∷ cs)) (positive-AllOf (d ∷ cs))
      (AllOf-if InRange (c == minus) (negative (d ∷ cs)) (positive (c ∷ d ∷ cs))
        (negative-AllOf (d ∷ cs)) (positive-AllOf (c ∷ d ∷ cs)))
