-- ===== src/Executor/Decimal.antt =====
-- `str::parse::<isize>`, by which executor/src/lib.rs reads the number of threads.
pub mod Digits
pub mod Range
use lockness.Prelude.{
  ℕ, zero, suc, ◌+◌, ◌-◌, ◌*◌, Bool, ◌&&◌, ◌||◌, ◌==◌, leb, if◌then◌else◌, Option, none, some, List,
  [], ◌∷◌,
}
use lockness.Vecs.Layout.{isize_max}

-- `isize`, with `negsuc n` for the number below zero by `n + 1`.
pub data ℤ : Type 0 where
  pos negsuc : ℕ → ℤ

-- The bytes `+`, `-` and `0`.
abbrev pub plus : ℕ
plus = 43

abbrev pub minus : ℕ
minus = 45

abbrev pub zero_byte : ℕ
zero_byte = 48

-- `to_digit(10)`.
abbrev pub to_digit : ℕ → Option ℕ
to_digit c = if leb zero_byte c && leb c (zero_byte + 9) then some (c - zero_byte) else none

-- `checked_mul(10)`, then `checked_add` or `checked_sub` of the digit; the result stays in range.
abbrev pub next : ℕ → ℕ → Option ℕ → Option ℕ
next limit acc none = none
next limit acc (some d) = if leb (acc * 10 + d) limit then some (acc * 10 + d) else none

abbrev pub and_then : {A B : Type 0} → Option A → (A → Option B) → Option B
and_then none f = none
and_then (some a) f = f a

-- The distance from zero of the number that follows `acc`.
unfoldable pub digits : ℕ → ℕ → List ℕ → Option ℕ
digits limit acc [] = some acc
digits limit acc (c ∷ cs) = and_then (next limit acc (to_digit c)) (λ a. digits limit a cs)

abbrev pub negate : ℕ → ℤ
negate zero = pos 0
negate (suc n) = negsuc n

unfoldable pub positive : List ℕ → Option ℤ
unfolding digits
positive cs = and_then (digits isize_max 0 cs) (λ n. some (pos n))

unfoldable pub negative : List ℕ → Option ℤ
unfolding digits
negative cs = and_then (digits (isize_max + 1) 0 cs) (λ n. some (negate n))

-- `none` for each `ParseIntError`.
unfoldable pub parse : List ℕ → Option ℤ
unfolding positive negative
parse [] = none
parse (c ∷ []) = if c == plus || c == minus then none else positive (c ∷ [])
parse (c ∷ d ∷ cs) =
    if c == plus
    then positive (d ∷ cs)
    else if c == minus
    then negative (d ∷ cs)
    else positive (c ∷ d ∷ cs)
