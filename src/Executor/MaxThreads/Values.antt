-- ===== src/Executor/MaxThreads/Values.antt =====
-- Which number `default_max_threads` of executor/src/lib.rs reads out of its variable.
use lockness.Prelude.{
  ℕ, zero, suc, ◌≤◌, ◌≡◌, refl, ap, ◌∙◌, Bool, true, false, ltb, leb, ◌==◌, if◌then◌else◌, Option,
  none, some, List, [], ◌∷◌, map, arith,
}
use lockness.Vecs.Layout.{isize_max}
use lockness.Executor.Decimal.{negsuc}
use lockness.Executor.Decimal.Digits.{
  value, byte_of, AreDigits, digits_of, in_range, as_pos, parse-value, digits_of-AreDigits,
  value-digits_of,
}
use lockness.Executor.MaxThreads.{
  returns, OsString, unicode, unwrap_or, num_threads_of, env_num_threads, or_available,
  default_max_threads,
}
use lockness.Executor.MaxThreads.Bounds.{env_num_threads-returns}

-- A first call, with what the variable gives.
pub first_call :
    (available : Option ℕ) (v : Option OsString) (o : Option ℕ)
    → env_num_threads v ≡ returns o
    → default_max_threads available v none ≡ (or_available available o, some o)
unfolding default_max_threads
first_call available v o e = rw e refl

-- The number of threads that a variable of decimal digits asks for, if any.
abbrev pub asked : ℕ → Option ℕ
asked n = if n == 0 then none else in_range isize_max n

num_threads_of-asked :
    (n : ℕ)
    → num_threads_of (unwrap_or (negsuc 0) (as_pos (in_range isize_max n))) ≡ returns (asked n)
unfolding num_threads_of
num_threads_of-asked zero = refl
num_threads_of-asked (suc n) = by_range (leb (suc n) isize_max) refl
  where
    by_range :
        (b : Bool)
        → leb (suc n) isize_max ≡ b
        → num_threads_of (unwrap_or (negsuc 0) (as_pos (if b then some (suc n) else none)))
          ≡ returns (if suc n == 0 then none else if b then some (suc n) else none)
    by_range true e =
        let zero_no : (suc n == 0) ≡ false = ground arith in
        let one : ltb (suc n) 1 ≡ false = ground arith in rw (zero_no, one) refl
    by_range false e = ground arith

env_num_threads-digits :
    (d : ℕ) (ds : List ℕ)
    → AreDigits (d ∷ ds)
    → env_num_threads (some (unicode (map byte_of (d ∷ ds)))) ≡ returns (asked (value 0 (d ∷ ds)))
unfolding env_num_threads
env_num_threads-digits d ds a =
    ap (λ o. num_threads_of (unwrap_or (negsuc 0) o)) (parse-value d ds a)
    ∙ num_threads_of-asked (value 0 (d ∷ ds))

-- A variable of decimal digits, leading zeros included, gives its number from 1 to the largest
-- `isize`; for 0 and the larger numbers the available parallelism stands in. What was read is kept.
pub default_max_threads-digits :
    (available : Option ℕ) (d : ℕ) (ds : List ℕ)
    → AreDigits (d ∷ ds)
    → default_max_threads available (some (unicode (map byte_of (d ∷ ds)))) none
      ≡ (or_available available (asked (value 0 (d ∷ ds))), some (asked (value 0 (d ∷ ds))))
default_max_threads-digits available d ds a =
    first_call available _ _ (env_num_threads-digits d ds a)

-- A number as it is printed.
abbrev pub text_of : ℕ → List ℕ
text_of n = map byte_of (digits_of (suc n) n)

abbrev pub set_to : ℕ → Option OsString
set_to n = some (unicode (text_of n))

printed :
    (available : Option ℕ) (n : ℕ) (ds : List ℕ)
    → AreDigits ds
    → value 0 ds ≡ n
    → 1 ≤ n
    → n ≤ isize_max
    → default_max_threads available (some (unicode (map byte_of ds))) none
      ≡ (returns n, some (some n))
unfolding value
printed available n [] a e least le = absurd (omega arith)
printed available n (d ∷ ds) a e least le =
    let is : asked (value 0 (d ∷ ds)) ≡ some n = ground arith in
    default_max_threads-digits available d ds a ∙ ap (λ o. (or_available available o, some o)) is

-- A number of threads from 1 to the largest `isize`, printed into the variable, is the result.
pub default_max_threads-set_to :
    (available : Option ℕ) (n : ℕ)
    → 1 ≤ n
    → n ≤ isize_max
    → default_max_threads available (set_to n) none ≡ (returns n, some (some n))
default_max_threads-set_to available n least le =
    printed available n (digits_of (suc n) n) (digits_of-AreDigits (suc n) n)
      (value-digits_of (suc n) n (omega arith)) least le

-- The variable is read once: after a first call, whatever the variable has become, the result is
-- what the variable gave then.
pub default_max_threads-once :
    (a b : Option ℕ) (v w : Option OsString) (once : Option (Option ℕ))
    → default_max_threads b w (default_max_threads a v once).1 ≡ default_max_threads b v once
unfolding default_max_threads
default_max_threads-once a b v w (some o) = refl
default_max_threads-once a b v w none = let (o, e, c) = env_num_threads-returns v in rw e refl
