-- ===== src/Executor/MaxThreads/Ignored.antt =====
-- The values of the variable that `default_max_threads` of executor/src/lib.rs passes over.
use lockness.Prelude.{
  ℕ, zero, suc, ◌+◌, ◌≡◌, refl, ap, Bool, true, false, ◌==◌, if◌then◌else◌, Option, none, some,
  List, [], ◌∷◌, ◌++◌,
}
use lockness.Vecs.Layout.{isize_max}
use lockness.Executor.Decimal.{
  ℤ, pos, negsuc, plus, minus, and_then, next, to_digit, digits, negate, positive, negative, parse,
}
use lockness.Executor.Decimal.Range.{AllOf, AllOf-and_then}
use lockness.Executor.MaxThreads.{
  returns, OsString, unicode, other, unwrap_or, lt_one, num_threads_of, env_num_threads,
  or_available, default_max_threads,
}
use lockness.Executor.MaxThreads.Values.{first_call}

-- No variable; no Unicode; no text; a sign alone; a number below zero, or any other text after a
-- `-`; a byte that is no digit, in the first place (and no sign) or later.
pub data IsIgnored : Option OsString → Type 0 where
  unset : IsIgnored none
  no_unicode : IsIgnored (some other)
  empty : IsIgnored (some (unicode []))
  only_plus : IsIgnored (some (unicode (plus ∷ [])))
  below_zero : (cs : List ℕ) → IsIgnored (some (unicode (minus ∷ cs)))
  no_digit_first :
      (c : ℕ) (cs : List ℕ)
      → to_digit c ≡ none
      → (c == plus) ≡ false
      → (c == minus) ≡ false
      → IsIgnored (some (unicode (c ∷ cs)))
  no_digit_later :
      (b : ℕ) (cs : List ℕ) (c : ℕ) (ds : List ℕ)
      → to_digit c ≡ none
      → IsIgnored (some (unicode (b ∷ (cs ++ (c ∷ ds)))))

and_then-none :
    {A B : Type 0} (o : Option A) (f : A → Option B) → ((a : A) → f a ≡ none) → and_then o f ≡ none
and_then-none none f e = refl
and_then-none (some a) f e = e a

digits-no_digit :
    (limit acc : ℕ) (cs : List ℕ) (c : ℕ) (ds : List ℕ)
    → to_digit c ≡ none
    → digits limit acc (cs ++ (c ∷ ds)) ≡ none
unfolding digits
digits-no_digit limit acc [] c ds e = rw e refl
digits-no_digit limit acc (b ∷ cs) c ds e =
    and_then-none (next limit acc (to_digit b)) (λ a. digits limit a (cs ++ (c ∷ ds)))
      (λ a. digits-no_digit limit a cs c ds e)

positive-no_digit :
    (cs : List ℕ) (c : ℕ) (ds : List ℕ) → to_digit c ≡ none → positive (cs ++ (c ∷ ds)) ≡ none
unfolding positive
positive-no_digit cs c ds e =
    ap (λ o. and_then o (λ n. some (pos n))) (digits-no_digit isize_max 0 cs c ds e)

abbrev pub BelowOne : Option ℤ → Type 0
BelowOne o = AllOf o (λ z. lt_one z ≡ true)

BelowOne-none : {o : Option ℤ} → o ≡ none → BelowOne o
BelowOne-none e = rw e tt

negative-BelowOne : (cs : List ℕ) → BelowOne (negative cs)
unfolding negative
negative-BelowOne cs =
    AllOf-and_then (λ n. Unit {0}) (λ z. lt_one z ≡ true) (digits (isize_max + 1) 0 cs)
      (λ n. some (negate n)) (any (digits (isize_max + 1) 0 cs)) negated
  where
    any : (o : Option ℕ) → AllOf o (λ n. Unit {0})
    any none = tt
    any (some n) = tt

    negated : (n : ℕ) → Unit {0} → lt_one (negate n) ≡ true
    negated zero u = refl
    negated (suc n) u = refl

-- What a text gives that has a byte that is no digit in a place where no sign may stand.
parse-signed :
    (b c : ℕ) (cs : List ℕ)
    → BelowOne (positive (b ∷ c ∷ cs))
    → BelowOne (positive (c ∷ cs))
    → BelowOne (parse (b ∷ c ∷ cs))
unfolding parse
parse-signed b c cs both rest = by_sign (b == plus) (b == minus)
  where
    by_sign :
        (p m : Bool)
        → BelowOne (
            if p then positive (c ∷ cs) else if m then negative (c ∷ cs) else positive (b ∷ c ∷ cs))
    by_sign true m = rest
    by_sign false true = negative-BelowOne (c ∷ cs)
    by_sign false false = both

parse-below_zero : (cs : List ℕ) → BelowOne (parse (minus ∷ cs))
unfolding parse
parse-below_zero [] = tt
parse-below_zero (c ∷ cs) = negative-BelowOne (c ∷ cs)

parse-no_digit_first :
    (c : ℕ) (cs : List ℕ)
    → to_digit c ≡ none
    → (c == plus) ≡ false
    → (c == minus) ≡ false
    → BelowOne (parse (c ∷ cs))
unfolding parse
parse-no_digit_first c [] e p m = rw (p, m) (BelowOne-none (positive-no_digit [] c [] e))
parse-no_digit_first c (d ∷ cs) e p m =
    rw (p, m) (BelowOne-none (positive-no_digit [] c (d ∷ cs) e))

parse-no_digit_later :
    (b : ℕ) (cs : List ℕ) (c : ℕ) (ds : List ℕ)
    → to_digit c ≡ none
    → BelowOne (parse (b ∷ (cs ++ (c ∷ ds))))
parse-no_digit_later b [] c ds e =
    parse-signed b c ds (BelowOne-none (positive-no_digit (b ∷ []) c ds e))
      (BelowOne-none (positive-no_digit [] c ds e))
parse-no_digit_later b (a ∷ cs) c ds e =
    parse-signed b a (cs ++ (c ∷ ds)) (BelowOne-none (positive-no_digit (b ∷ a ∷ cs) c ds e))
      (BelowOne-none (positive-no_digit (a ∷ cs) c ds e))

env_num_threads-BelowOne :
    (cs : List ℕ) → BelowOne (parse cs) → env_num_threads (some (unicode cs)) ≡ returns none
unfolding env_num_threads num_threads_of
env_num_threads-BelowOne cs below = of (parse cs) below
  where
    of : (o : Option ℤ) → BelowOne o → num_threads_of (unwrap_or (negsuc 0) o) ≡ returns none
    of none b = refl
    of (some z) b = rw b refl

env_num_threads-IsIgnored : {v : Option OsString} → IsIgnored v → env_num_threads v ≡ returns none
unfolding env_num_threads num_threads_of parse
env_num_threads-IsIgnored unset = refl
env_num_threads-IsIgnored no_unicode = refl
env_num_threads-IsIgnored empty = refl
env_num_threads-IsIgnored only_plus = refl
env_num_threads-IsIgnored (below_zero cs) =
    env_num_threads-BelowOne (minus ∷ cs) (parse-below_zero cs)
env_num_threads-IsIgnored (no_digit_first c cs e p m) =
    env_num_threads-BelowOne (c ∷ cs) (parse-no_digit_first c cs e p m)
env_num_threads-IsIgnored (no_digit_later b cs c ds e) =
    env_num_threads-BelowOne (b ∷ (cs ++ (c ∷ ds))) (parse-no_digit_later b cs c ds e)

-- Where the variable is unset, no Unicode, empty, below zero or no number, the available parallelism
-- stands in, or 1 where that is unknown, and it is kept that the variable gave nothing.
pub default_max_threads-IsIgnored :
    (available : Option ℕ) {v : Option OsString}
    → IsIgnored v
    → default_max_threads available v none ≡ (or_available available none, some none)
default_max_threads-IsIgnored available {v} ignored =
    first_call available v none (env_num_threads-IsIgnored ignored)
