-- ===== src/Executor/MaxThreads/Bounds.antt =====
-- The result of `default_max_threads` of executor/src/lib.rs, whatever the environment holds.
use lockness.Prelude.{ℕ, zero, suc, ◌≤◌, ◌≡◌, refl, ap, false, ltb, Option, none, some, arith}
use lockness.Vecs.Layout.{usize_max}
use lockness.Executor.Decimal.{ℤ, pos, negsuc, parse}
use lockness.Executor.Decimal.Range.{AllOf, InRange, parse-AllOf}
use lockness.Executor.MaxThreads.{
  returns, OsString, unwrap_or, read_number, num_threads_of, env_num_threads, or_available,
  default_max_threads,
}

-- A `NonZeroUsize`.
abbrev pub IsCount : ℕ → Type 0
IsCount n = (1 ≤ n) × (n ≤ usize_max)

read_number-InRange : (s : OsString) → InRange (read_number s)
read_number-InRange (OsString.unicode cs) = of (parse cs) (parse-AllOf cs)
  where
    of : (o : Option ℤ) → AllOf o InRange → InRange (unwrap_or (negsuc 0) o)
    of none a = omega arith
    of (some z) a = a
read_number-InRange OsString.other = omega arith

-- The unwraps hold a value.
num_threads_of-returns :
    (z : ℤ) → InRange z → (o : Option ℕ) × (num_threads_of z ≡ returns o) × AllOf o IsCount
unfolding num_threads_of
num_threads_of-returns (negsuc n) range = (none, refl, tt)
num_threads_of-returns (pos zero) range = (none, refl, tt)
num_threads_of-returns (pos (suc n)) range =
    let positive : ltb (suc n) 1 ≡ false = ground arith in
    rw positive (some (suc n), refl, (omega arith, omega arith))

pub env_num_threads-returns :
    (v : Option OsString) → (o : Option ℕ) × (env_num_threads v ≡ returns o) × AllOf o IsCount
unfolding env_num_threads
env_num_threads-returns none = (none, refl, tt)
env_num_threads-returns (some s) = num_threads_of-returns (read_number s) (read_number-InRange s)

or_available-returns :
    (available number : Option ℕ)
    → AllOf available IsCount
    → AllOf number IsCount
    → (n : ℕ) × (or_available available number ≡ returns n) × IsCount n
or_available-returns available (some n) a b = (n, refl, b)
or_available-returns none none a b = (1, refl, (omega arith, omega arith))
or_available-returns (some n) none a b = (n, refl, a)

-- Whatever the variable holds, `default_max_threads` does not panic, and it returns a number of at
-- least 1 that fits a `usize`, also where the number was read before.
pub default_max_threads-IsCount :
    (available : Option ℕ) (variable : Option OsString) (once : Option (Option ℕ))
    → AllOf available IsCount
    → AllOf once (λ o. AllOf o IsCount)
    → (n : ℕ) × (o : Option ℕ) × (default_max_threads available variable once ≡ (returns n, some o))
      × IsCount n
      × AllOf o IsCount
unfolding default_max_threads
default_max_threads-IsCount available variable (some o) a b =
    let (n, e, c) = or_available-returns available o a b in (n, o, ap (λ r. (r, some o)) e, c, b)
default_max_threads-IsCount available variable none a b =
    let (o, e, c) = env_num_threads-returns variable in
    let (n, e', d) = or_available-returns available o a c in
    (n, o, rw e (ap (λ r. (r, some o)) e'), d, c)
