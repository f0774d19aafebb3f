-- ===== src/Tests/ExecutorInstances.antt =====
-- The theorems about executor/src at concrete inputs.
use lockness.Prelude.{
  ℕ, ◌-◌, ◌≡◌, refl, sym, Bool, true, false, leb, if◌then◌else◌, Option, none, some, List, [], ◌∷◌,
  ◌++◌, length, arith,
}
use mathlib.Core.List.{append-nil}
use lockness.Executor.Decimal.Range.{AllOf}
use lockness.Executor.Decimal.Digits.{value}
use lockness.Executor.MaxThreads.{returns, unicode, other, default_max_threads}
use lockness.Executor.MaxThreads.Bounds.{IsCount, default_max_threads-IsCount}
use lockness.Executor.MaxThreads.Values.{default_max_threads-digits}
use lockness.Executor.MaxThreads.Ignored.{below_zero, default_max_threads-IsIgnored}
use lockness.Executor.Error.{
  Payload, JoinError, from_join_error, join_error, closing, Fmt, fmt_display, fmt_debug,
}
use lockness.Executor.Error.Prints.{message, Wrote, Prints, fmt-Prints}

default_max_threads-IsCount_example :
    (n : ℕ) × (o : Option ℕ) × (default_max_threads (some 8) (some other) none
      ≡ (returns n, some o))
    × IsCount n
    × AllOf o IsCount
default_max_threads-IsCount_example =
    default_max_threads-IsCount (some 8) (some other) none (omega arith, omega arith) tt

-- "04" asks for 4 threads.
default_max_threads-digits_example :
    default_max_threads (some 8) (some (unicode (48 ∷ 52 ∷ []))) none ≡ (returns 4, some (some 4))
unfolding value
default_max_threads-digits_example =
    default_max_threads-digits (some 8) 0 (4 ∷ []) (omega arith, (omega arith, tt))

-- "-4" asks for nothing.
default_max_threads-IsIgnored_example :
    default_max_threads (some 8) (some (unicode (45 ∷ 52 ∷ []))) none ≡ (returns 8, some none)
default_max_threads-IsIgnored_example =
    default_max_threads-IsIgnored (some 8) (below_zero (52 ∷ []))

-- A writer with so many bytes of room, and what it has taken.
abbrev Limited : Type 0
Limited = ℕ × List ℕ

abbrev taken_in : Limited → List ℕ
taken_in s = s.1

abbrev write_limited : List ℕ → Fmt Limited
write_limited t s = if leb (length t) s.0 then (true, (s.0 - length t, s.1 ++ t)) else (false, s)

write_limited-Prints : (t : List ℕ) → Prints taken_in (write_limited t) t
write_limited-Prints t s = by_room (leb (length t) s.0)
  where
    by_room :
        (b : Bool)
        → Wrote taken_in s.1 t (if b then (true, (s.0 - length t, s.1 ++ t)) else (false, s))
    by_room true = refl
    by_room false = ([], t, refl, sym (append-nil s.1))

-- A panic with the message "no".
abbrev panicked : JoinError
panicked = from_join_error (Payload.str (110 ∷ 111 ∷ []))

fmt-Prints_example :
    Prints taken_in (fmt_display write_limited panicked) (message panicked.payload)
    × Prints taken_in
        (fmt_debug write_limited panicked)
        ((join_error ++ message panicked.payload) ++ closing)
fmt-Prints_example = fmt-Prints taken_in write_limited write_limited-Prints panicked
