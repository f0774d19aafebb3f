-- ===== src/Machine/Access.antt =====
-- The atomic accesses that the channels make, as programs of one step.
use lockness.Prelude.{ℕ, ◌==◌, ◌/◌, ◌+◌, ◌-◌, ◌%◌, ◌^◌, bit_and, bit_or, Bool, if◌then◌else◌}
use lockness.Machine.Program.{Loc, Prog, ret, rmw, wait, wake}

module _ {T : Type 0} where
  -- `AtomicU32::load`.
  abbrev pub load : Loc → Prog T ℕ
  load l = rmw l (λ w. w) ret

  abbrev pub swap : Loc → ℕ → Prog T ℕ
  swap l v = rmw l (λ _. v) ret

  abbrev pub fetch_or : Loc → ℕ → Prog T ℕ
  fetch_or l m = rmw l (λ w. bit_or w m) ret

  abbrev pub fetch_and : Loc → ℕ → Prog T ℕ
  fetch_and l m = rmw l (λ w. bit_and w m) ret

  -- Both wrap at the width of an `AtomicU32`.
  abbrev pub fetch_add : Loc → ℕ → Prog T ℕ
  fetch_add l k = rmw l (λ w. (w + k) % 2 ^ 32) ret

  abbrev pub fetch_sub : Loc → ℕ → Prog T ℕ
  fetch_sub l k = rmw l (λ w. (w + 2 ^ 32 - k) % 2 ^ 32) ret

  -- bags/src/lib.rs: the result of the futex call is not used by the callers.
  abbrev pub atomic_sleep : Loc → ℕ → Prog T (Unit {0})
  atomic_sleep l expected = wait l (λ w. w == expected) (ret tt)

  -- The same on `u64_to_futex`, which is the high half of an `AtomicU64`.
  abbrev pub atomic_sleep_high : Loc → ℕ → Prog T (Unit {0})
  atomic_sleep_high l expected = wait l (λ w. w / 2 ^ 32 == expected) (ret tt)

  abbrev pub atomic_wake : Loc → ℕ → Prog T (Unit {0})
  atomic_wake l waiters = wake l waiters (ret tt)

  abbrev pub wake_if : Bool → Loc → ℕ → Prog T (Unit {0})
  wake_if b l waiters = if b then atomic_wake l waiters else ret tt
