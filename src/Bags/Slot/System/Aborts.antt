-- ===== src/Bags/Slot/System/Aborts.antt =====
-- The threads that have stopped at the limit of reservations of bags/src/slot.rs.
use lockness.Prelude.{
  ℕ, zero, suc, ◌+◌, ◌≤◌, ◌<◌, ◌≡◌, refl, Bool, true, false, if◌then◌else◌, arith,
}
use native.Mathlib.Decide.{dec_lt}
use lockness.Machine.Program.{Prog}
use lockness.Machine.Threads.{set_thread}
use lockness.Bags.Slot.Status.{abort_limit}
use lockness.Bags.Slot.Protocol.{Held, SendAct, take, more, release, close, is_abort}

abbrev pub one_if : Bool → ℕ
one_if b = if b then 1 else 0

module _ {T : Type 0} where
  -- How many of the first `k` threads have aborted.
  pub aborts : ℕ → (ℕ → Prog T (Unit {0})) → ℕ
  aborts zero thread = 0
  aborts (suc k) thread = aborts k thread + one_if (is_abort (thread k))

  module _ (thread : ℕ → Prog T (Unit {0})) where
    pub aborts-le : (k : ℕ) → aborts k thread ≤ k
    unfolding aborts
    aborts-le zero = omega arith
    aborts-le (suc k) = ground (arith, aborts-le k)

    module _ (t : ℕ) (p : Prog T (Unit {0})) where
      aborts-set_thread_ge : (k : ℕ) → k ≤ t → aborts k (set_thread thread t p) ≡ aborts k thread
      unfolding aborts
      aborts-set_thread_ge zero le = refl
      aborts-set_thread_ge (suc k) le = ground (arith, aborts-set_thread_ge k)

      pub aborts-set_thread_lt :
          (k : ℕ)
          → t < k
          → is_abort (thread t) ≡ false
          → aborts k (set_thread thread t p) ≡ aborts k thread + one_if (is_abort p)
      unfolding aborts
      aborts-set_thread_lt zero lt alive = absurd (omega arith)
      aborts-set_thread_lt (suc k) lt alive = elim (dec_lt t k) [
        | yes below ↦ ground (arith, aborts-set_thread_lt k below alive)
        | no last ↦ ground (arith, aborts-set_thread_ge k)
      ]

-- A change of `send` counts one reservation more at most, and none beyond the limit but one after
-- which the thread stops.
pub count_grows :
    {x86 stops dead dead' : Bool} {count count' : ℕ} {h h' : Held}
    → SendAct x86 h stops dead count dead' count' h'
    → (x86 ≡ true → count' ≤ suc count)
      × (x86 ≡ true → abort_limit < count → count < count' → stops ≡ true)
count_grows SendAct.keep = (λ x. omega arith, λ x l g. absurd (omega arith))
count_grows (take {c = n} e d z pos exact) =
    (λ x. ground (arith, exact x), λ x l g. ground (arith, exact x))
count_grows (more {c = n} c' pos exact stop) = (λ x. ground (arith, exact x), λ x l g. stop x l)
count_grows (release e) = (λ x. omega arith, λ x l g. absurd (omega arith))
count_grows (close e) = (λ x. omega arith, λ x l g. absurd (omega arith))

-- Beyond the limit, each reservation more is that of a thread more which has stopped.
pub bound_grows :
    (limit count count' n n' : ℕ) (b : Bool)
    → count ≤ suc (limit + n)
    → count' ≤ suc count
    → (limit < count → count < count' → b ≡ true)
    → n' ≡ n + one_if b
    → count' ≤ suc (limit + n')
bound_grows limit count count' n n' true bound step stops sum = omega arith
bound_grows limit count count' n n' false bound step stops sum = elim (dec_lt limit count) [
  | yes beyond ↦ elim (dec_lt count count') [
    | yes grew ↦ absurd (let now = stops beyond grew in cc)
    | no same ↦ omega arith
  ]
  | no within ↦ omega arith
]
