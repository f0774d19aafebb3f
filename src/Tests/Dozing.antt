-- ===== src/Tests/Dozing.antt =====
-- Reachable states by evaluation, with the futex: threads take steps in a given order, and a wake
-- picks given sleepers.
use lockness.Prelude.{
  ℕ, zero, suc, ◌≡◌, refl, sym, subst, Option, none, some, List, [], ◌∷◌, Bool, true, false,
}
use lockness.Machine.Program.{
  Loc, Prog, ret, rmw, write, read, wait, wake, abort, undefined, out_of_fuel, Shared,
}
use lockness.Machine.Threads.{Event, Move}
use lockness.Machine.Futex.{
  World, waits_on, falls, passes, is_futex, rouse, called, Wakes, enough, one, Step, act, fall,
  pass, Reach, start, later,
}

module _ {T : Type 0} where
  abbrev Next : World T → Type 0
  Next s = (u : World T) × Step s u

  Move_at :
      (s : World T) (t : ℕ) (p : Prog T (Unit {0})) {m : Shared T} {q : Prog T (Unit {0})}
      {e : Event T}
      → s.asleep t ≡ false
      → is_futex p ≡ false
      → s.state.thread t ≡ p
      → Move s.state.mem p m q e
      → Next s
  Move_at s t p {m} {q} {e} up h is mv = (
    _,
    act t up (subst (λ x. is_futex x ≡ false) (sym is) h)
        (subst (λ x. Move s.state.mem x m q e) (sym is) mv),
  )

  read_at :
      (s : World T) (t i : ℕ) (k : T → Prog T (Unit {0})) (o : Option T)
      → s.asleep t ≡ false
      → s.state.thread t ≡ read i k
      → s.state.mem.cell i ≡ o
      → Option (Next s)
  read_at s t i k none up is c = none
  read_at s t i k (some v) up is c = some (Move_at s t (read i k) up refl is (Move.read c))

  wait_at :
      (s : World T) (t : ℕ) (l : Loc) (e : ℕ → Bool) (k : Prog T (Unit {0})) (b : Bool)
      → s.asleep t ≡ false
      → s.state.thread t ≡ wait l e k
      → e (s.state.mem.word l) ≡ b
      → Next s
  wait_at s t l e k true up is h =
      (_, fall t up (subst (λ p. falls s.state.mem p ≡ true) (sym is) h))
  wait_at s t l e k false up is h =
      (_, pass t up (subst (λ p. passes s.state.mem p ≡ true) (sym is) (rw h refl)))

  waking_one :
      (l : Loc) (n : ℕ) (s : World T) (t : ℕ) (rest : List ℕ) (a w : Bool)
      → s.asleep t ≡ a
      → waits_on l (s.state.thread t) ≡ w
      → Option ((u : World T) × Wakes l n (rouse t s) u)
      → Option ((u : World T) × Wakes l (suc n) s u)
  waking_one l n s t rest true true a w (some (u, ws)) = some (u, one t (a, w) ws)
  waking_one l n s t rest _ _ a w _ = none

  -- `none` if those that are picked do not sleep there, or are not as many as are to be woken.
  waking : (l : Loc) (n : ℕ) (s : World T) → List ℕ → Option ((u : World T) × Wakes l n s u)
  waking l zero s [] = some (s, enough)
  waking l zero s (t ∷ rest) = none
  waking l (suc n) s [] = none
  waking l (suc n) s (t ∷ rest) =
      waking_one l n s t rest (s.asleep t) (waits_on l (s.state.thread t)) refl refl
        (waking l n (rouse t s) rest)

  turn_at :
      (s : World T) (t : ℕ) (p : Prog T (Unit {0}))
      → List ℕ
      → s.asleep t ≡ false
      → s.state.thread t ≡ p
      → Option (Next s)
  turn_at s t (rmw l f k) picked up is = some (Move_at s t (rmw l f k) up refl is Move.rmw)
  turn_at s t (write i v k) picked up is = some (Move_at s t (write i v k) up refl is Move.write)
  turn_at s t (read i k) picked up is = read_at s t i k (s.state.mem.cell i) up is refl
  turn_at s t (wait l e k) picked up is =
      some (wait_at s t l e k (e (s.state.mem.word l)) up is refl)
  turn_at s t (wake l n k) picked up is = elim (waking l n (called t l n k s) picked) [
    | none ↦ none
    | some (u, ws) ↦ some (u, Step.wake t up is ws)
  ]
  turn_at s t (ret a) picked up is = none
  turn_at s t abort picked up is = none
  turn_at s t undefined picked up is = none
  turn_at s t out_of_fuel picked up is = none

  turn_of : (s : World T) (t : ℕ) (b : Bool) → s.asleep t ≡ b → List ℕ → Option (Next s)
  turn_of s t true e picked = none
  turn_of s t false e picked = turn_at s t (s.state.thread t) picked e refl

pub record Night (T : Type 0) (first : Shared T) (thread : ℕ → Prog T (Unit {0})) : Type 0 where
  pub last : World T
  pub reach : Reach first thread last

module _ {T : Type 0} {first : Shared T} {thread : ℕ → Prog T (Unit {0})} where
  turn : Night T first thread → ℕ → List ℕ → Night T first thread
  unfolding turn_of turn_at waking waking_one Move_at read_at wait_at
  turn r t picked = elim (turn_of r.last t (r.last.asleep t) refl picked) [
    | none ↦ r
    | some (u, st) ↦ record { last = u; reach = later r.reach st }
  ]

  unfoldable pub nights : Night T first thread → List (ℕ × List ℕ) → Night T first thread
  unfolding turn
  nights r [] = r
  nights r ((t, picked) ∷ l) = nights (turn r t picked) l

-- Each entry names a thread, and the sleepers that it wakes if it calls the futex.
unfoldable pub run_night :
    (T : Type 0) (first : Shared T) (thread : ℕ → Prog T (Unit {0}))
    → List (ℕ × List ℕ)
    → Night T first thread
unfolding nights
run_night T first thread l = nights (record { last = _; reach = start }) l

-- `k` turns of thread `t` in which it wakes nobody.
unfoldable pub times : ℕ → ℕ → List (ℕ × List ℕ) → List (ℕ × List ℕ)
times zero t l = l
times (suc k) t l = (t, []) ∷ times k t l
