-- ===== src/Machine/Futex/Refines.antt =====
-- The futex of the operating system as one way to schedule threads whose waits may end at any time.
use lockness.Prelude.{ℕ, ◌≡◌, sym, subst, true}
use lockness.Machine.Program.{Loc, Prog, Shared, add_wake}
use lockness.Machine.Threads.{System, Move, quiet, Step, pick}
use lockness.Machine.Threads
use lockness.Machine.Futex.{
  World, waits_on, passes, after_wait, IsAsleepOn, rouse, called, Wakes, enough, nobody, one, act,
  fall, pass, wake, interrupt, start, later,
}
use lockness.Machine.Futex

module _ {T : Type 0} where
  Move-waits_on :
      {A : Type 0} (m : Shared T) (l : Loc) (p : Prog T A)
      → waits_on l p ≡ true
      → Move m p m (after_wait p) quiet
  Move-waits_on m l (Prog.wait k e p) h = Move.wait
  Move-waits_on m l (Prog.ret a) h = cc
  Move-waits_on m l (Prog.rmw k f p) h = cc
  Move-waits_on m l (Prog.write i v p) h = cc
  Move-waits_on m l (Prog.read i p) h = cc
  Move-waits_on m l (Prog.wake k n p) h = cc
  Move-waits_on m l Prog.abort h = cc
  Move-waits_on m l Prog.undefined h = cc
  Move-waits_on m l Prog.out_of_fuel h = cc

  Move-passes :
      {A : Type 0} (m : Shared T) (p : Prog T A)
      → passes m p ≡ true
      → Move m p m (after_wait p) quiet
  Move-passes m (Prog.wait k e p) h = Move.wait
  Move-passes m (Prog.ret a) h = cc
  Move-passes m (Prog.rmw k f p) h = cc
  Move-passes m (Prog.write i v p) h = cc
  Move-passes m (Prog.read i p) h = cc
  Move-passes m (Prog.wake k n p) h = cc
  Move-passes m Prog.abort h = cc
  Move-passes m Prog.undefined h = cc
  Move-passes m Prog.out_of_fuel h = cc

  module _ {first : Shared T} {p : ℕ → Prog T (Unit {0})} where
    Wakes-Reach :
        {l : Loc} {n : ℕ} {s u : World T}
        → Wakes l n s u
        → Threads.Reach first p s.state
        → Threads.Reach first p u.state
    Wakes-Reach enough r = r
    Wakes-Reach (nobody none_asleep) r = r
    Wakes-Reach {l} {s = s} (one t on w) r =
        Wakes-Reach w
          (Threads.later r (pick t (Move-waits_on s.state.mem l (s.state.thread t) on.1)))

    -- A state that the threads reach with the futex is one that they reach where a wait may end
    -- at any time.
    pub Reach-Reach : {s : World T} → Futex.Reach first p s → Threads.Reach first p s.state
    Reach-Reach start = Threads.start
    Reach-Reach (later r (act t up f mv)) = Threads.later (Reach-Reach r) (pick t mv)
    Reach-Reach (later r (fall t up f)) = Reach-Reach r
    Reach-Reach (later {s} r (pass t up f)) =
        Threads.later (Reach-Reach r) (pick t (Move-passes s.state.mem (s.state.thread t) f))
    Reach-Reach (later {s} r (wake t {l} {n} {k} up e w)) = Wakes-Reach w (
        Threads.later (Reach-Reach r) (
          pick t
            (subst (λ q. Move s.state.mem q (add_wake s.state.mem l n) k quiet) (sym e) Move.wake)))
    Reach-Reach (later {s} r (interrupt t l on)) =
        Threads.later (Reach-Reach r) (pick t (Move-waits_on s.state.mem l (s.state.thread t) on.1))
