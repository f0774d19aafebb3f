-- ===== src/Tests/Schedule.antt =====
-- Reachable states by evaluation: threads over one channel take steps in a given order.
use lockness.Prelude.{ℕ, ◌≡◌, refl, Option, none, some, List, [], ◌∷◌}
use lockness.Machine.Program.{
  Prog, ret, rmw, write, read, wait, wake, abort, undefined, out_of_fuel, Shared,
}
use lockness.Machine.Threads.{Event, Move, System, pick, Reach, start, later}

module _ {T : Type 0} where
  abbrev Next : Shared T → Prog T (Unit {0}) → Type 0
  Next m p = (m' : Shared T) × (p' : Prog T (Unit {0})) × (e : Event T) × Move m p m' p' e

  read_move :
      (m : Shared T) (i : ℕ) (k : T → Prog T (Unit {0})) (o : Option T)
      → m.cell i ≡ o
      → Option (Next m (read i k))
  read_move m i k none e = none
  read_move m i k (some v) e = some (_, _, _, Move.read e)

  -- `none` if the thread has ended, or would read an empty cell.
  next_move : (m : Shared T) (p : Prog T (Unit {0})) → Option (Next m p)
  unfolding read_move
  next_move m (rmw l f k) = some (_, _, _, Move.rmw)
  next_move m (write i v k) = some (_, _, _, Move.write)
  next_move m (read i k) = read_move m i k (m.cell i) refl
  next_move m (wait l e k) = some (_, _, _, Move.wait)
  next_move m (wake l e k) = some (_, _, _, Move.wake)
  next_move m (ret a) = none
  next_move m abort = none
  next_move m undefined = none
  next_move m out_of_fuel = none

pub record Run (T : Type 0) (first : Shared T) (thread : ℕ → Prog T (Unit {0})) : Type 0 where
  pub last : System T
  pub reach : Reach first thread last

module _ {T : Type 0} {first : Shared T} {thread : ℕ → Prog T (Unit {0})} where
  turn : Run T first thread → ℕ → Run T first thread
  unfolding next_move
  turn r t = elim (next_move r.last.mem (r.last.thread t)) [
    | none ↦ r
    | some (m, p, e, mv) ↦ record { last = _; reach = later r.reach (pick t mv) }
  ]

  unfoldable pub turns : Run T first thread → List ℕ → Run T first thread
  unfolding turn
  turns r [] = r
  turns r (t ∷ l) = turns (turn r t) l

unfoldable pub run_all :
    (T : Type 0) (first : Shared T) (thread : ℕ → Prog T (Unit {0})) → List ℕ → Run T first thread
unfolding turns
run_all T first thread l = turns (record { last = _; reach = start }) l
