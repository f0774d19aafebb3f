-- ===== src/Machine/Sequential.antt =====
-- A program that runs alone, to its end.
use lockness.Prelude.{Option, none, some, if◌then◌else◌, Bool, true, false, ◌≡◌, refl}
use lockness.Machine.Program.{
  Prog, ret, rmw, write, read, wait, wake, abort, undefined, out_of_fuel, ◌>>=◌, Shared, set_word,
  set_cell, add_wake,
}

pub data Outcome (T A : Type 0) : Type 0 where
  done : A → Shared T → Outcome T A
  -- Asleep on a futex that nobody else can wake.
  asleep : Shared T → Outcome T A
  -- `abort`; undefined behaviour, such as a read of a cell that holds no value; no fuel.
  aborted : Outcome T A
  fault : Outcome T A
  exhausted : Outcome T A

-- A value is read out of a cell that holds one.
abbrev pub on_cell : {T : Type 0} {B : Type 0} → Option T → B → (T → B) → B
on_cell none b k = b
on_cell (some v) b k = k v

unfoldable pub run : {T A : Type 0} → Prog T A → Shared T → Outcome T A
run (ret a) s = done a s
run (rmw l f k) s = run (k (s.word l)) (set_word s l (f (s.word l)))
run (write i v k) s = run k (set_cell s i (some v))
run (read i k) s = on_cell (s.cell i) fault (λ v. run (k v) (set_cell s i none))
run (wait l e k) s = let awake = run k s in if e (s.word l) then asleep s else awake
run (wake l n k) s = run k (add_wake s l n)
run abort s = aborted
run undefined s = fault
run out_of_fuel s = exhausted

-- What follows a program, given its outcome.
unfoldable pub continue_with :
    {T A B : Type 0} → Outcome T A → (A → Shared T → Outcome T B) → Outcome T B
continue_with (done a s) g = g a s
continue_with (asleep s) g = asleep s
continue_with aborted g = aborted
continue_with fault g = fault
continue_with exhausted g = exhausted

continue_with-on_cell :
    {T A B : Type 0} (o : Option T) (f : T → Outcome T A) (h : A → Shared T → Outcome T B)
    (f' : T → Outcome T B)
    → ((v : T) → f' v ≡ continue_with (f v) h)
    → on_cell o fault f' ≡ continue_with (on_cell o fault f) h
unfolding continue_with
continue_with-on_cell none f h f' e = refl
continue_with-on_cell (some v) f h f' e = e v

continue_with-if :
    {T A B : Type 0} (b : Bool) (s : Shared T) (o : Outcome T A) (h : A → Shared T → Outcome T B)
    {o' : Outcome T B}
    → o' ≡ continue_with o h
    → (if b then asleep s else o') ≡ continue_with (if b then asleep s else o) h
unfolding continue_with
continue_with-if true s o h e = refl
continue_with-if false s o h e = e

-- A sequence of two programs runs the second where the first one ends.
pub run->>= :
    {T A B : Type 0} (p : Prog T A) (g : A → Prog T B) (s : Shared T)
    → run (p >>= g) s ≡ continue_with (run p s) (λ a s'. run (g a) s')
unfolding run continue_with ◌>>=◌
run->>= (ret a) g s = refl
run->>= (rmw l f k) g s = run->>= (k (s.word l)) g _
run->>= (write i v k) g s = run->>= k g _
run->>= (read i k) g s = continue_with-on_cell (s.cell i) _ _ _ (λ v. run->>= (k v) g _)
run->>= (wait l e k) g s = continue_with-if (e (s.word l)) s _ _ (run->>= k g s)
run->>= (wake l n k) g s = run->>= k g _
run->>= abort g s = refl
run->>= undefined g s = refl
run->>= out_of_fuel g s = refl
