-- ===== src/Machine/Threads.antt =====
-- The steps of one thread, and of all threads together.
use lockness.Prelude.{
  Option, none, some, ℕ, Bool, true, false, ◌≡◌, refl, ◌==◌, if◌then◌else◌, List, [], ◌∷◌,
}
use lockness.Machine.Program.{Loc, Prog, Shared, set_word, set_cell, add_wake}

-- What a step does to a cell, for the record of the run.
pub data Event (T : Type 0) : Type 0 where
  quiet : Event T
  put : T → Event T
  got : T → Event T

-- One access to shared memory. A futex wait may end at any time: woken, interrupted, or because the
-- word had changed. A read of an empty cell has no step.
pub data Move {T A : Type 0} (m : Shared T)
    : Prog T A → Shared T → Prog T A → Event T → Type 0 where
  rmw :
      {l : Loc} {f : ℕ → ℕ} {k : ℕ → Prog T A}
      → Move m (Prog.rmw l f k) (set_word m l (f (m.word l))) (k (m.word l)) quiet
  write :
      {i : ℕ} {v : T} {k : Prog T A} → Move m (Prog.write i v k) (set_cell m i (some v)) k (put v)
  read :
      {i : ℕ} {v : T} {k : T → Prog T A}
      → m.cell i ≡ some v
      → Move m (Prog.read i k) (set_cell m i none) (k v) (got v)
  wait : {l : Loc} {e : ℕ → Bool} {k : Prog T A} → Move m (Prog.wait l e k) m k quiet
  wake : {l : Loc} {e : ℕ} {k : Prog T A} → Move m (Prog.wake l e k) (add_wake m l e) k quiet

-- `written` and `taken` list the values put into cells and got from them, the latest first.
pub record System (T : Type 0) : Type 0 where
  pub mem : Shared T
  pub thread : ℕ → Prog T (Unit {0})
  pub written : List T
  pub taken : List T

abbrev pub puts : {T : Type 0} → Event T → List T → List T
puts (put v) l = v ∷ l
puts _ l = l

abbrev pub gots : {T : Type 0} → Event T → List T → List T
gots (got v) l = v ∷ l
gots _ l = l

abbrev pub set_thread : {A : Type 0} → (ℕ → A) → ℕ → A → ℕ → A
set_thread f t p u = if t == u then p else f u

pub data Step {T : Type 0} (s : System T) : System T → Type 0 where
  pick :
      (t : ℕ) {m : Shared T} {p : Prog T (Unit {0})} {e : Event T}
      → Move s.mem (s.thread t) m p e
      → Step s (record {
        mem = m;
        thread = set_thread s.thread t p;
        written = puts e s.written;
        taken = gots e s.taken;
      })

-- The states that the threads `p` reach from the memory `first`.
pub data Reach {T : Type 0} (first : Shared T) (p : ℕ → Prog T (Unit {0})) : System T → Type 0 where
  start : Reach first p (record { mem = first; thread = p; written = []; taken = [] })
  later : {s u : System T} → Reach first p s → Step s u → Reach first p u

-- The cell that a program writes or reads next.
abbrev pub access : {T A : Type 0} → Prog T A → Option ℕ
access (Prog.write i v k) = some i
access (Prog.read i k) = some i
access _ = none

-- The next access of a program is defined: it is no use of `unwrap_unchecked` on nothing, reads
-- only a cell with a value in it, and writes only over an empty one.
abbrev pub IsDefined : {T A : Type 0} → Shared T → Prog T A → Type 0
IsDefined {T} m (Prog.read i k) = (v : T) × (m.cell i ≡ some v)
IsDefined m (Prog.write i v k) = m.cell i ≡ none
IsDefined m Prog.undefined = ⊥
IsDefined m _ = Unit

abbrev pub is_some : {T : Type 0} → Option T → Bool
is_some none = false
is_some (some v) = true

pub some_of : {T : Type 0} (c : Option T) → is_some c ≡ true → (v : T) × (c ≡ some v)
some_of none e = cc
some_of (some v) e = (v, refl)

pub none_of : {T : Type 0} (c : Option T) → is_some c ≡ false → c ≡ none
none_of none e = refl
none_of (some v) e = cc

-- The value in a cell, as a list.
abbrev pub left_over : {T : Type 0} → Option T → List T
left_over none = []
left_over (some v) = v ∷ []
