-- ===== src/Bags/Mpmc/Protocol/Obeys.antt =====
-- A program keeps the protocol if it takes cells only by the bits that it sets in `send` or clears
-- in `recv`, touches only cells that it holds, and gives back only what it holds.
use lockness.Prelude.{ℕ, ◌^◌, ◌<◌, ◌≡◌, Bool, true, false, ◌==◌, if◌then◌else◌}
use lockness.Machine.Program.{
  Loc, Prog, ret, rmw, write, read, wait, wake, abort, undefined, out_of_fuel, ◌>>=◌,
}
use lockness.Bags.Mpmc.Status.{slot_bit}

-- What a thread holds of one cell: nothing, the empty cell, or the cell with a value in it.
pub data Hold : Type 0 where
  nothing empty full : Hold

abbrev pub Held : Type 0
Held = ℕ → Hold

abbrev pub put : Held → ℕ → Hold → Held
put h i x j = if i == j then x else h j

-- How a change of a cell's bit changes what the thread that makes it holds.
abbrev pub step_hold : Loc → Bool → Bool → Hold → Hold
step_hold Loc.send false true h = Hold.empty
step_hold Loc.send true false h = Hold.nothing
step_hold Loc.recv true false h = Hold.full
step_hold Loc.recv false true h = Hold.nothing
step_hold _ _ _ h = h

-- The changes that give a cell back need it.
abbrev pub May : Loc → Bool → Bool → Hold → Type 0
May Loc.send true false h = h ≡ Hold.empty
May Loc.recv false true h = h ≡ Hold.full
May _ _ _ h = Unit

-- The bit of a cell that a thread holds is known to it.
abbrev pub Sees : Loc → Hold → Bool → Type 0
Sees l Hold.nothing b = Unit
Sees Loc.send _ b = b ≡ true
Sees Loc.recv _ b = b ≡ false
Sees _ _ b = Unit

abbrev pub after : Loc → ℕ → ℕ → Held → Held
after l w w' h i = step_hold l (slot_bit w i) (slot_bit w' i) (h i)

-- `p` keeps the protocol from `h` on, never runs into undefined behaviour, and where it returns,
-- `Q` holds of its result and of what it holds then.
abbrev pub Obeys : {T A : Type 0} → Prog T A → Held → (A → Held → Type 0) → Type 0
Obeys (ret a) h Q = Q a h
Obeys (rmw l f k) h Q =
    (w : ℕ)
    → w < 2 ^ 32
    → ((i : ℕ) → Sees l (h i) (slot_bit w i))
    → (f w < 2 ^ 32)
      × ((i : ℕ) → May l (slot_bit w i) (slot_bit (f w) i) (h i))
      × Obeys (k w) (after l w (f w) h) Q
Obeys (write i v k) h Q = (h i ≡ Hold.empty) × Obeys k (put h i Hold.full) Q
Obeys (read i k) h Q = (h i ≡ Hold.full) × ((v : _) → Obeys (k v) (put h i Hold.empty) Q)
Obeys (wait l e k) h Q = Obeys k h Q
Obeys (wake l n k) h Q = Obeys k h Q
Obeys abort h Q = Unit
Obeys undefined h Q = ⊥
Obeys out_of_fuel h Q = Unit

module _ {T A B : Type 0} where
  -- The rule for a sequence of two programs.
  pub Obeys->>= :
      (p : Prog T A) (g : A → Prog T B) (h : Held) (Q : B → Held → Type 0)
      → Obeys p h (λ a h'. Obeys (g a) h' Q)
      → Obeys (p >>= g) h Q
  unfolding ◌>>=◌
  Obeys->>= (ret a) g h Q o = o
  Obeys->>= (rmw l f k) g h Q o =
      λ w fits sees. let r = o w fits sees in (r.0, r.1, Obeys->>= (k w) g _ Q r.2)
  Obeys->>= (write i v k) g h Q o = (o.0, Obeys->>= k g _ Q o.1)
  Obeys->>= (read i k) g h Q o = (o.0, λ v. Obeys->>= (k v) g _ Q (o.1 v))
  Obeys->>= (wait l e k) g h Q o = Obeys->>= k g h Q o
  Obeys->>= (wake l n k) g h Q o = Obeys->>= k g h Q o
  Obeys->>= abort g h Q o = tt
  Obeys->>= undefined g h Q o = o
  Obeys->>= out_of_fuel g h Q o = tt

module _ {T A : Type 0} where
  -- What is promised of the result may be weakened.
  pub Obeys_mono :
      (p : Prog T A) (h : Held) (Q R : A → Held → Type 0)
      → ((a : A) (h' : Held) → Q a h' → R a h')
      → Obeys p h Q
      → Obeys p h R
  Obeys_mono (ret a) h Q R m o = m a h o
  Obeys_mono (rmw l f k) h Q R m o =
      λ w fits sees. let r = o w fits sees in (r.0, r.1, Obeys_mono (k w) _ Q R m r.2)
  Obeys_mono (write i v k) h Q R m o = (o.0, Obeys_mono k _ Q R m o.1)
  Obeys_mono (read i k) h Q R m o = (o.0, λ v. Obeys_mono (k v) _ Q R m (o.1 v))
  Obeys_mono (wait l e k) h Q R m o = Obeys_mono k h Q R m o
  Obeys_mono (wake l n k) h Q R m o = Obeys_mono k h Q R m o
  Obeys_mono abort h Q R m o = tt
  Obeys_mono undefined h Q R m o = o
  Obeys_mono out_of_fuel h Q R m o = tt
