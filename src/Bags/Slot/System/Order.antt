-- ===== src/Bags/Slot/System/Order.antt =====
-- The messages on their way through the slot of bags/src/slot.rs.
use lockness.Prelude.{
  ℕ, Bool, ◌==◌, if◌then◌else◌, ◌≡◌, refl, sym, ap, ◌∙◌, Option, none, some, arith, List, [], ◌∷◌,
  ◌++◌,
}
use lockness.Machine.Program.{Prog, Shared}
use lockness.Machine.Threads.{
  Event, Move, System, pick, Reach, start, later, left_over, puts, gots, access, IsDefined,
}
use lockness.Bags.Slot.Status.{slot}
use lockness.Bags.Slot.Handles.{mpsc}
use lockness.Bags.Slot.System.Invariant.{AreClients}
use lockness.Bags.Slot.System.Safety.{slot-IsDefined, one_at_slot}

module _ {T : Type 0} where
  at_slot : (i : ℕ) (o o' : Option T) → i ≡ slot → (if i == slot then o else o') ≡ o
  at_slot i o o' e = ground arith

  Move-order :
      {m m' : Shared T} {p p' : Prog T (Unit {0})} {e : Event T} (written taken : List T)
      → Move m p m' p' e
      → IsDefined m p
      → ((i : ℕ) → access p ≡ some i → i ≡ slot)
      → written ≡ left_over (m.cell slot) ++ taken
      → puts e written ≡ left_over (m'.cell slot) ++ gots e taken
  Move-order written taken Move.rmw d range b = b
  Move-order {m} written taken (Move.write {i} {v} {k}) d range b =
      let e : m.cell slot ≡ none = ap m.cell (sym (range i refl)) ∙ d in
      ap (λ l. v ∷ l) (b ∙ ap (λ o. left_over o ++ taken) e)
      ∙ sym (ap (λ o. left_over o ++ taken) (at_slot i (some v) (m.cell slot) (range i refl)))
  Move-order {m} written taken (Move.read {i} {v} {k} c) d range b =
      let e : m.cell slot ≡ some v = ap m.cell (sym (range i refl)) ∙ c in
      b
      ∙ ap (λ o. left_over o ++ taken) e
      ∙ sym (ap (λ o. left_over o ++ (v ∷ taken)) (at_slot i none (m.cell slot) (range i refl)))
  Move-order written taken Move.wait d range b = b
  Move-order written taken Move.wake d range b = b

  first_order : [] ≡ left_over ((mpsc {T = T}).cell slot) ++ []
  unfolding mpsc
  first_order = refl

module _ {T : Type 0} {x86 : Bool} {k : ℕ} {thread : ℕ → Prog T (Unit {0})} where
  -- However the calls of the receiver and of fewer than 2 ^ 60 senders interleave, the
  -- messages taken so far, with the one in the slot, are those written, once each and in the order
  -- in which they were written.
  pub slot_order :
      {s : System T}
      → AreClients x86 k thread
      → Reach mpsc thread s
      → s.written ≡ left_over (s.mem.cell slot) ++ s.taken
  slot_order clients start = first_order
  slot_order clients (later {s} r (pick t mv)) =
      Move-order s.written s.taken mv (slot-IsDefined clients r t)
        (λ i e. (one_at_slot clients r t t i i e e).1) (slot_order clients r)
