-- ===== src/Bags/Slot/System/Safety.antt =====
-- Accesses to the slot of bags/src/slot.rs, in the states that its clients reach.
use lockness.Prelude.{ℕ, Bool, ◌≡◌, ap, ◌∙◌, true, some, arith, inl, inr, ◌⊎◌}
use lockness.Machine.Program.{
  Prog, ret, rmw, write, read, wait, wake, abort, undefined, out_of_fuel, Shared,
}
use lockness.Machine.Threads.{System, Reach, access, IsDefined, some_of, none_of, is_some}
use lockness.Bags.Slot.Status.{slot}
use lockness.Bags.Slot.Protocol.{RecvHold, Obeys}
use lockness.Bags.Slot.Handles.{mpsc}
use lockness.Bags.Slot.System.Clients.{HoldsNothing}
use lockness.Bags.Slot.System.Owners.{
  State, taken, filling_by, view, agrees, has_value, receiver_thread, owner_filling, taken_of,
}
use lockness.Bags.Slot.System.Moves.{Shown}
use lockness.Bags.Slot.System.Invariant.{AreClients, Reach-Inv}

module _ {T : Type 0} (x86 : Bool) (t : ℕ) (s : State) where
  -- A thread that is about to access the slot fills it, or is the receiver and has it.
  access_owner :
      (p : Prog T (Unit {0})) (i : ℕ)
      → agrees s.owner s.receiver ≡ true
      → Obeys x86 p (view t s) HoldsNothing
      → access p ≡ some i
      → (i ≡ slot) × ((s.owner ≡ filling_by t) ⊎ ((s.owner ≡ taken) × (t ≡ 0)))
  access_owner (write j v k) i a o e = (ground (arith, o.0), inl (owner_filling t s.owner o.1))
  access_owner (read j k) i a o e =
      let known = receiver_thread t s.receiver RecvHold.full (λ p. cc) o.1 in
      (ground (arith, o.0), inr (taken_of s.owner s.receiver (inl known.1) a, known.0))
  access_owner (ret a) i _ o e = cc
  access_owner (rmw l f k) i _ o e = cc
  access_owner (wait l x k) i _ o e = cc
  access_owner (wake l x k) i _ o e = cc
  access_owner abort i _ o e = cc
  access_owner undefined i _ o e = cc
  access_owner out_of_fuel i _ o e = cc

  IsDefined-of :
      (m : Shared T) (p : Prog T (Unit {0}))
      → Shown x86 s m
      → Obeys x86 p (view t s) HoldsNothing
      → IsDefined m p
  IsDefined-of m (write i v k) shown o =
      let is : s.owner ≡ filling_by t = owner_filling t s.owner o.1 in
      none_of (m.cell i) (
        ap (λ i. is_some (m.cell i)) o.0
        ∙ shown.matches.is_value
        ∙ ap (λ w. has_value w s.receiver) is)
  IsDefined-of m (read i k) shown o =
      let known = receiver_thread t s.receiver RecvHold.full (λ p. cc) o.1 in
      let is : s.owner ≡ taken =
        taken_of s.owner s.receiver (inl known.1) shown.matches.consistent in
      some_of (m.cell i) (
        ap (λ i. is_some (m.cell i)) o.0
        ∙ shown.matches.is_value
        ∙ ap (λ w. has_value w s.receiver) is
        ∙ ap (λ r. has_value taken r) known.1)
  IsDefined-of m (ret a) shown o = tt
  IsDefined-of m (rmw l f k) shown o = tt
  IsDefined-of m (wait l x k) shown o = tt
  IsDefined-of m (wake l x k) shown o = tt
  IsDefined-of m abort shown o = tt
  IsDefined-of m undefined shown o = o
  IsDefined-of m out_of_fuel shown o = tt

module _ {T : Type 0} {x86 : Bool} {k : ℕ} {thread : ℕ → Prog T (Unit {0})} where
  -- However the calls of the receiver and of fewer than 2 ^ 60 senders interleave, no
  -- thread is about to read the empty slot, to overwrite a message, or to reach undefined behaviour.
  pub slot-IsDefined :
      {s : System T}
      → AreClients x86 k thread
      → Reach mpsc thread s
      → (t : ℕ) → IsDefined s.mem (s.thread t)
  slot-IsDefined {s} clients r t =
      let inv = Reach-Inv x86 k clients.few clients r in
      IsDefined-of x86 t inv.state s.mem (s.thread t) inv.shown (inv.obeys t)

  -- However the calls of the receiver and of fewer than 2 ^ 60 senders interleave, two
  -- threads are never about to access the slot, the only cell that is accessed.
  pub one_at_slot :
      {s : System T}
      → AreClients x86 k thread
      → Reach mpsc thread s
      → (t u i j : ℕ) → access (s.thread t) ≡ some i
      → access (s.thread u) ≡ some j
      → (t ≡ u) × (i ≡ slot)
  one_at_slot {s} clients r t u i j at_t at_u =
      let inv = Reach-Inv x86 k clients.few clients r in
      let a =
        access_owner x86 t inv.state (s.thread t) i inv.shown.matches.consistent (inv.obeys t)
          at_t in
      let b =
        access_owner x86 u inv.state (s.thread u) j inv.shown.matches.consistent (inv.obeys u)
          at_u in
      (ground arith, a.0)
