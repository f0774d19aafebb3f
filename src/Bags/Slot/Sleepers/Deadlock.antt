-- ===== src/Bags/Slot/Sleepers/Deadlock.antt =====
-- The receiver and a sender of one slot of bags/src/slot.rs never wait for each other.
use lockness.Prelude.{
  ℕ, ◌<◌, ◌≡◌, ◌≢◌, refl, sym, ap, ◌∙◌, subst, Bool, true, false, ◌==◌, arith, inl, inr, ◌⊎◌,
}
use lockness.Machine.Program.{
  Loc, Prog, ret, rmw, write, read, wait, wake, abort, undefined, out_of_fuel,
}
use lockness.Machine.Futex.{World, waits_on, IsAsleepOn}
use lockness.Machine.Futex
use lockness.Machine.Futex.Duty.{must_wake, Meets}
use lockness.Machine.Futex.Changed.{IsActing, Looks}
use lockness.Machine.Futex.Refines.{Reach-Reach}
use lockness.Bags.Slot.Status.{reservations, recv_sleeping}
use lockness.Bags.Slot.Status.Flags.{recv_word, reservations-send_word}
use lockness.Bags.Slot.Handles.{mpsc}
use lockness.Bags.Slot.Protocol.{SendHold, RecvHold, Held, Obeys}
use lockness.Bags.Slot.System.Clients.{HoldsNothing}
use lockness.Bags.Slot.System.Owners.{
  Owner, free, ready, taken, filling_by, filled_by, view, sender_view, is_free, is_ready, is_closed,
  agrees,
}
use lockness.Bags.Slot.System.Invariant.{AreClients}
use lockness.Bags.Slot.System.Invariant
use lockness.Bags.Slot.Sleepers.{IsWord, flag, alarm, looked}
use lockness.Bags.Slot.Sleepers.Seen.{slot_sleeping_sender, slot_sleeping_receiver}

-- A thread that has an access or a wake ahead, that aborts the process, or that the fuel of the
-- model has left.
abbrev pub goes_on : {T : Type 0} → Prog T (Unit {0}) → Bool
goes_on (ret a) = false
goes_on (wait l e k) = false
goes_on undefined = false
goes_on p = true

module _ {T : Type 0} (x86 : Bool) where
  module _ (l : Loc) where
    wakes-goes_on :
        (p : Prog T (Unit {0}))
        → Meets l (IsWord x86) (flag x86 l) (alarm x86 l) (looked x86 l) must_wake p
        → goes_on p ≡ true
    wakes-goes_on (wake m n k) o = refl
    wakes-goes_on (rmw m f k) o = refl
    wakes-goes_on (write i v k) o = refl
    wakes-goes_on (read i k) o = refl
    wakes-goes_on abort o = refl
    wakes-goes_on undefined o = absurd o
    wakes-goes_on out_of_fuel o = refl
    wakes-goes_on (ret a) o = absurd o
    wakes-goes_on (wait m e k) o = absurd o

    sees-goes_on :
        (p : Prog T (Unit {0}))
        → IsActing l (IsWord x86) (flag x86 l) (alarm x86 l) (looked x86 l) p
          ⊎ Looks l (IsWord x86) (flag x86 l) (alarm x86 l) (looked x86 l) p
        → goes_on p ≡ true
    sees-goes_on (ret a) (inl (inl o)) = absurd o
    sees-goes_on (ret a) (inl (inr o)) = absurd o
    sees-goes_on (ret a) (inr o) = absurd o
    sees-goes_on (wait m e k) (inl (inl o)) = absurd o
    sees-goes_on (wait m e k) (inl (inr o)) = absurd o
    sees-goes_on (wait m e k) (inr o) = absurd o
    sees-goes_on (wake m n k) o = refl
    sees-goes_on (rmw m f k) o = refl
    sees-goes_on (write i v k) o = refl
    sees-goes_on (read i k) o = refl
    sees-goes_on abort o = refl
    sees-goes_on undefined (inl (inl o)) = absurd o
    sees-goes_on undefined (inl (inr o)) = absurd o
    sees-goes_on undefined (inr o) = absurd o
    sees-goes_on out_of_fuel o = refl

  -- A thread that has reserved or filled the slot goes on.
  holds-goes_on :
      (p : Prog T (Unit {0})) (h : Held)
      → h.sender ≢ SendHold.nothing
      → Obeys x86 p h HoldsNothing
      → goes_on p ≡ true
  holds-goes_on (ret a) h ne o = absurd (ne o)
  holds-goes_on (wait Loc.send e k) h ne o = absurd (ne o.0)
  holds-goes_on (wait Loc.recv e k) h ne o = absurd (ne o.0.0)
  holds-goes_on (wait Loc.num_senders e k) h ne o = absurd (ne o.0)
  holds-goes_on (wait Loc.num_receivers e k) h ne o = absurd (ne o.0)
  holds-goes_on (wake m n k) h ne o = refl
  holds-goes_on (rmw m f k) h ne o = refl
  holds-goes_on (write i v k) h ne o = refl
  holds-goes_on (read i k) h ne o = refl
  holds-goes_on abort h ne o = refl
  holds-goes_on undefined h ne o = absurd o
  holds-goes_on out_of_fuel h ne o = refl

  -- The receiver sleeps with nothing of the slot.
  idle_asleep :
      (p : Prog T (Unit {0})) (h : Held)
      → waits_on Loc.recv p ≡ true
      → Obeys x86 p h HoldsNothing
      → h.receiver ≡ RecvHold.idle
  idle_asleep (wait Loc.recv e k) h on o = o.0.1
  idle_asleep (wait Loc.send e k) h on o = cc
  idle_asleep (wait Loc.num_senders e k) h on o = cc
  idle_asleep (wait Loc.num_receivers e k) h on o = cc
  idle_asleep (ret a) h on o = cc
  idle_asleep (wake m n k) h on o = cc
  idle_asleep (rmw m f k) h on o = cc
  idle_asleep (write i v k) h on o = cc
  idle_asleep (read i k) h on o = cc
  idle_asleep abort h on o = cc
  idle_asleep undefined h on o = cc
  idle_asleep out_of_fuel h on o = cc

  module _ (thread : ℕ → Prog T (Unit {0})) where
    -- If the slot is neither free nor with the receiver, a thread has it.
    holder :
        (o : Owner) (r : RecvHold)
        → ((t : ℕ) → sender_view t o ≢ SendHold.nothing → goes_on (thread t) ≡ true)
        → is_free o ≡ false
        → is_ready o ≡ false
        → r ≡ RecvHold.idle
        → agrees o r ≡ true
        → (t : ℕ) × (goes_on (thread t) ≡ true)
    holder free r h f y e a = cc
    holder ready r h f y e a = cc
    holder taken r h f y e a =
        let bad : agrees taken RecvHold.idle ≡ true = subst (λ x. agrees taken x ≡ true) e a in cc
    holder (filling_by t) r h f y e a = (t, h t (λ x. ground arith))
    holder (filled_by t) r h f y e a = (t, h t (λ x. ground arith))

not_zero : (c : ℕ) → 0 < c → (c == 0) ≡ false
not_zero c pos = ground arith

not_there : (t s d : Bool) (w : ℕ) → w ≡ recv_word t s d → w ≡ recv_sleeping → t ≡ false
not_there t s d w is e = ground arith

module _ {T : Type 0} {x86 : Bool} {k : ℕ} {thread : ℕ → Prog T (Unit {0})} {s : World T}
    (clients : AreClients x86 k thread) (r : Futex.Reach mpsc thread s) where
  -- However the calls of the receiver and of fewer than 2 ^ 60 senders interleave, and whichever
  -- sleepers a wake picks: while one thread sleeps in `recv` and another in `send`, some thread goes on:
  -- it has an access or a wake ahead, aborts the process, or is out of the fuel of the model.
  pub no_deadlock :
      (u v : ℕ)
      → IsAsleepOn s Loc.recv u
      → IsAsleepOn s Loc.send v
      → (t : ℕ) × (goes_on (s.state.thread t) ≡ true)
  no_deadlock u v on_recv on_send =
      let (first, which) = slot_sleeping_receiver clients r u on_recv in
      elim which [
        | inr (t, wakes) ↦ (t, wakes-goes_on x86 Loc.recv (s.state.thread t) wakes)
        | inl silent ↦ elim (slot_sleeping_sender clients r v on_send) [
          | inr (t, sees) ↦ (t, sees-goes_on x86 Loc.send (s.state.thread t) sees)
          | inl (_, some_reserved) ↦
              let inv = Invariant.Reach-Inv x86 k clients.few clients (Reach-Reach r) in
              let idle : inv.state.receiver ≡ RecvHold.idle =
                idle_asleep x86 (s.state.thread 0) (view 0 inv.state)
                  (subst (λ x. waits_on Loc.recv (s.state.thread x) ≡ true) first on_recv.1)
                  (inv.obeys 0) in
              let there : inv.shown.there ≡ false =
                not_there inv.shown.there inv.shown.receiver_asleep inv.shown.sender_dead _
                  inv.shown.recv_is silent in
              let alive : inv.shown.dead ≡ false = inv.shown.matches.is_dead ∙ ap is_closed idle in
              let count : 0 < inv.shown.count =
                subst (λ x. 0 < x)
                  (ap (reservations x86) inv.shown.send_is
                    ∙ reservations-send_word x86 inv.shown.dead inv.shown.asleep inv.shown.count
                        inv.shown.fits)
                  some_reserved in
              holder x86 s.state.thread inv.state.owner inv.state.receiver
                (λ t ne. holds-goes_on x86 (s.state.thread t) (view t inv.state) ne (inv.obeys t))
                (sym (inv.shown.matches.is_count alive) ∙ not_zero inv.shown.count count)
                (sym inv.shown.matches.is_there ∙ there) idle inv.shown.matches.consistent
        ]
      ]
