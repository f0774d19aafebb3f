-- ===== src/Bags/Slot/Protocol/Waiting.antt =====
-- `send` of bags/src/slot.rs under the protocol.
use lockness.Prelude.{
  ℕ, zero, suc, refl, sym, subst, bit_or, Bool, true, false, ◌==◌, inl, inr, Bool-cases,
}
use lockness.Machine.Program.{Prog, out_of_fuel, ◌>>=◌, ◌>>◌}
use lockness.Bags.Mpmc.Status.{contains}
use lockness.Bags.Slot.Status.{receiver_dead, send_sleeping, reservations}
use lockness.Bags.Slot.Sender.{
  TrySend, Send, Spin, retry, gone, sleep_on, try_send, check_send, spin_send, after_spin_send,
  after_try_send, send,
}
use lockness.Bags.Slot.Protocol.{RecvHold, Obeys, Obeys->>=}
use lockness.Bags.Slot.Protocol.Sending.{at, Ends, or_send-Obeys, load_send-Obeys, try_send-Obeys}

module _ (T : Type 0) (r : RecvHold) where
  module _ (x86 : Bool) where
    check_send-Obeys :
        (w : ℕ) (next : Prog T Spin)
        → Obeys x86 next (at r) (Ends r)
        → Obeys x86 (check_send x86 w next) (at r) (Ends r)
    unfolding check_send
    check_send-Obeys w next o = elim (Bool-cases (reservations x86 w == 0)) [
      | inl free ↦ rw free refl
      | inr taken ↦ rw taken (elim (Bool-cases (contains w (receiver_dead x86))) [
        | inl dead ↦ rw dead refl
        | inr alive ↦ rw alive (elim (Bool-cases (contains w (send_sleeping x86))) [
          | inl set ↦ rw set refl
          | inr clear ↦ rw clear o
        ])
      ])
    ]

    spin_send-Obeys : (spin : ℕ) → Obeys x86 (spin_send {T = T} x86 spin) (at r) (Ends r)
    unfolding spin_send ◌>>=◌
    spin_send-Obeys zero =
        or_send-Obeys x86 (λ w. check_send x86 (bit_or w (send_sleeping x86)) out_of_fuel) (at r)
          (Ends r) (λ w. check_send-Obeys (bit_or w (send_sleeping x86)) out_of_fuel tt)
    spin_send-Obeys (suc spin) =
        load_send-Obeys x86 (λ w. check_send x86 w (spin_send x86 spin)) (at r) (Ends r)
          (λ w. check_send-Obeys w (spin_send x86 spin) (spin_send-Obeys spin))

  after_spin_send-Obeys :
      (x86 : Bool) (v : T) (again : Prog T (Send T)) (s : Spin)
      → Obeys x86 again (at r) (Ends r)
      → Obeys x86 (after_spin_send x86 v again s) (at r) (Ends r)
  unfolding after_spin_send ◌>>=◌ ◌>>◌
  after_spin_send-Obeys x86 v again retry o = o
  after_spin_send-Obeys x86 v again gone o = refl
  after_spin_send-Obeys true v again (sleep_on e) o =
      (refl, or_send-Obeys true (λ _. again) (at r) (Ends r) (λ w. o))
  after_spin_send-Obeys false v again (sleep_on e) o =
      (refl, or_send-Obeys false (λ _. again) (at r) (Ends r) (λ w. o))

  after_try_send-Obeys :
      (x86 : Bool) (again : T → Prog T (Send T)) (t : TrySend T)
      → ((v : T) → Obeys x86 (again v) (at r) (Ends r))
      → Obeys x86 (after_try_send x86 again t) (at r) (Ends r)
  unfolding after_try_send
  after_try_send-Obeys x86 again TrySend.sent o = refl
  after_try_send-Obeys x86 again (TrySend.disconnected v) o = refl
  after_try_send-Obeys x86 again (TrySend.full v) o =
      Obeys->>= x86 (spin_send x86 32) (after_spin_send x86 v (again v)) (at r) (Ends r) (Ends r)
        (spin_send-Obeys x86 32)
        (λ s h e.
          subst (λ h. Obeys x86 (after_spin_send x86 v (again v) s) h (Ends r)) (sym e)
            (after_spin_send-Obeys x86 v (again v) s (o v)))

  pub send-Obeys : (fuel : ℕ) (x86 : Bool) (v : T) → Obeys x86 (send fuel x86 v) (at r) (Ends r)
  unfolding send
  send-Obeys zero x86 v = tt
  send-Obeys (suc fuel) x86 v =
      Obeys->>= x86 (try_send x86 v) (after_try_send x86 (λ d. send fuel x86 d)) (at r) (Ends r)
        (Ends r) (try_send-Obeys T r x86 v)
        (λ t h e.
          subst (λ h. Obeys x86 (after_try_send x86 (λ d. send fuel x86 d) t) h (Ends r)) (sym e)
            (after_try_send-Obeys x86 (λ d. send fuel x86 d) t (λ d. send-Obeys fuel x86 d)))
