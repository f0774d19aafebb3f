-- ===== src/Bags/Slot/Sleepers/Blocking.antt =====
-- What `send` of bags/src/slot.rs owes to the other sleepers.
use lockness.Prelude.{
  ℕ, zero, suc, ◌/◌, ◌^◌, bit_or, ◌≡◌, refl, sym, subst, Bool, true, false, ◌==◌, arith, inl, inr,
  ◌⊎◌, Bool-cases, ==_iff,
}
use lockness.Machine.Program.{Loc, Prog, same_loc, out_of_fuel, ◌>>=◌, ◌>>◌}
use lockness.Machine.Futex.Duty.{Duty, at_ease, must_look, Part, partner, Alert->>=}
use lockness.Machine.Futex.Duties.{AtEase, next_duty-ready}
use lockness.Machine.Futex.Rules.{silent-Alert, sleep_mark-Alert, Alert_then}
use lockness.Bags.Mpmc.Status.{contains}
use lockness.Bags.Slot.Status.{receiver_dead, send_sleeping, reservations}
use lockness.Bags.Slot.Sender.{
  TrySend, Send, Spin, retry, gone, sleep_on, try_send, check_send, spin_send, after_spin_send,
  after_try_send, send,
}
use lockness.Bags.Slot.Sleepers.{IsWord, flag, alarm, looked}
use lockness.Bags.Slot.Sleepers.Words.{marked-flag, marked-IsWord, high_half-flag}
use lockness.Bags.Slot.Sleepers.Sending.{Does, IsLooking, try_send-Alert}

module _ (x86 : Bool) (l : Loc) (part : Part) where
  -- A spin loop ends in a sleep only if it has seen the flag, and leaves a duty to look only where it
  -- goes on to.
  abbrev SpinEnds : Spin → Duty → Type 0
  SpinEnds retry d = IsLooking x86 l part d
  SpinEnds gone d = d ≡ at_ease
  SpinEnds (sleep_on e) d = (d ≡ at_ease) × (flag x86 Loc.send e ≡ true) × IsWord x86 Loc.send e

module _ (T : Type 0) (x86 : Bool) (l : Loc) (part : Part) where
  check_send-Alert :
      (w : ℕ) (next : Prog T Spin) (d : Duty)
      → IsWord x86 Loc.send w
      → (d ≡ at_ease) ⊎ (d ≡ must_look) × (alarm x86 Loc.send w ≡ true) × (alarm x86 l w ≡ true)
      → (flag x86 Loc.send w ≡ false → Does x86 l part next at_ease (SpinEnds x86 l part))
      → Does x86 l part (check_send x86 w next) d (SpinEnds x86 l part)
  unfolding check_send
  check_send-Alert w next d valid which o = elim (Bool-cases (reservations x86 w == 0)) [
    | inl free ↦ rw free (elim which [
      | inl ease ↦ inl ease
      | inr (look, here, rings) ↦ inr (look, (w, here, rings))
    ])
    | inr taken ↦
        let ease : d ≡ at_ease = elim which [
          | inl ease ↦ ease
          | inr (look, rings, _) ↦ ground arith
        ] in
        rw (taken, ease)
          (elim (Bool-cases (contains w (receiver_dead x86))) [
            | inl dead ↦ rw dead refl
            | inr alive ↦ rw alive (elim (Bool-cases (contains w (send_sleeping x86))) [
              | inl set ↦ rw set (refl, set, valid)
              | inr clear ↦ rw clear (o clear)
            ])
          ])
  ]

  spin_send-Alert :
      (spin : ℕ) → Does x86 l part (spin_send {T = T} x86 spin) at_ease (SpinEnds x86 l part)
  unfolding spin_send
  spin_send-Alert zero = (
    tt,
    λ w valid.
        check_send-Alert (bit_or w (send_sleeping x86)) out_of_fuel _ (marked-IsWord x86 w valid)
          (next_duty-ready l (IsWord x86) (flag x86) (alarm x86) (looked x86) part Loc.send
            (λ w. bit_or w (send_sleeping x86)) w (λ _. marked-flag x86 w valid))
          (λ clear. let set = marked-flag x86 w valid in cc),
  )
  spin_send-Alert (suc spin) =
      silent-Alert l (IsWord x86) (flag x86) (alarm x86) (looked x86) part Loc.send (λ w. w) _
        (SpinEnds x86 l part) (λ w valid h. h) (λ w valid h. h)
        (λ w valid.
          check_send-Alert w (spin_send x86 spin) at_ease valid (inl refl)
            (λ _. spin_send-Alert spin))

module _ (T : Type 0) where
  after_spin_send-Alert :
      (x86 : Bool) (l : Loc) (part : Part) (v : T) (again : Prog T (Send T)) (s : Spin) (d : Duty)
      → (same_loc Loc.send l ≡ true → part ≡ partner)
      → ((d : Duty) → IsLooking x86 l part d → Does x86 l part again d AtEase)
      → SpinEnds x86 l part s d
      → Does x86 l part (after_spin_send x86 v again s) d AtEase
  unfolding after_spin_send ◌>>=◌ ◌>>◌
  after_spin_send-Alert x86 l part v again retry d alike o q = o d q
  after_spin_send-Alert x86 l part v again gone d alike o q = q
  after_spin_send-Alert true l part v again (sleep_on e) d alike o q = rw q.0 (
      sleep_mark-Alert l (IsWord true) (flag true) (alarm true) (looked true) part Loc.send
        (λ w. w / 2 ^ 32 == e / 2 ^ 32) (λ w. bit_or w (send_sleeping true)) again AtEase alike
        (λ w valid is. high_half-flag w e valid q.2 ((==_iff _ _).0 is) q.1)
        (λ w valid. marked-flag true w valid) o)
  after_spin_send-Alert false l part v again (sleep_on e) d alike o q = rw q.0 (
      sleep_mark-Alert l (IsWord false) (flag false) (alarm false) (looked false) part Loc.send
        (λ w. w == e) (λ w. bit_or w (send_sleeping false)) again AtEase alike
        (λ w valid is. subst (λ x. flag false Loc.send x ≡ true) (sym ((==_iff w e).0 is)) q.1)
        (λ w valid. marked-flag false w valid) o)

  module _ (x86 : Bool) (l : Loc) (part : Part)
      (alike : same_loc Loc.send l ≡ true → part ≡ partner) where
    after_try_send-Alert :
        (again : T → Prog T (Send T)) (r : TrySend T)
        → ((v : T) (d : Duty) → IsLooking x86 l part d → Does x86 l part (again v) d AtEase)
        → Does x86 l part (after_try_send x86 again r) at_ease AtEase
    unfolding after_try_send
    after_try_send-Alert again TrySend.sent o = refl
    after_try_send-Alert again (TrySend.disconnected v) o = refl
    after_try_send-Alert again (TrySend.full v) o =
        Alert->>= l (IsWord x86) (flag x86 l) (alarm x86 l) (looked x86 l) part (spin_send x86 32)
          (after_spin_send x86 v (again v)) at_ease (SpinEnds x86 l part) AtEase
          (spin_send-Alert T x86 l part 32)
          (λ s d q. after_spin_send-Alert x86 l part v (again v) s d alike (o v) q)

    pub send-Alert :
        (fuel : ℕ) (v : T) (d : Duty)
        → IsLooking x86 l part d
        → Does x86 l part (send fuel x86 v) d AtEase
    unfolding send
    send-Alert zero v d (inl ease) = rw ease tt
    send-Alert zero v d (inr look) = rw look.0 tt
    send-Alert (suc fuel) v d ready =
        Alert_then l (IsWord x86) (flag x86) (alarm x86) (looked x86) part (try_send x86 v) _ d
          AtEase (try_send-Alert T x86 l part v d ready)
          (λ r. after_try_send-Alert (λ w. send fuel x86 w) r (send-Alert fuel))
