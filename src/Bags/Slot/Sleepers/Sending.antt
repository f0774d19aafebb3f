-- ===== src/Bags/Slot/Sleepers/Sending.antt =====
-- What `try_send` of bags/src/slot.rs owes to sleepers.
use lockness.Prelude.{
  ℕ, ◌≡◌, refl, sym, subst, Bool, true, false, ◌&&◌, ltb, arith, inl, inr, Bool-cases,
}
use lockness.Machine.Program.{Loc, Prog, ret, rmw, same_loc, ◌>>=◌}
use lockness.Machine.Futex.Duty.{Duty, at_ease, Part, Meets, Alert}
use lockness.Machine.Futex.Duties.{AtEase, IsReady, next_duty-silent}
use lockness.Machine.Futex.Rules.{cleared_wake-Alert}
use lockness.Bags.Mpmc.Status.{contains}
use lockness.Bags.Slot.Status.{receiver_dead, abort_limit, reservations, committed, recv_sleeping}
use lockness.Bags.Slot.Status.Flags.{reserved}
use lockness.Bags.Slot.Sender.{TrySend, reserve, fill, after_reserve, try_send}
use lockness.Bags.Slot.Sleepers.{IsWord, flag, alarm, looked}
use lockness.Bags.Slot.Sleepers.Words.{reserved-flag, reserved-alarm, asleep-contains}

module _ (x86 : Bool) (l : Loc) (part : Part) where
  abbrev pub Does : {T A : Type 0} → Prog T A → Duty → (A → Duty → Type 0) → Type 0
  Does p d Q = Alert l (IsWord x86) (flag x86 l) (alarm x86 l) (looked x86 l) part p d Q

  abbrev pub IsLooking : Duty → Type 0
  IsLooking d = IsReady l (IsWord x86) (flag x86) (alarm x86) (looked x86) part Loc.send d

module _ (T : Type 0) (x86 : Bool) (l : Loc) (part : Part) where
  fill-Alert : (v : T) → Does x86 l part (fill v) at_ease AtEase
  unfolding fill
  fill-Alert v = (
    tt,
    cleared_wake-Alert l (IsWord x86) (flag x86) (alarm x86) (looked x86) part
        (λ w. contains w recv_sleeping) Loc.recv (λ _. committed) 1 (λ _. ret TrySend.sent) AtEase
        (omega arith) (λ w valid h. asleep-contains x86 w h) (λ w valid. refl) (λ w valid. refl)
        (λ w valid. refl),
  )

  after_reserve-Alert :
      (v : T) (prev : ℕ) → Does x86 l part (after_reserve x86 v prev) at_ease AtEase
  unfolding after_reserve
  after_reserve-Alert v prev = elim (Bool-cases (x86 && ltb abort_limit (reservations x86 prev))) [
    | inl many ↦ rw many tt
    | inr few ↦ rw few (elim (Bool-cases (contains prev (receiver_dead x86))) [
      | inl dead ↦ rw dead refl
      | inr alive ↦ rw alive (elim (Bool-cases (ltb 0 (reservations x86 prev))) [
        | inl taken ↦ rw taken refl
        | inr free ↦ rw free (fill-Alert v)
      ])
    ])
  ]

  alarm-send : (w : ℕ) → alarm x86 l w ≡ true → l ≡ Loc.send
  alarm-send w h = ground arith

  -- A reservation is what a sender owes that is to look.
  reserved-Alert :
      (v : T) (d : Duty)
      → IsLooking x86 l part d
      → Does x86 l part (rmw Loc.send (λ w. reserved x86 w) (after_reserve x86 v)) d AtEase
  reserved-Alert v d ready = (
    Meets-reserve d ready,
    λ w valid.
        subst (λ d. Does x86 l part (after_reserve x86 v w) d AtEase)
          (sym (
            next_duty-silent l (IsWord x86) (flag x86) (alarm x86) (looked x86) part Loc.send
              (λ w. reserved x86 w) w (reserved-flag x86 w valid)
              (λ h. let silent = reserved-alarm x86 w valid in cc)))
          (after_reserve-Alert v w),
  )
    where
      Meets-reserve :
          (d : Duty)
          → IsLooking x86 l part d
          → Meets l
              (IsWord x86)
              (flag x86 l)
              (alarm x86 l)
              (looked x86 l)
              d
              (rmw Loc.send (λ w. reserved x86 w) (after_reserve x86 v))
      Meets-reserve d (inl ease) = rw ease tt
      Meets-reserve d (inr (look, (w, _, rings))) =
          let at : l ≡ Loc.send = alarm-send w rings in
          rw look (
            subst (λ x. same_loc Loc.send x ≡ true) (sym at) refl,
            λ w valid. subst (λ x. reserved x86 w ≡ looked x86 x w) (sym at) refl,
          )

module _ (T : Type 0) where
  pub try_send-Alert :
      (x86 : Bool) (l : Loc) (part : Part) (v : T) (d : Duty)
      → IsLooking x86 l part d
      → Does x86 l part (try_send x86 v) d AtEase
  unfolding try_send reserve ◌>>=◌
  try_send-Alert true l part v d ready = reserved-Alert T true l part v d ready
  try_send-Alert false l part v d ready = reserved-Alert T false l part v d ready
