-- ===== src/Bags/Mpmc/Sleepers/Receiving.antt =====
-- What `try_recv` and the clones and drops of bags/src/mpmc.rs owe to sleepers.
use lockness.Prelude.{
  ℕ, ◌<◌, ◌/◌, bit_and, bit_or, ◌≡◌, refl, sym, subst, Bool, true, false, ◌&&◌, ◌==◌, ltb, arith,
  inl, inr, Bool-cases, List, [], length,
}
use lockness.Word.Bits.{complement}
use lockness.Machine.Program.{Loc, Prog, ret, rmw, same_loc, ◌>>=◌, ◌>>◌}
use lockness.Machine.Access.{wake_if}
use lockness.Machine.Futex.Duty.{Duty, at_ease, partner, Meets}
use lockness.Machine.Futex.Duties.{AtEase, IsReady, next_duty-silent}
use lockness.Machine.Futex.Rules.{silent-Alert, cleared_wake-Alert, Alert_then}
use lockness.Bags.Mpmc.Status.{n, all, contains, sleeping, counterparty_dead, u32_max}
use lockness.Bags.Mpmc.Drain.{drain_mask}
use lockness.Bags.Mpmc.Receiver.{
  TryRecv, received, collect, release, take_claimed, after_claim, try_recv,
}
use lockness.Bags.Mpmc.Handles.{clone_sender, clone_receiver, drop_sender, drop_receiver}
use lockness.Bags.Mpmc.Sleepers.{IsWord, flag, alarm, looked}
use lockness.Bags.Mpmc.Sleepers.Words.{
  or-flag-send, released-flag-send, claim-flag-recv, claim-alarm-recv, zero-flag-send, alarm-recv,
  dead-flag-recv, dead-alarm-recv,
}
use lockness.Bags.Mpmc.Sleepers.Sending.{Does, drain_mask-Alert}

module _ (l : Loc) (T : Type 0) where
  collect-Alert : (i : ℕ) (values : List T) → Does l (collect i values) at_ease AtEase
  unfolding collect
  collect-Alert i values = (
    tt,
    λ v. elim (Bool-cases (ltb (length values) n)) [
      | inl room ↦ rw room refl
      | inr full ↦ rw full tt
    ],
  )

  -- A release clears the flag, and wakes where it was set.
  release-Alert :
      (x86 : Bool) (claimed : ℕ) (r : TryRecv T)
      → Does l {T = T}
          (release x86 claimed >>= λ prev. wake_if (contains prev sleeping) Loc.send 1 >> ret r)
          at_ease
          AtEase
  unfolding release ◌>>=◌
  release-Alert x86 claimed r =
      let mask : ℕ = bit_and (complement 32 claimed) (complement 32 all) in
      elim (Bool-cases (x86 && mask == 0)) [
        | inl whole ↦
            let e : mask ≡ 0 = ground arith in
            rw whole (
              cleared_wake-Alert l IsWord flag alarm looked partner (flag Loc.send) Loc.send
                (λ _. mask) 1 (λ _. ret r) AtEase (omega arith) (λ w _ h. h)
                (λ w _. rw e zero-flag-send) (λ w _. refl) (λ w _. refl))
        | inr part ↦ rw part (
            cleared_wake-Alert l IsWord flag alarm looked partner (flag Loc.send) Loc.send
              (λ w. bit_and w mask) 1 (λ _. ret r) AtEase (omega arith) (λ w _ h. h)
              (λ w fits. released-flag-send w fits (complement 32 claimed)) (λ w _. refl)
              (λ w _. refl))
      ]

  take_claimed-Alert :
      (x86 : Bool) (claimed : ℕ) → Does l (take_claimed {T = T} x86 claimed) at_ease AtEase
  unfolding take_claimed
  take_claimed-Alert x86 claimed =
      Alert_then l IsWord flag alarm looked partner (drain_mask n collect claimed []) _ at_ease
        AtEase (drain_mask-Alert l collect collect-Alert claimed [])
        (λ values. release-Alert x86 claimed (received values))

  after_claim-Alert : (x86 : Bool) (prev : ℕ) → Does l (after_claim {T = T} x86 prev) at_ease AtEase
  unfolding after_claim
  after_claim-Alert x86 prev =
      let claimed : ℕ = bit_and prev (complement 32 all) in
      elim (Bool-cases (claimed == 0)) [
        | inl nothing_there ↦
            rw nothing_there (elim (Bool-cases (contains (complement 32 prev) counterparty_dead)) [
              | inl gone ↦ rw gone refl
              | inr alive ↦ rw alive refl
            ])
        | inr some_there ↦ rw some_there (take_claimed-Alert x86 claimed)
      ]

  Meets-claim :
      (d : Duty) (k : ℕ → Prog T (TryRecv T))
      → IsReady l IsWord flag alarm looked partner Loc.recv d
      → Meets l IsWord (flag l) (alarm l) (looked l) d (rmw Loc.recv (λ w. bit_and w all) k)
  Meets-claim d k (inl ease) = rw ease tt
  Meets-claim d k (inr (look, (w, _, rings))) =
      let at : l ≡ Loc.recv = alarm-recv l w rings in
      rw look (
        subst (λ x. same_loc Loc.recv x ≡ true) (sym at) refl,
        λ w fits. subst (λ x. bit_and w all ≡ looked x w) (sym at) refl,
      )

  -- The claim at the start of `try_recv` is what a receiver owes that is to look.
  pub try_recv-Alert :
      (x86 : Bool) (d : Duty)
      → IsReady l IsWord flag alarm looked partner Loc.recv d
      → Does l (try_recv {T = T} x86) d AtEase
  unfolding try_recv
  try_recv-Alert x86 d ready = (
    Meets-claim d _ ready,
    λ w fits.
        subst (λ d. Does l (after_claim {T = T} x86 w) d AtEase)
          (sym (
            next_duty-silent l IsWord flag alarm looked partner Loc.recv (λ w. bit_and w all) w
              (claim-flag-recv w fits) (λ h. let silent = claim-alarm-recv w fits in cc)))
          (after_claim-Alert x86 w),
  )

  pub clone_sender-Alert :
      Does l (clone_sender {T = T}) at_ease (λ bias d. (bias < n) × (d ≡ at_ease))
  unfolding clone_sender
  clone_sender-Alert =
      silent-Alert l IsWord flag alarm looked partner Loc.num_senders _ _
        (λ bias d. (bias < n) × (d ≡ at_ease)) (λ w fits h. h) (λ w fits h. h)
        (λ w fits. elim (Bool-cases (ltb (u32_max / 2) w)) [
          | inl many ↦ rw many tt
          | inr few ↦ rw few (omega arith, refl)
        ])

  pub clone_receiver-Alert : Does l (clone_receiver {T = T}) at_ease AtEase
  unfolding clone_receiver
  clone_receiver-Alert =
      silent-Alert l IsWord flag alarm looked partner Loc.num_receivers _ _ AtEase (λ w fits h. h)
        (λ w fits h. h)
        (λ w fits. elim (Bool-cases (ltb (u32_max / 2) w)) [
          | inl many ↦ rw many tt
          | inr few ↦ rw few refl
        ])

  wake-Alert : (b : Bool) (m : Loc) (k : ℕ) → Does l (wake_if {T = T} b m k) at_ease AtEase
  wake-Alert true m k = (tt, refl)
  wake-Alert false m k = refl

  pub drop_sender-Alert : Does l (drop_sender {T = T}) at_ease AtEase
  unfolding drop_sender
  drop_sender-Alert =
      silent-Alert l IsWord flag alarm looked partner Loc.num_senders _ _ AtEase (λ w fits h. h)
        (λ w fits h. h)
        (λ w fits. elim (Bool-cases (ltb 1 w)) [
          | inl more ↦ rw more refl
          | inr last ↦ rw last (
              silent-Alert l IsWord flag alarm looked partner Loc.recv
                (λ w. bit_and w (complement 32 counterparty_dead)) _ AtEase
                (λ w fits h. rw (dead-flag-recv w fits) h)
                (λ w fits h. rw (dead-alarm-recv w fits) at h)
                (λ old fits. wake-Alert (contains (complement 32 old) sleeping) Loc.recv u32_max))
        ])

  pub drop_receiver-Alert : Does l (drop_receiver {T = T}) at_ease AtEase
  unfolding drop_receiver
  drop_receiver-Alert =
      silent-Alert l IsWord flag alarm looked partner Loc.num_receivers _ _ AtEase (λ w fits h. h)
        (λ w fits h. h)
        (λ w fits. elim (Bool-cases (ltb 1 w)) [
          | inl more ↦ rw more refl
          | inr last ↦ rw last (
              silent-Alert l IsWord flag alarm looked partner Loc.send
                (λ w. bit_or w counterparty_dead) _ AtEase
                (λ w fits h. or-flag-send w fits counterparty_dead (omega arith) h) (λ w fits h. h)
                (λ old fits. wake-Alert (contains old sleeping) Loc.send u32_max))
        ])
