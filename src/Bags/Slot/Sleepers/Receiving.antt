-- ===== src/Bags/Slot/Sleepers/Receiving.antt =====
-- What `try_recv`, `recv` and the clones and drops of bags/src/slot.rs owe to sleepers.
use lockness.Prelude.{
  ℕ, zero, suc, ◌+◌, ◌/◌, ◌<◌, bit_and, ◌≡◌, refl, Bool, true, false, not, ◌==◌, ltb, arith, inl,
  inr, Bool-cases,
}
use lockness.Machine.Program.{Loc, Prog, ret, read, same_loc, ◌>>=◌, ◌>>◌}
use lockness.Machine.Access.{swap, wake_if}
use lockness.Machine.Futex.Duty.{Duty, at_ease, Part, owner}
use lockness.Machine.Futex.Duties.{AtEase, IsDue}
use lockness.Machine.Futex.Rules.{
  silent-Alert, cleared-Alert, cleared_wake-Alert, owner-Alert, owner_wait-Alert, Alert_then,
}
use lockness.Bags.Mpmc.Status.{contains, u32_max}
use lockness.Bags.Slot.Status.{
  receiver_dead, send_sleeping, committed, recv_sleeping, sender_dead, slot,
}
use lockness.Bags.Slot.Receiver.{
  TryRecv, Recv, take_message, after_load, try_recv, pause, after_try_recv, recv,
}
use lockness.Bags.Slot.Handles.{clone_sender, drop_sender, drop_receiver}
use lockness.Bags.Slot.Sleepers.{IsWord, flag, alarm, looked}
use lockness.Bags.Slot.Sleepers.Words.{
  empty-flag, dead-flag, clear-alarm, asleep-contains, dropped-flag,
}
use lockness.Bags.Slot.Sleepers.Sending.{Does}

module _ (T : Type 0) (x86 : Bool) (l : Loc) (part : Part) where
  -- The wake at the end of a drop.
  wake_due :
      (b : Bool) (m : Loc) (n w : ℕ) (d : Duty)
      → 0 < n
      → (flag x86 m w ≡ true → b ≡ true)
      → IsDue l (IsWord x86) (flag x86) (alarm x86) (looked x86) part m w d
      → Does x86 l part (wake_if {T = T} b m n) d AtEase
  wake_due true m n w d pos h (inl ease) = rw ease (tt, refl)
  wake_due false m n w d pos h (inl ease) = rw ease refl
  wake_due true m n w d pos h (inr (due, set, same)) = rw due ((same, pos), refl)
  wake_due false m n w d pos h (inr (due, set, same)) = let wakes = h set in cc

  pub clone_sender-Alert : Does x86 l part (clone_sender {T = T}) at_ease AtEase
  unfolding clone_sender
  clone_sender-Alert =
      silent-Alert l (IsWord x86) (flag x86) (alarm x86) (looked x86) part Loc.num_senders _ _
        AtEase (λ w valid h. h) (λ w valid h. h)
        (λ w valid. elim (Bool-cases (ltb (u32_max / 2) w)) [
          | inl many ↦ rw many tt
          | inr few ↦ rw few refl
        ])

  -- The drop of the last sender clears what the receiver sleeps on, and wakes it.
  pub drop_sender-Alert : Does x86 l part (drop_sender {T = T}) at_ease AtEase
  unfolding drop_sender
  drop_sender-Alert =
      silent-Alert l (IsWord x86) (flag x86) (alarm x86) (looked x86) part Loc.num_senders _ _
        AtEase (λ w valid h. h) (λ w valid h. h)
        (λ w valid. elim (Bool-cases (ltb 1 w)) [
          | inl more ↦ rw more refl
          | inr last ↦ rw last (
              cleared-Alert l (IsWord x86) (flag x86) (alarm x86) (looked x86) part Loc.recv _ _
                AtEase (λ w valid. dropped-flag x86 w valid) (λ w valid. refl)
                (λ old d valid due.
                  wake_due (contains old recv_sleeping) Loc.recv u32_max old d (omega arith)
                    (asleep-contains x86 old) due))
        ])

  -- The drop of the receiver clears the flag of the senders, and wakes all of them.
  pub drop_receiver-Alert : Does x86 l part (drop_receiver {T = T} x86) at_ease AtEase
  unfolding drop_receiver
  drop_receiver-Alert =
      cleared-Alert l (IsWord x86) (flag x86) (alarm x86) (looked x86) part Loc.send _ _ AtEase
        (λ w valid. dead-flag x86) (λ w valid. clear-alarm x86 (receiver_dead x86) (dead-flag x86))
        (λ prev d valid due.
          wake_due (contains prev (send_sleeping x86)) Loc.send u32_max prev d (omega arith)
            (λ h. h) due)

  module _ (own : same_loc Loc.recv l ≡ true → part ≡ owner) where
    give_back-Alert :
        (v : T)
        → Does x86 l part {T = T}
            (swap Loc.send 0 >>= λ prev.
              wake_if (contains prev (send_sleeping x86)) Loc.send 1 >> ret (TryRecv.received v))
            at_ease
            AtEase
    unfolding ◌>>=◌
    give_back-Alert v =
        cleared_wake-Alert l (IsWord x86) (flag x86) (alarm x86) (looked x86) part
          (λ prev. contains prev (send_sleeping x86)) Loc.send (λ _. 0) 1
          (λ _. ret (TryRecv.received v)) AtEase (omega arith) (λ w valid h. h)
          (λ w valid. empty-flag x86) (λ w valid. clear-alarm x86 0 (empty-flag x86))
          (λ w valid. refl)

    take_message-Alert : Does x86 l part (take_message {T = T} x86) at_ease AtEase
    unfolding take_message ◌>>=◌
    take_message-Alert =
        let rest : ℕ → Prog T (TryRecv T) = λ _. read slot λ v. swap Loc.send 0 >>= λ prev.
        wake_if (contains prev (send_sleeping x86)) Loc.send 1 >> ret (TryRecv.received v) in
        owner-Alert l (IsWord x86) (flag x86) (alarm x86) (looked x86) part Loc.recv
          (λ w. bit_and w sender_dead) rest AtEase own (λ w valid. (tt, give_back-Alert))

    after_load-Alert : (w : ℕ) → Does x86 l part (after_load {T = T} x86 w) at_ease AtEase
    unfolding after_load
    after_load-Alert w = elim (Bool-cases (not (contains w committed))) [
      | inl nothing ↦ rw nothing (elim (Bool-cases (contains w sender_dead)) [
        | inl gone ↦ rw gone refl
        | inr alive ↦ rw alive refl
      ])
      | inr something ↦ rw something take_message-Alert
    ]

    pub try_recv-Alert : Does x86 l part (try_recv {T = T} x86) at_ease AtEase
    unfolding try_recv
    try_recv-Alert =
        silent-Alert l (IsWord x86) (flag x86) (alarm x86) (looked x86) part Loc.recv (λ w. w) _
          AtEase (λ w valid h. h) (λ w valid h. h) (λ w valid. after_load-Alert w)

    pause-Alert :
        (again : ℕ → Prog T (Recv T)) (i : ℕ)
        → ((j : ℕ) → Does x86 l part (again j) at_ease AtEase)
        → Does x86 l part (pause again i) at_ease AtEase
    unfolding pause ◌>>=◌ ◌>>◌
    pause-Alert again i o = elim (Bool-cases (ltb i 32)) [
      | inl on ↦ rw on (o (i + 1))
      | inr off ↦ rw off (
          owner-Alert l (IsWord x86) (flag x86) (alarm x86) (looked x86) part Loc.recv _ _ AtEase
            own
            (λ w valid. elim (Bool-cases (not (w == 0))) [
              | inl something ↦ rw something (o 0)
              | inr nothing ↦ rw nothing (
                  owner_wait-Alert l (IsWord x86) (flag x86) (alarm x86) (looked x86) part Loc.recv
                    (λ w. w == recv_sleeping) (again 0) AtEase own (λ w is. is) (o 0))
            ]))
    ]

    after_try_recv-Alert :
        (again : ℕ → Prog T (Recv T)) (i : ℕ) (r : TryRecv T)
        → ((j : ℕ) → Does x86 l part (again j) at_ease AtEase)
        → Does x86 l part (after_try_recv again i r) at_ease AtEase
    unfolding after_try_recv
    after_try_recv-Alert again i (TryRecv.received v) o = refl
    after_try_recv-Alert again i TryRecv.disconnected o = refl
    after_try_recv-Alert again i TryRecv.empty o = pause-Alert again i o

    pub recv-Alert : (fuel i : ℕ) → Does x86 l part (recv {T = T} fuel x86 i) at_ease AtEase
    unfolding recv
    recv-Alert zero i = tt
    recv-Alert (suc fuel) i =
        Alert_then l (IsWord x86) (flag x86) (alarm x86) (looked x86) part (try_recv x86) _ at_ease
          AtEase try_recv-Alert
          (λ r. after_try_recv-Alert (λ j. recv fuel x86 j) i r (recv-Alert fuel))
