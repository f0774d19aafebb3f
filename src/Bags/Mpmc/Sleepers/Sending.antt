-- ===== src/Bags/Mpmc/Sleepers/Sending.antt =====
-- What `try_send` and `send` of bags/src/mpmc.rs owe to sleepers.
use lockness.Prelude.{
  ℕ, zero, suc, ◌^◌, ◌<◌, ◌%◌, bit_and, bit_or, ◌≡◌, refl, Bool, ◌&&◌, ◌==◌, ltb, leb, arith, inl,
  inr, Bool-cases, none, some, ◌∷◌, [],
}
use lockness.Word.Bits.{complement, complement-lt, bit_and-le}
use lockness.Word.LeadingZeros.{leading_zeros}
use lockness.Machine.Program.{Loc, Prog, ret, ◌>>=◌, ◌>>◌}
use lockness.Machine.Access.{wake_if}
use lockness.Machine.Futex.Duty.{Duty, at_ease, partner, Alert, Alert->>=}
use lockness.Machine.Futex.Duties.{AtEase}
use lockness.Machine.Futex.Rules.{silent-Alert, cleared_wake-Alert, Alert_then}
use lockness.Bags.Mpmc.Status.{n, all, contains, sleeping, counterparty_dead, u32_max}
use lockness.Bags.Mpmc.Masks.{clear_extra_bits, compute_request_mask}
use lockness.Bags.Mpmc.Masks.Trim.{clear_extra_bits-Trimmed}
use lockness.Bags.Mpmc.Masks.Window.{compute_request_mask-IsWindow}
use lockness.Bags.Mpmc.Drain.{clear_bit, drain_loop, drain_mask}
use lockness.Bags.Mpmc.Buffer.{Buffer, Container, take, remit, available_items}
use lockness.Bags.Mpmc.Sender.{
  Reservation, reserved, dead, no_room, TrySend, reserve, fill, give_back, commit, publish,
  after_reserve, try_send,
}
use lockness.Bags.Mpmc.Protocol.Reserve.{Trimmed-size}
use lockness.Bags.Mpmc.Sleepers.{IsWord, flag, alarm, looked}
use lockness.Bags.Mpmc.Sleepers.Words.{
  or-flag-send, commit-flag-recv, commit-alarm-recv, swapped-flag-recv,
}

-- A reservation never clears the flag.
abbrev Fits : Reservation → Duty → Type 0
Fits (reserved c) d = (d ≡ at_ease) × (c < 2 ^ 32)
Fits dead d = d ≡ at_ease
Fits no_room d = d ≡ at_ease

module _ (l : Loc) (T : Type 0) where
  reserve-Alert :
      (fuel items bias request : ℕ)
      → request < 2 ^ 32
      → Alert l IsWord
          (flag l)
          (alarm l)
          (looked l)
          partner
          (reserve {T = T} fuel items bias request)
          at_ease
          Fits
  unfolding reserve
  reserve-Alert zero items bias request fits = tt
  reserve-Alert (suc fuel) items bias request fits =
      silent-Alert l IsWord flag alarm looked partner Loc.send (λ w. bit_or w request) _ Fits
        (λ w w_fits h. or-flag-send w w_fits request fits h) (λ w w_fits h. cc)
        (λ w w_fits. elim (Bool-cases (contains w counterparty_dead)) [
          | inl gone ↦ rw gone refl
          | inr alive ↦ rw alive (elim (Bool-cases (bit_or w all == u32_max)) [
            | inl full ↦ rw full refl
            | inr room ↦
                rw room
                  (elim (Bool-cases (ltb 0 (bit_and (complement 32 (bit_or w all)) request))) [
                    | inl some_free ↦ rw some_free (
                      refl,
                      omega (
                        arith,
                        bit_and-le 32 (complement 32 (bit_or w all)) request
                            (complement-lt 32 (bit_or w all)),
                        complement-lt 32 (bit_or w all),
                      ),
                    )
                    | inr none_free ↦
                        let free : ℕ = complement 32 (bit_or w all) in
                        let d : Bool = bias % 2 == 0 in
                        let size = Trimmed-size d _ _ _ (
                          clear_extra_bits-Trimmed free items d
                            (complement-lt 32 (bit_or w all))) in
                        rw none_free
                          (reserve-Alert fuel items bias (clear_extra_bits free items d) size.1)
                  ])
          ])
        ])

module _ (l : Loc) {T : Type 0} where
  abbrev pub Does : {A : Type 0} → Prog T A → Duty → (A → Duty → Type 0) → Type 0
  Does p d Q = Alert l IsWord (flag l) (alarm l) (looked l) partner p d Q

  module _ {S : Type 0} (f : ℕ → S → Prog T S)
      (rule : (i : ℕ) (s : S) → Does (f i s) at_ease AtEase) where
    drain_loop-Alert : (fuel mask : ℕ) (s : S) → Does (drain_loop n f fuel mask s) at_ease AtEase
    unfolding drain_loop
    drain_loop-Alert zero mask s = tt
    drain_loop-Alert (suc fuel) mask s = elim (Bool-cases (leb n (leading_zeros 32 mask))) [
      | inl last ↦ rw last refl
      | inr more ↦
          let i : ℕ = leading_zeros 32 mask in
          rw more (
            Alert_then l IsWord flag alarm looked partner (f i s)
              (λ s'. drain_loop n f fuel (clear_bit mask i) s') at_ease AtEase (rule i s)
              (λ s'. drain_loop-Alert fuel (clear_bit mask i) s'))
    ]

    pub drain_mask-Alert : (mask : ℕ) (s : S) → Does (drain_mask n f mask s) at_ease AtEase
    unfolding drain_mask
    drain_mask-Alert mask s = drain_loop-Alert (suc n) mask s

  fill-Alert : (i : ℕ) (c : Container T) → Does (fill i c) at_ease AtEase
  unfolding fill take
  fill-Alert i (Container.option none) = tt
  fill-Alert i (Container.option (some v)) = (tt, refl)
  fill-Alert i (Container.vec []) = tt
  fill-Alert i (Container.vec (v ∷ r)) = (tt, refl)
  fill-Alert i (Container.array_vec []) = tt
  fill-Alert i (Container.array_vec (v ∷ r)) = (tt, refl)

  -- A commit clears the flag, and wakes where it was set.
  commit-Alert :
      (x86 : Bool) (claimed : ℕ) (r : TrySend T)
      → claimed < 2 ^ 32
      → Does
          (commit x86 claimed >>= λ prev.
            wake_if (contains (complement 32 prev) sleeping) Loc.recv 1 >> ret r)
          at_ease
          AtEase
  unfolding commit ◌>>=◌
  commit-Alert x86 claimed r fits =
      let mask : ℕ = bit_or claimed all in
      elim (Bool-cases (x86 && mask == u32_max)) [
        | inl whole ↦ rw whole (
            cleared_wake-Alert l IsWord flag alarm looked partner (flag Loc.recv) Loc.recv
              (λ _. mask) 1 (λ _. ret r) AtEase (omega arith) (λ w _ h. h)
              (λ w _. swapped-flag-recv claimed fits)
              (λ w _. rw (swapped-flag-recv claimed fits) refl) (λ w _. refl))
        | inr part ↦ rw part (
            cleared_wake-Alert l IsWord flag alarm looked partner (flag Loc.recv) Loc.recv
              (λ w. bit_or w mask) 1 (λ _. ret r) AtEase (omega arith) (λ w _ h. h)
              (λ w w_fits. commit-flag-recv w w_fits claimed fits)
              (λ w w_fits. commit-alarm-recv w w_fits claimed fits) (λ w _. refl))
      ]

  publish-Alert :
      (x86 : Bool) (c : Container T) (claimed : ℕ)
      → claimed < 2 ^ 32
      → Does (publish x86 c claimed) at_ease AtEase
  unfolding publish
  publish-Alert x86 c claimed fits =
      Alert_then l IsWord flag alarm looked partner (drain_mask n fill claimed c) _ at_ease AtEase
        (drain_mask-Alert fill fill-Alert claimed c)
        (λ rest. commit-Alert x86 claimed (TrySend.sent rest) fits)

  give_back-Alert :
      (error : Buffer T → TrySend T) (c : Container T) → Does (give_back error c) at_ease AtEase
  unfolding give_back remit
  give_back-Alert error (Container.option none) = tt
  give_back-Alert error (Container.option (some v)) = refl
  give_back-Alert error (Container.vec r) = refl
  give_back-Alert error (Container.array_vec r) = refl

  after_reserve-Alert :
      (x86 : Bool) (c : Container T) (r : Reservation) (d : Duty)
      → Fits r d
      → Does (after_reserve x86 c r) d AtEase
  unfolding after_reserve
  after_reserve-Alert x86 c (reserved claimed) d (e, fits) = rw e (publish-Alert x86 c claimed fits)
  after_reserve-Alert x86 c dead d e = rw e (give_back-Alert TrySend.disconnected c)
  after_reserve-Alert x86 c no_room d e = rw e (give_back-Alert TrySend.full c)

  pub try_send-Alert :
      (x86 : Bool) (fuel bias : ℕ) (b : Buffer T)
      → bias < n
      → Does (try_send x86 fuel bias b) at_ease AtEase
  unfolding try_send
  try_send-Alert x86 fuel bias b small = elim (Bool-cases ((available_items b).0 == 0)) [
    | inl zero_items ↦ rw zero_items refl
    | inr some_items ↦
        let items : ℕ = (available_items b).0 in
        let request : ℕ = compute_request_mask n items bias in
        let window = compute_request_mask-IsWindow items bias (ground arith) small in
        rw some_items (
          Alert->>= l IsWord (flag l) (alarm l) (looked l) partner (reserve fuel items bias request)
            _ at_ease Fits AtEase (reserve-Alert l T fuel items bias request window.fits)
            (λ r d k. after_reserve-Alert x86 (available_items b).1 r d k))
  ]
