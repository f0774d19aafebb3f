-- ===== src/Bags/Mpmc/Protocol/Handles.antt =====
-- The clones and drops of the handles of bags/src/mpmc.rs under the protocol.
use lockness.Prelude.{ℕ, ◌/◌, ◌<◌, refl, Bool, true, false, ltb, inl, inr, Bool-cases, arith}
use lockness.Word.Bits.{complement}
use lockness.Machine.Program.{Loc, Prog}
use lockness.Machine.Access.{wake_if}
use lockness.Bags.Mpmc.Status.{n, contains, sleeping, counterparty_dead, u32_max}
use lockness.Bags.Mpmc.Handles.{clone_sender, clone_receiver, drop_sender, drop_receiver}
use lockness.Bags.Mpmc.Protocol.Obeys.{Held, Obeys}
use lockness.Bags.Mpmc.Protocol.Send.{SameHeld}
use lockness.Bags.Mpmc.Protocol.Silent.{or-Obeys, and-Obeys, dead-IsStatus}

module _ (T : Type 0) (h : Held) where
  wake-Obeys : (b : Bool) (l : Loc) (k : ℕ) → Obeys (wake_if {T = T} b l k) h (λ _. SameHeld h)
  wake-Obeys true l k = λ i. refl
  wake-Obeys false l k = λ i. refl

  -- A clone takes no cell, and its bias is in range.
  pub clone_sender-Obeys : Obeys (clone_sender {T = T}) h (λ bias h'. (bias < n) × SameHeld h h')
  unfolding clone_sender
  clone_sender-Obeys = λ w fits sees. (
    omega arith,
    λ i. tt,
    elim (Bool-cases (ltb (u32_max / 2) w)) [
      | inl many ↦ rw many tt
      | inr few ↦ rw few (omega arith, λ i. refl)
    ],
  )

  pub clone_receiver-Obeys : Obeys (clone_receiver {T = T}) h (λ _. SameHeld h)
  unfolding clone_receiver
  clone_receiver-Obeys = λ w fits sees. (
    omega arith,
    λ i. tt,
    elim (Bool-cases (ltb (u32_max / 2) w)) [
      | inl many ↦ rw many tt
      | inr few ↦ rw few (λ i. refl)
    ],
  )

  pub drop_sender-Obeys : Obeys (drop_sender {T = T}) h (λ _. SameHeld h)
  unfolding drop_sender
  drop_sender-Obeys = λ w fits sees. (
    omega arith,
    λ i. tt,
    elim (Bool-cases (ltb 1 w)) [
      | inl more ↦ rw more (λ i. refl)
      | inr last ↦ rw last (
          let k : ℕ → Prog T (Unit {0}) =
            λ old. wake_if (contains (complement 32 old) sleeping) Loc.recv u32_max in
          and-Obeys Loc.recv counterparty_dead k h (λ _. SameHeld h) dead-IsStatus
            (λ old. wake-Obeys (contains (complement 32 old) sleeping) Loc.recv u32_max))
    ],
  )

  pub drop_receiver-Obeys : Obeys (drop_receiver {T = T}) h (λ _. SameHeld h)
  unfolding drop_receiver
  drop_receiver-Obeys = λ w fits sees. (
    omega arith,
    λ i. tt,
    elim (Bool-cases (ltb 1 w)) [
      | inl more ↦ rw more (λ i. refl)
      | inr last ↦ rw last (
          let k : ℕ → Prog T (Unit {0}) = λ old. wake_if (contains old sleeping) Loc.send u32_max in
          or-Obeys Loc.send counterparty_dead k h (λ _. SameHeld h) dead-IsStatus
            (λ old. wake-Obeys (contains old sleeping) Loc.send u32_max))
    ],
  )
