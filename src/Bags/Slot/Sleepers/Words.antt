-- ===== src/Bags/Slot/Sleepers/Words.antt =====
-- What the accesses of bags/src/slot.rs do to the flags SLEEPING.
use lockness.Prelude.{
  ℕ, ◌/◌, ◌^◌, ◌<◌, bit_or, ◌≡◌, refl, sym, ap, ap₂, ◌∙◌, Bool, true, false, ◌&&◌, ◌==◌, arith,
}
use lockness.Machine.Program.{Loc}
use lockness.Bags.Mpmc.Status.{contains}
use lockness.Bags.Slot.Status.{receiver_dead, send_sleeping, recv_sleeping, sender_dead}
use lockness.Bags.Slot.Status.Flags.{
  room, send_word, recv_word, reserved, next_count, reserved-send_word, reservations-send_word,
  contains-send_sleeping, or-send_sleeping, next_count-lt, next_count-pos, empty_word, dead_word,
}
use lockness.Bags.Slot.Status.Recv.{or-sender_dead}
use lockness.Bags.Slot.Protocol.Receiving.{room-pos}
use lockness.Bags.Slot.Sleepers.{IsWord, flag, alarm}

module _ (x86 : Bool) where
  flag-send_word :
      (dead asleep : Bool) (count : ℕ)
      → count < 2 ^ room x86
      → flag x86 Loc.send (send_word x86 dead asleep count) ≡ asleep
  flag-send_word dead asleep count fits = contains-send_sleeping x86 dead asleep count fits

  alarm-send_word :
      (dead asleep : Bool) (count : ℕ)
      → count < 2 ^ room x86
      → alarm x86 Loc.send (send_word x86 dead asleep count) ≡ (asleep && count == 0)
  alarm-send_word dead asleep count fits =
      ap₂ (λ a c. a && c == 0) (flag-send_word dead asleep count fits)
        (reservations-send_word x86 dead asleep count fits)

  module _ (w : ℕ) (valid : IsWord x86 Loc.send w) where
    pub reserved-flag : flag x86 Loc.send w ≡ true → flag x86 Loc.send (reserved x86 w) ≡ true
    reserved-flag h =
        let (dead, asleep, count, is, fits, few) = valid in
        let set : asleep ≡ true =
          sym (flag-send_word dead asleep count fits) ∙ ap (flag x86 Loc.send) (sym is) ∙ h in
        ap (λ x. flag x86 Loc.send (reserved x86 x)) is
        ∙ ap (flag x86 Loc.send) (reserved-send_word x86 dead asleep count fits few)
        ∙ flag-send_word dead asleep (next_count x86 count) (next_count-lt x86 count fits few)
        ∙ set

    pub reserved-alarm : alarm x86 Loc.send (reserved x86 w) ≡ false
    reserved-alarm =
        let (dead, asleep, count, is, fits, few) = valid in
        ap (λ x. alarm x86 Loc.send (reserved x86 x)) is
        ∙ ap (alarm x86 Loc.send) (reserved-send_word x86 dead asleep count fits few)
        ∙ alarm-send_word dead asleep (next_count x86 count) (next_count-lt x86 count fits few)
        ∙ taken asleep (next_count x86 count) (next_count-pos x86 count)
      where
        taken : (a : Bool) (c : ℕ) → 0 < c → (a && c == 0) ≡ false
        taken a c pos = ground arith

    pub marked-flag : flag x86 Loc.send (bit_or w (send_sleeping x86)) ≡ true
    marked-flag =
        let (dead, asleep, count, is, fits, few) = valid in
        ap (λ x. flag x86 Loc.send (bit_or x (send_sleeping x86))) is
        ∙ ap (flag x86 Loc.send) (or-send_sleeping x86 dead asleep count fits)
        ∙ flag-send_word dead true count fits

    pub marked-IsWord : IsWord x86 Loc.send (bit_or w (send_sleeping x86))
    marked-IsWord =
        let (dead, asleep, count, is, fits, few) = valid in
        (
          dead,
          true,
          count,
          ap (λ x. bit_or x (send_sleeping x86)) is ∙ or-send_sleeping x86 dead asleep count fits,
          fits,
          few,
        )

  pub empty-flag : flag x86 Loc.send 0 ≡ false
  empty-flag = ap (flag x86 Loc.send) (empty_word x86) ∙ flag-send_word false false 0 (room-pos x86)

  pub dead-flag : flag x86 Loc.send (receiver_dead x86) ≡ false
  dead-flag = ap (flag x86 Loc.send) (dead_word x86) ∙ flag-send_word true false 0 (room-pos x86)

  pub clear-alarm : (w : ℕ) → flag x86 Loc.send w ≡ false → alarm x86 Loc.send w ≡ false
  clear-alarm w h = rw h refl

  pub asleep-contains : (w : ℕ) → flag x86 Loc.recv w ≡ true → contains w recv_sleeping ≡ true
  unfolding contains
  asleep-contains w h = let e : w ≡ 2 = ground arith in rw e refl

  pub dropped-flag :
      (w : ℕ) → IsWord x86 Loc.recv w → flag x86 Loc.recv (bit_or w sender_dead) ≡ false
  dropped-flag w (t, s, d, is) =
      ap (λ x. flag x86 Loc.recv (bit_or x sender_dead)) is
      ∙ ap (flag x86 Loc.recv) (or-sender_dead t s d)
      ∙ not_two t s
    where
      not_two : (t s : Bool) → (recv_word t s true == 2) ≡ false
      not_two t s = ground arith

same_half :
    (dw aw de ae : Bool) (cw ce : ℕ)
    → cw < 2 ^ 62
    → ce < 2 ^ 62
    → send_word true dw aw cw / 2 ^ 32 ≡ send_word true de ae ce / 2 ^ 32
    → aw ≡ ae
same_half dw true de true cw ce fw fe same = refl
same_half dw false de false cw ce fw fe same = refl
same_half true true true false cw ce fw fe same = absurd (omega arith)
same_half true true false false cw ce fw fe same = absurd (omega arith)
same_half false true true false cw ce fw fe same = absurd (omega arith)
same_half false true false false cw ce fw fe same = absurd (omega arith)
same_half true false true true cw ce fw fe same = absurd (omega arith)
same_half true false false true cw ce fw fe same = absurd (omega arith)
same_half false false true true cw ce fw fe same = absurd (omega arith)
same_half false false false true cw ce fw fe same = absurd (omega arith)

-- SLEEPING stands in the half of the word that is slept on.
pub high_half-flag :
    (w e : ℕ)
    → IsWord true Loc.send w
    → IsWord true Loc.send e
    → w / 2 ^ 32 ≡ e / 2 ^ 32
    → flag true Loc.send e ≡ true
    → flag true Loc.send w ≡ true
high_half-flag w e (dw, aw, cw, isw, fw, _) (de, ae, ce, ise, fe, _) same h =
    let half : send_word true dw aw cw / 2 ^ 32 ≡ send_word true de ae ce / 2 ^ 32 =
      ap (λ x. x / 2 ^ 32) (sym isw) ∙ same ∙ ap (λ x. x / 2 ^ 32) ise in
    ap (flag true Loc.send) isw
    ∙ flag-send_word true dw aw cw fw
    ∙ same_half dw aw de ae cw ce fw fe half
    ∙ sym (flag-send_word true de ae ce fe)
    ∙ ap (flag true Loc.send) (sym ise)
    ∙ h
