-- ===== src/Bags/Slot/Status/Flags.antt =====
-- What the slot's operations read in the words `send` and `recv`, and what they make of them.
use lockness.Prelude.{
  suc, ℕ, ◌+◌, ◌%◌, ◌^◌, ◌<◌, bit_or, ◌≡◌, refl, ◌∙◌, Bool, true, false, if◌then◌else◌, arith,
}
use lockness.Word.Bits.{complement, bit_or-lt}
use lockness.Word.Digits.{bit_or_step}
use lockness.Bags.Mpmc.Status.{contains}
use lockness.Bags.Mpmc.Status.Flags.{contains-flag}
use lockness.Bags.Slot.Status.{receiver_dead, send_sleeping, reservations, abort_limit}
use lockness.Bags.Slot.Status.Words.{
  word_of, word_of-lt, test_bit-asleep, test_bit-dead, or-asleep, or-one, count_of,
}

-- The bits of `send` that count reservations.
abbrev pub room : Bool → ℕ
room x86 = if x86 then 62 else 30

abbrev pub send_word : Bool → Bool → Bool → ℕ → ℕ
send_word x86 dead asleep count = word_of (room x86) dead asleep count

pub reservations-send_word :
    (x86 dead asleep : Bool) (count : ℕ)
    → count < 2 ^ room x86
    → reservations x86 (send_word x86 dead asleep count) ≡ count
unfolding reservations
reservations-send_word true dead asleep count fits = count_of 62 dead asleep count fits
reservations-send_word false dead asleep count fits = count_of 30 dead asleep count fits

pub contains-receiver_dead :
    (x86 dead asleep : Bool) (count : ℕ)
    → count < 2 ^ room x86
    → contains (send_word x86 dead asleep count) (receiver_dead x86) ≡ dead
contains-receiver_dead true dead asleep count fits =
    contains-flag 64 _ 63 (word_of-lt 62 dead asleep count fits) (omega arith)
    ∙ test_bit-dead 62 dead asleep count fits
contains-receiver_dead false dead asleep count fits =
    contains-flag 32 _ 31 (word_of-lt 30 dead asleep count fits) (omega arith)
    ∙ test_bit-dead 30 dead asleep count fits

pub contains-send_sleeping :
    (x86 dead asleep : Bool) (count : ℕ)
    → count < 2 ^ room x86
    → contains (send_word x86 dead asleep count) (send_sleeping x86) ≡ asleep
contains-send_sleeping true dead asleep count fits =
    contains-flag 64 _ 62 (word_of-lt 62 dead asleep count fits) (omega arith)
    ∙ test_bit-asleep 62 dead asleep count fits
contains-send_sleeping false dead asleep count fits =
    contains-flag 32 _ 30 (word_of-lt 30 dead asleep count fits) (omega arith)
    ∙ test_bit-asleep 30 dead asleep count fits

pub or-send_sleeping :
    (x86 dead asleep : Bool) (count : ℕ)
    → count < 2 ^ room x86
    → bit_or (send_word x86 dead asleep count) (send_sleeping x86) ≡ send_word x86 dead true count
or-send_sleeping true dead asleep count fits = or-asleep 62 dead asleep count fits
or-send_sleeping false dead asleep count fits = or-asleep 30 dead asleep count fits

pub abort_limit-eq : abort_limit ≡ 2 ^ 61
unfolding complement
abort_limit-eq = refl

-- The word and the count after one more reservation.
abbrev pub reserved : Bool → ℕ → ℕ
reserved x86 w = if x86 then (w + 1) % 2 ^ 64 else bit_or w 1

abbrev pub next_count : Bool → ℕ → ℕ
next_count x86 count = if x86 then count + 1 else bit_or count 1

pub reserved-send_word :
    (x86 dead asleep : Bool) (count : ℕ)
    → count < 2 ^ room x86
    → (x86 ≡ true → suc count < 2 ^ 62)
    → reserved x86 (send_word x86 dead asleep count)
      ≡ send_word x86 dead asleep (next_count x86 count)
reserved-send_word true dead asleep count fits few = ground (arith, few refl)
reserved-send_word false dead asleep count fits few = or-one 30 dead asleep count fits (omega arith)

pub next_count-lt :
    (x86 : Bool) (count : ℕ)
    → count < 2 ^ room x86
    → (x86 ≡ true → suc count < 2 ^ 62)
    → next_count x86 count < 2 ^ room x86
next_count-lt true count fits few = omega (arith, few refl)
next_count-lt false count fits few = bit_or-lt 30 count 1 fits (omega arith)

pub next_count-pos : (x86 : Bool) (count : ℕ) → 0 < next_count x86 count
next_count-pos true count = omega arith
next_count-pos false count = omega (arith, bit_or_step count 1)

pub next_count-x86 : (x86 : Bool) (count : ℕ) → x86 ≡ true → next_count x86 count ≡ suc count
next_count-x86 true count e = omega arith
next_count-x86 false count e = cc

-- The word `recv`.
abbrev pub recv_word : Bool → Bool → Bool → ℕ
recv_word there asleep dead =
    (if there then 1 else 0) + (if asleep then 2 else 0) + (if dead then 4 else 0)

-- The words that the receiver leaves.
pub empty_word : (x86 : Bool) → 0 ≡ send_word x86 false false 0
empty_word true = refl
empty_word false = refl

pub dead_word : (x86 : Bool) → receiver_dead x86 ≡ send_word x86 true false 0
dead_word true = refl
dead_word false = refl
