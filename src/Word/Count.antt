-- ===== src/Word/Count.antt =====
-- Counting and reversing the bits of a word: `count_ones`, `reverse_bits` of Rust's unsigned integers, at any width `w`.
use lockness.Prelude.{
  ℕ, zero, suc, ◌+◌, ◌-◌, ◌*◌, ◌/◌, ◌%◌, ◌^◌, ◌≤◌, ◌<◌, bit_and, ◌≡◌, refl, ap, sym, ◌∙◌, arith,
  true, false, not, ◌&&◌, ◌==◌, pow-suc,
}
use lockness.Word.Digits.{bit_and_step}
use lockness.Word.Bits.{
  test_bit, test_bit-suc, test_bit-none, test_bit-and, mul-pow-suc, word_ext, bit_and-le,
  test_bit-above, test_bit-fields_below, test_bit-fields_top,
}
use native.Mathlib.Decide.{dec_lt}

unfoldable pub count_ones : ℕ → ℕ → ℕ
count_ones zero x = 0
count_ones (suc w) x = x % 2 + count_ones w (x / 2)

unfoldable pub reverse_bits : ℕ → ℕ → ℕ
reverse_bits zero x = 0
reverse_bits (suc w) x = x % 2 * 2 ^ w + reverse_bits w (x / 2)

-- `x &= x - 1`, which clears the lowest set bit.
unfoldable pub clear_lowest : ℕ → ℕ
clear_lowest x = bit_and x (x - 1)

bit_and_self : (w x : ℕ) → x < 2 ^ w → bit_and x x ≡ x
bit_and_self zero zero p = refl
bit_and_self zero (suc x) p = absurd (omega arith)
bit_and_self (suc w) x p =
    omega (arith, bit_and_step x x, bit_and_self w (x / 2) (omega (arith, pow-suc 2 w)))

pub clear_lowest_odd : (w x : ℕ) → x < 2 ^ w → x % 2 ≡ 1 → clear_lowest x ≡ x - 1
unfolding clear_lowest
clear_lowest_odd w x fits odd =
    let b : (x - 1) / 2 ≡ x / 2 = omega arith in
    let self : bit_and (x / 2) ((x - 1) / 2) ≡ x / 2 =
      rw b (bit_and_self w (x / 2) (omega arith)) in
    omega (arith, bit_and_step x (x - 1))

pub clear_lowest_even : (x : ℕ) → 0 < x → x % 2 ≡ 0 → clear_lowest x ≡ 2 * clear_lowest (x / 2)
unfolding clear_lowest
clear_lowest_even x p even =
    let b : (x - 1) / 2 ≡ x / 2 - 1 = omega arith in
    let half : bit_and (x / 2) ((x - 1) / 2) ≡ bit_and (x / 2) (x / 2 - 1) = rw b in
    omega (arith, bit_and_step x (x - 1))

-- Clearing the lowest set bit removes one bit.
pub count_ones-clear_lowest :
    (w x : ℕ) → 0 < x → x < 2 ^ w → count_ones w (clear_lowest x) + 1 ≡ count_ones w x
unfolding count_ones
count_ones-clear_lowest zero x p fits = absurd (omega arith)
count_ones-clear_lowest (suc w) x p fits = elim (dec_lt (x % 2) 1) [
  | yes even ↦
      let c : clear_lowest x ≡ 2 * clear_lowest (x / 2) = clear_lowest_even x p (omega arith) in
      let d : clear_lowest x / 2 ≡ clear_lowest (x / 2) = omega arith in
      rw d (
        omega (arith, count_ones-clear_lowest w (x / 2) (omega arith) (omega (arith, pow-suc 2 w))))
  | no odd ↦
      let c : clear_lowest x ≡ x - 1 = clear_lowest_odd (suc w) x fits (omega arith) in
      let d : clear_lowest x / 2 ≡ x / 2 = omega arith in rw d (omega arith)
]

-- Clearing the lowest set bit sets no bit.
pub test_bit-clear_lowest : (x i : ℕ) → test_bit (clear_lowest x) i ≡ true → test_bit x i ≡ true
unfolding clear_lowest
test_bit-clear_lowest x i h = ground (arith, test_bit-and i x (x - 1))

pub count_ones-suc : (w x : ℕ) → count_ones (suc w) x ≡ x % 2 + count_ones w (x / 2)
unfolding count_ones
count_ones-suc w x = refl

pub count_ones-le : (w x : ℕ) → count_ones w x ≤ w
unfolding count_ones
count_ones-le zero x = omega arith
count_ones-le (suc w) x = omega (arith, count_ones-le w (x / 2))

pub count_ones-zero : (w : ℕ) → count_ones w 0 ≡ 0
unfolding count_ones
count_ones-zero zero = refl
count_ones-zero (suc w) = omega (arith, count_ones-zero w)

-- Counting a word with one bit put above it.
count_ones-fields :
    (w b r : ℕ) → r < 2 ^ w → b < 2 → count_ones (suc w) (b * 2 ^ w + r) ≡ b + count_ones w r
unfolding count_ones
count_ones-fields zero b r fits lt = omega arith
count_ones-fields (suc w) b r fits lt =
    let e : (b * 2 ^ suc w + r) / 2 ≡ b * 2 ^ w + r / 2 = omega (arith, mul-pow-suc b w) in
    rw e (
      omega (arith, mul-pow-suc b w, count_ones-fields w b (r / 2) (omega (arith, pow-suc 2 w)) lt))

pub reverse_bits-lt : (w x : ℕ) → reverse_bits w x < 2 ^ w
unfolding reverse_bits
reverse_bits-lt zero x = omega arith
reverse_bits-lt (suc w) x = grind (arith, pow-suc 2 w, reverse_bits-lt w (x / 2))

pub test_bit-reverse_bits :
    (w x i : ℕ) → i < w → test_bit (reverse_bits w x) i ≡ test_bit x (w - 1 - i)
unfolding reverse_bits
test_bit-reverse_bits zero x i p = absurd (omega arith)
test_bit-reverse_bits (suc w) x i p = elim (dec_lt i w) [
  | yes below ↦
      let e : suc w - 1 - i ≡ suc (w - 1 - i) = omega arith in
      let down : test_bit (x % 2 * 2 ^ w + reverse_bits w (x / 2)) i
          ≡ test_bit (reverse_bits w (x / 2)) i =
        test_bit-fields_below w (x % 2) (reverse_bits w (x / 2)) i (reverse_bits-lt w (x / 2))
          below in
      rw (e, down) (test_bit-reverse_bits w (x / 2) i below ∙ sym (test_bit-suc x (w - 1 - i)))
  | no top ↦
      let e : i ≡ w = omega arith in
      let z : suc w - 1 - w ≡ 0 = omega arith in
      rw (e, z)
        (test_bit-fields_top w (x % 2) (reverse_bits w (x / 2)) (reverse_bits-lt w (x / 2))
            (omega arith)
          ∙ sym (test_bit-none x))
]

pub count_ones-reverse_bits : (w x : ℕ) → count_ones w (reverse_bits w x) ≡ count_ones w x
unfolding reverse_bits count_ones
count_ones-reverse_bits zero x = refl
count_ones-reverse_bits (suc w) x = omega (
  arith,
  count_ones-fields w (x % 2) (reverse_bits w (x / 2)) (reverse_bits-lt w (x / 2)) (omega arith),
  count_ones-reverse_bits w (x / 2),
  count_ones-suc w x,
)

-- Reversing twice gives the word back.
pub reverse_bits-reverse_bits : (w x : ℕ) → x < 2 ^ w → reverse_bits w (reverse_bits w x) ≡ x
reverse_bits-reverse_bits w x fits = word_ext w _ x (reverse_bits-lt w _) fits λ i lt.
    let e : w - 1 - (w - 1 - i) ≡ i = omega arith in
    test_bit-reverse_bits w (reverse_bits w x) i lt
    ∙ test_bit-reverse_bits w x (w - 1 - i) (omega arith)
    ∙ ap (test_bit x) e

pub clear_lowest-le : (w x : ℕ) → x < 2 ^ w → clear_lowest x ≤ x
unfolding clear_lowest
clear_lowest-le w x fits = bit_and-le w x (x - 1) fits

test_bit-halves : (x y i : ℕ) → x / 2 ≡ y / 2 → test_bit x (suc i) ≡ test_bit y (suc i)
unfolding test_bit
test_bit-halves x y i e = ap (λ t. test_bit t i) e

-- What stays after the lowest set bit is cleared is closed upward.
pub clear_lowest_upward :
    (w x : ℕ)
    → x < 2 ^ w
    → (i j : ℕ) → i ≤ j
    → test_bit (clear_lowest x) i ≡ true
    → test_bit x j ≡ true
    → test_bit (clear_lowest x) j ≡ true
clear_lowest_upward zero x fits i j le h m = cc (test_bit-above 0 x j fits (omega arith))
clear_lowest_upward (suc w) x fits i zero le h m = let e : i ≡ 0 = omega arith in rw e at h
clear_lowest_upward (suc w) x fits zero (suc j) le h m = elim (dec_lt (x % 2) 1) [
  | yes even ↦ elim (dec_lt 0 x) [
    | yes pos ↦
        ground (arith, test_bit-none (clear_lowest x), clear_lowest_even x pos (omega arith))
    | no empty ↦ cc (test_bit-above 0 x (suc j) (omega arith) (omega arith))
  ]
  | no odd ↦
      ground (arith, test_bit-none (clear_lowest x), clear_lowest_odd (suc w) x fits (omega arith))
]
clear_lowest_upward (suc w) x fits (suc i) (suc j) le h m = elim (dec_lt (x % 2) 1) [
  | yes even ↦ elim (dec_lt 0 x) [
    | yes pos ↦
        let half : clear_lowest x / 2 ≡ clear_lowest (x / 2) =
          omega (arith, clear_lowest_even x pos (omega arith)) in
        test_bit-suc (clear_lowest x) j
        ∙ ap (λ t. test_bit t j) half
        ∙ clear_lowest_upward w (x / 2) (omega (arith, pow-suc 2 w)) i j (omega arith)
            (ap (λ t. test_bit t i) (sym half) ∙ sym (test_bit-suc (clear_lowest x) i) ∙ h)
            (sym (test_bit-suc x j) ∙ m)
    | no empty ↦ cc (test_bit-above 0 x (suc j) (omega arith) (omega arith))
  ]
  | no odd ↦
      let c : clear_lowest x ≡ x - 1 = clear_lowest_odd (suc w) x fits (omega arith) in
      test_bit-halves (clear_lowest x) x j (omega arith) ∙ m
]

-- A part of a word has no more bits than the word.
pub count_ones_mono :
    (w x y : ℕ)
    → ((i : ℕ) → i < w → test_bit y i ≡ true → test_bit x i ≡ true)
    → count_ones w y ≤ count_ones w x
unfolding count_ones test_bit
count_ones_mono zero x y h = omega arith
count_ones_mono (suc w) x y h =
    let low : (y % 2 == 1) ≡ true → (x % 2 == 1) ≡ true = h 0 (omega arith) in
    ground (arith, count_ones_mono w (x / 2) (y / 2) (λ i lt. h (suc i) (omega arith)))

pub count_ones-remove :
    (w k x y : ℕ)
    → k < w
    → test_bit x k ≡ true
    → ((i : ℕ) → i < w → test_bit y i ≡ (test_bit x i && not (i == k)))
    → count_ones w y + 1 ≡ count_ones w x
unfolding count_ones test_bit
count_ones-remove zero k x y lt set h = absurd (omega arith)
count_ones-remove (suc w) zero x y lt set h =
    let low : (y % 2 == 1) ≡ ((x % 2 == 1) && false) = h 0 (omega arith) in
    let le : count_ones w (y / 2) ≤ count_ones w (x / 2) =
      count_ones_mono w (x / 2) (y / 2) (λ i p q. ground (arith, h (suc i) (omega arith))) in
    let ge : count_ones w (x / 2) ≤ count_ones w (y / 2) =
      count_ones_mono w (y / 2) (x / 2) (λ i p q. ground (arith, h (suc i) (omega arith))) in
    ground arith
count_ones-remove (suc w) (suc k) x y lt set h =
    let low = h 0 (omega arith) in
    ground (
      arith,
      count_ones-remove w k (x / 2) (y / 2) (omega arith) set
          (λ i p. ground (arith, h (suc i) (omega arith))),
    )
