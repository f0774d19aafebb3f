-- ===== src/Word/Bits.antt =====
-- Single bits of a word, the bitwise operators read bit by bit, and equality of words by bits.
use lockness.Prelude.{
  ℕ, zero, suc, ◌+◌, ◌-◌, ◌*◌, ◌/◌, ◌%◌, ◌^◌, ◌≤◌, ◌<◌, bit_and, bit_or, ◌≡◌, refl, ap, arith, Bool,
  false, not, ◌&&◌, ◌||◌, ◌==◌, pow-suc, one-le-pow,
}
use Prim.Native.Nat.{bit_and-bitwise}
use lockness.Word.Digits.{bit_or_step, bit_and_step}

-- Bit `i` of `x`, counted from the lowest.
unfoldable pub test_bit : ℕ → ℕ → Bool
test_bit x zero = x % 2 == 1
test_bit x (suc i) = test_bit (x / 2) i

pub test_bit-suc : (x i : ℕ) → test_bit x (suc i) ≡ test_bit (x / 2) i
unfolding test_bit
test_bit-suc x i = refl

pub test_bit-none : (x : ℕ) → test_bit x 0 ≡ (x % 2 == 1)
unfolding test_bit
test_bit-none x = refl

-- `!x` on an unsigned integer of `w` bits.
unfoldable pub complement : ℕ → ℕ → ℕ
complement w x = 2 ^ w - 1 - x

pub test_bit-or : (i a b : ℕ) → test_bit (bit_or a b) i ≡ (test_bit a i || test_bit b i)
unfolding test_bit
test_bit-or zero a b = ground (arith, bit_or_step a b)
test_bit-or (suc i) a b =
    let e : bit_or a b / 2 ≡ bit_or (a / 2) (b / 2) = omega (arith, bit_or_step a b) in
    rw e (test_bit-or i (a / 2) (b / 2))

pub test_bit-and : (i a b : ℕ) → test_bit (bit_and a b) i ≡ (test_bit a i && test_bit b i)
unfolding test_bit
test_bit-and zero a b = ground (arith, bit_and_step a b)
test_bit-and (suc i) a b =
    let e : bit_and a b / 2 ≡ bit_and (a / 2) (b / 2) = omega (arith, bit_and_step a b) in
    rw e (test_bit-and i (a / 2) (b / 2))

pub test_bit-complement :
    (w i x : ℕ) → i < w → x < 2 ^ w → test_bit (complement w x) i ≡ not (test_bit x i)
unfolding test_bit complement
test_bit-complement zero i x lt fits = absurd (omega arith)
test_bit-complement (suc w) zero x lt fits = ground (arith, pow-suc 2 w, one-le-pow w 2)
test_bit-complement (suc w) (suc i) x lt fits =
    let e : (2 ^ suc w - 1 - x) / 2 ≡ 2 ^ w - 1 - x / 2 =
      omega (arith, pow-suc 2 w, one-le-pow w 2) in
    rw e (test_bit-complement w i (x / 2) (omega arith) (omega (arith, pow-suc 2 w)))

-- Words of `w` bits with the same bits are equal.
pub word_ext :
    (w a b : ℕ) → a < 2 ^ w → b < 2 ^ w → ((i : ℕ) → i < w → test_bit a i ≡ test_bit b i) → a ≡ b
unfolding test_bit
word_ext zero a b p q h = omega arith
word_ext (suc w) a b p q h =
    let low : (a % 2 == 1) ≡ (b % 2 == 1) = h 0 (omega arith) in
    let high : a / 2 ≡ b / 2 =
      word_ext w (a / 2) (b / 2) (omega (arith, pow-suc 2 w)) (omega (arith, pow-suc 2 w))
        (λ i lt. h (suc i) (omega arith)) in
    ground arith

pub bit_or-lt : (w a b : ℕ) → a < 2 ^ w → b < 2 ^ w → bit_or a b < 2 ^ w
bit_or-lt zero zero zero p q = omega arith
bit_or-lt zero _ _ p q = absurd (omega arith)
bit_or-lt (suc w) a b p q = omega (
  arith,
  pow-suc 2 w,
  bit_or_step a b,
  bit_or-lt w (a / 2) (b / 2) (omega (arith, pow-suc 2 w)) (omega (arith, pow-suc 2 w)),
)

pub bit_and-le : (w a b : ℕ) → a < 2 ^ w → bit_and a b ≤ a
bit_and-le zero zero b p = omega (arith, bit_and-bitwise 0 b)
bit_and-le zero (suc a) b p = absurd (omega arith)
bit_and-le (suc w) a b p =
    omega (arith, bit_and_step a b, bit_and-le w (a / 2) (b / 2) (omega (arith, pow-suc 2 w)))

pub complement-lt : (w x : ℕ) → complement w x < 2 ^ w
unfolding complement
complement-lt w x = omega (arith, one-le-pow w 2)

pub test_bit-zero : (i : ℕ) → test_bit 0 i ≡ false
unfolding test_bit
test_bit-zero zero = refl
test_bit-zero (suc i) = test_bit-zero i

-- The bits of a power of two.
pub test_bit-pow : (k i : ℕ) → test_bit (2 ^ k) i ≡ (i == k)
unfolding test_bit
test_bit-pow zero zero = refl
test_bit-pow zero (suc i) = ground (arith, test_bit-zero i)
test_bit-pow (suc k) zero = ground (arith, pow-suc 2 k)
test_bit-pow (suc k) (suc i) =
    let e : 2 ^ suc k / 2 ≡ 2 ^ k = omega (arith, pow-suc 2 k) in
    rw e (ground (arith, test_bit-pow k i))

-- A word of `w` bits has no bit at `w` or above.
pub test_bit-above : (w x i : ℕ) → x < 2 ^ w → w ≤ i → test_bit x i ≡ false
unfolding test_bit
test_bit-above zero x i fits le = let e : x ≡ 0 = omega arith in rw e (test_bit-zero i)
test_bit-above (suc w) x zero fits le = absurd (omega arith)
test_bit-above (suc w) x (suc i) fits le =
    test_bit-above w (x / 2) i (omega (arith, pow-suc 2 w)) (omega arith)

pub mul-pow-suc : (b w : ℕ) → b * 2 ^ suc w ≡ 2 * (b * 2 ^ w)
mul-pow-suc b w = omega (arith, ap (λ (t : ℕ). b * t) (pow-suc 2 w))

-- The bits of a word of `w` bits with one bit `b` put above it.
pub test_bit-fields_below :
    (w b r i : ℕ) → r < 2 ^ w → i < w → test_bit (b * 2 ^ w + r) i ≡ test_bit r i
unfolding test_bit
test_bit-fields_below zero b r i fits lt = absurd (omega arith)
test_bit-fields_below (suc w) b r zero fits lt = ground (arith, mul-pow-suc b w)
test_bit-fields_below (suc w) b r (suc i) fits lt =
    let e : (b * 2 ^ suc w + r) / 2 ≡ b * 2 ^ w + r / 2 = omega (arith, mul-pow-suc b w) in
    rw e (test_bit-fields_below w b (r / 2) i (omega (arith, pow-suc 2 w)) (omega arith))

pub test_bit-fields_top : (w b r : ℕ) → r < 2 ^ w → b < 2 → test_bit (b * 2 ^ w + r) w ≡ (b == 1)
unfolding test_bit
test_bit-fields_top zero b r fits lt = ground arith
test_bit-fields_top (suc w) b r fits lt =
    let e : (b * 2 ^ suc w + r) / 2 ≡ b * 2 ^ w + r / 2 = omega (arith, mul-pow-suc b w) in
    rw e (test_bit-fields_top w b (r / 2) (omega (arith, pow-suc 2 w)) lt)

pub pow-lt : (w k : ℕ) → k < w → 2 ^ k < 2 ^ w
pow-lt zero k lt = absurd (omega arith)
pow-lt (suc w) zero lt = omega (arith, pow-suc 2 w, one-le-pow w 2)
pow-lt (suc w) (suc k) lt = omega (arith, pow-suc 2 w, pow-suc 2 k, pow-lt w k (omega arith))
