-- ===== src/Bags/Slot/Status/Words.antt =====
-- The parts of the word `send`: the two status bits and the number of reservations.
use lockness.Prelude.{
  ℕ, suc, ◌+◌, ◌*◌, ◌^◌, ◌<◌, bit_and, bit_or, ◌≡◌, ◌∙◌, Bool, true, ltb, if◌then◌else◌, arith,
  pow-suc,
}
use native.Mathlib.Decide.{dec_lt}
use lockness.Word.Bits.{
  test_bit, complement, test_bit-or, test_bit-and, test_bit-complement, word_ext, bit_or-lt,
  bit_and-le, test_bit-pow, test_bit-above, test_bit-fields_below, test_bit-fields_top, pow-lt,
}

abbrev digit : Bool → ℕ
digit b = if b then 1 else 0

-- A word of `k + 2` bits.
abbrev pub word_of : ℕ → Bool → Bool → ℕ → ℕ
word_of k dead asleep count = digit dead * 2 ^ suc k + (digit asleep * 2 ^ k + count)

module _ (k : ℕ) (dead asleep : Bool) (count : ℕ) (fits : count < 2 ^ k) where
  low-lt : digit asleep * 2 ^ k + count < 2 ^ suc k
  low-lt = ground (arith, pow-suc 2 k)

  pub word_of-lt : word_of k dead asleep count < 2 ^ suc (suc k)
  word_of-lt = ground (arith, low-lt, pow-suc 2 (suc k))

  test_bit-count : (i : ℕ) → i < k → test_bit (word_of k dead asleep count) i ≡ test_bit count i
  test_bit-count i lt =
      test_bit-fields_below (suc k) (digit dead) (digit asleep * 2 ^ k + count) i low-lt
        (omega arith)
      ∙ test_bit-fields_below k (digit asleep) count i fits lt

  pub test_bit-asleep : test_bit (word_of k dead asleep count) k ≡ asleep
  test_bit-asleep =
      test_bit-fields_below (suc k) (digit dead) (digit asleep * 2 ^ k + count) k low-lt
        (omega arith)
      ∙ test_bit-fields_top k (digit asleep) count fits (ground arith)
      ∙ ground arith

  pub test_bit-dead : test_bit (word_of k dead asleep count) (suc k) ≡ dead
  test_bit-dead =
      test_bit-fields_top (suc k) (digit dead) (digit asleep * 2 ^ k + count) low-lt (ground arith)
      ∙ ground arith

-- A word is known by its three parts.
word_of-eq :
    (k x : ℕ) (dead asleep : Bool) (count : ℕ)
    → count < 2 ^ k
    → x < 2 ^ suc (suc k)
    → ((i : ℕ) → i < k → test_bit x i ≡ test_bit count i)
    → test_bit x k ≡ asleep
    → test_bit x (suc k) ≡ dead
    → x ≡ word_of k dead asleep count
word_of-eq k x dead asleep count fits lt low mid high =
    word_ext (suc (suc k)) x _ lt (word_of-lt k dead asleep count fits) (λ i small.
      elim (dec_lt i k) [
        | yes below ↦ ground (arith, low i below, test_bit-count k dead asleep count fits i below)
        | no above ↦ elim (dec_lt k i) [
          | yes top ↦
              let e : i ≡ suc k = omega arith in
              rw e (ground (arith, test_bit-dead k dead asleep count fits))
          | no middle ↦
              let e : i ≡ k = omega arith in
              rw e (ground (arith, test_bit-asleep k dead asleep count fits))
        ]
      ])

module _ (k : ℕ) (dead asleep : Bool) (count : ℕ) (fits : count < 2 ^ k) where
  abbrev w : ℕ
  w = word_of k dead asleep count

  pub or-asleep : bit_or (word_of k dead asleep count) (2 ^ k) ≡ word_of k dead true count
  or-asleep =
      word_of-eq k _ dead true count fits
        (bit_or-lt (suc (suc k)) _ _ (word_of-lt k dead asleep count fits)
          (pow-lt (suc (suc k)) k (omega arith)))
        (λ i lt. ground (
          arith,
          test_bit-or i w (2 ^ k),
          test_bit-pow k i,
          test_bit-count k dead asleep count fits i lt,
        ))
        (ground (arith, test_bit-or k w (2 ^ k), test_bit-pow k k))
        (ground (
          arith,
          test_bit-or (suc k) w (2 ^ k),
          test_bit-pow k (suc k),
          test_bit-dead k dead asleep count fits,
        ))

  pub or-one :
      0 < k → bit_or (word_of k dead asleep count) 1 ≡ word_of k dead asleep (bit_or count 1)
  or-one pos =
      word_of-eq k _ dead asleep (bit_or count 1) (bit_or-lt k count 1 fits (pow-lt k 0 pos))
        (bit_or-lt (suc (suc k)) _ _ (word_of-lt k dead asleep count fits)
          (pow-lt (suc (suc k)) 0 (omega arith)))
        (λ i lt. ground (
          arith,
          test_bit-or i w 1,
          test_bit-or i count 1,
          test_bit-count k dead asleep count fits i lt,
        ))
        (ground
          (arith, test_bit-or k w 1, test_bit-pow 0 k, test_bit-asleep k dead asleep count fits))
        (ground (
          arith,
          test_bit-or (suc k) w 1,
          test_bit-pow 0 (suc k),
          test_bit-dead k dead asleep count fits,
        ))

  abbrev mask : ℕ
  mask = bit_or (2 ^ suc k) (2 ^ k)

  mask-lt : mask < 2 ^ suc (suc k)
  mask-lt =
      bit_or-lt (suc (suc k)) _ _ (pow-lt (suc (suc k)) (suc k) (omega arith))
        (pow-lt (suc (suc k)) k (omega arith))

  test_bit-mask : (i : ℕ) → i < suc (suc k) → test_bit (complement (suc (suc k)) mask) i ≡ ltb i k
  test_bit-mask i lt = ground (
    arith,
    test_bit-complement (suc (suc k)) i mask lt mask-lt,
    test_bit-or i (2 ^ suc k) (2 ^ k),
    test_bit-pow (suc k) i,
    test_bit-pow k i,
  )

  pub count_of : bit_and (word_of k dead asleep count) (complement (suc (suc k)) mask) ≡ count
  count_of =
      word_ext (suc (suc k)) _ count
        (omega (
          arith,
          bit_and-le (suc (suc k)) w (complement (suc (suc k)) mask)
              (word_of-lt k dead asleep count fits),
          word_of-lt k dead asleep count fits,
        ))
        (omega (arith, pow-suc 2 k, pow-suc 2 (suc k)))
        (λ i lt. elim (dec_lt i k) [
          | yes below ↦ ground (
            arith,
            test_bit-and i w (complement (suc (suc k)) mask),
            test_bit-mask i lt,
            test_bit-count k dead asleep count fits i below,
          )
          | no above ↦ ground (
            arith,
            test_bit-and i w (complement (suc (suc k)) mask),
            test_bit-mask i lt,
            test_bit-above k count i fits (omega arith),
          )
        ])
