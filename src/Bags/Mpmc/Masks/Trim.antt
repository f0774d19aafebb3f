-- ===== src/Bags/Mpmc/Masks/Trim.antt =====
-- The bits of `clear_extra_bits` (bags/src/mpmc.rs).
use lockness.Prelude.{
  ℕ, zero, suc, ◌-◌, ◌^◌, ◌≤◌, ◌<◌, min, ◌≡◌, refl, ap, sym, ◌∙◌, Bool, true, false, ltb, lt→ltb,
  arith,
}
use native.Mathlib.Decide.{dec_lt}
use lockness.Word.Bits.{test_bit}
use lockness.Word.Count.{
  count_ones, reverse_bits, clear_lowest, count_ones-clear_lowest, clear_lowest-le, count_ones-zero,
  count_ones-reverse_bits, reverse_bits-lt, test_bit-clear_lowest, test_bit-reverse_bits,
  clear_lowest_upward,
}
use lockness.Bags.Mpmc.Masks.{clear_loop, clear_extra_bits}

-- `small` is part of `mask`, has `k` bits, and no bit of `mask` above one of its own is missing.
pub record IsTop (k mask small : ℕ) : Type 0 where
  pub size : count_ones 32 small ≡ k
  pub fits : small < 2 ^ 32
  pub part : (i : ℕ) → test_bit small i ≡ true → test_bit mask i ≡ true
  pub upward :
      (i j : ℕ) → i ≤ j → test_bit small i ≡ true → test_bit mask j ≡ true → test_bit small j ≡ true

IsTop-trans : {k l a b c : ℕ} → IsTop k a b → IsTop l b c → IsTop l a c
IsTop-trans p q = record {
  size = q.size;
  fits = q.fits;
  part = λ i h. p.part i (q.part i h);
  upward = λ i j le h m. q.upward i j le h (p.upward i j le (q.part i h) m);
}

positive : (x : ℕ) → 0 < count_ones 32 x → 0 < x
positive zero h = absurd (omega (arith, count_ones-zero 32))
positive (suc x) h = omega arith

IsTop-clear_lowest :
    (k mask : ℕ) → mask < 2 ^ 32 → count_ones 32 mask ≡ suc k → IsTop k mask (clear_lowest mask)
IsTop-clear_lowest k mask fits e =
    let pos : 0 < mask = positive mask (omega arith) in
    record {
      size = omega (arith, count_ones-clear_lowest 32 mask pos fits);
      fits = omega (arith, clear_lowest-le 32 mask fits);
      part = test_bit-clear_lowest mask;
      upward = clear_lowest_upward 32 mask fits;
    }

pub clear_loop-IsTop :
    (left max mask : ℕ)
    → mask < 2 ^ 32
    → count_ones 32 mask ≡ left
    → IsTop (min left max) mask (clear_loop left max mask)
unfolding clear_loop
clear_loop-IsTop zero max mask fits e = record {
  size = omega arith;
  fits = fits;
  part = λ i h. h;
  upward = λ i j le h m. m;
}
clear_loop-IsTop (suc left) max mask fits e = elim (dec_lt max (suc left)) [
  | yes more ↦
      let step : IsTop left mask (clear_lowest mask) = IsTop-clear_lowest left mask fits e in
      let m : min (suc left) max ≡ min left max = omega arith in
      rw (lt→ltb _ _ more, m)
        (IsTop-trans step (clear_loop-IsTop left max (clear_lowest mask) step.fits step.size))
  | no few ↦
      let f : ltb max (suc left) ≡ false = ground arith in
      rw f (record { size = omega arith; fits = fits; part = λ i h. h; upward = λ i j le h m. m })
]

-- `IsTop` with the bits counted from the other end.
pub record IsBottom (k mask small : ℕ) : Type 0 where
  pub size : count_ones 32 small ≡ k
  pub fits : small < 2 ^ 32
  pub part : (i : ℕ) → i < 32 → test_bit small i ≡ true → test_bit mask i ≡ true
  pub downward :
      (i j : ℕ)
      → i ≤ j
      → j < 32
      → test_bit small j ≡ true
      → test_bit mask i ≡ true
      → test_bit small i ≡ true

turn : (x i : ℕ) → i < 32 → test_bit x i ≡ true → test_bit (reverse_bits 32 x) (32 - 1 - i) ≡ true
turn x i lt h =
    let e : 32 - 1 - (32 - 1 - i) ≡ i = omega arith in
    test_bit-reverse_bits 32 x (32 - 1 - i) (omega arith) ∙ ap (test_bit x) e ∙ h

turn_back :
    (x i : ℕ) → i < 32 → test_bit (reverse_bits 32 x) i ≡ true → test_bit x (32 - 1 - i) ≡ true
turn_back x i lt h = sym (test_bit-reverse_bits 32 x i lt) ∙ h

turn_once :
    (x i : ℕ) → i < 32 → test_bit (reverse_bits 32 x) (32 - 1 - i) ≡ true → test_bit x i ≡ true
turn_once x i lt h =
    let e : 32 - 1 - (32 - 1 - i) ≡ i = omega arith in
    ap (test_bit x) (sym e) ∙ turn_back x (32 - 1 - i) (omega arith) h

IsTop-turned :
    {k mask small : ℕ}
    → IsTop k (reverse_bits 32 mask) small
    → IsBottom k mask (reverse_bits 32 small)
IsTop-turned {mask} {small} t = record {
  size = count_ones-reverse_bits 32 small ∙ t.size;
  fits = reverse_bits-lt 32 small;
  part = λ i lt h. turn_once mask i lt (t.part (32 - 1 - i) (turn_back small i lt h));
  downward = λ i j le lt h m.
      let p : i < 32 = omega arith in
      test_bit-reverse_bits 32 small i p
      ∙ t.upward (32 - 1 - j) (32 - 1 - i) (omega arith) (turn_back small j lt h) (turn mask i p m);
}

-- With `direction` false the highest bits are kept, with `direction` true the lowest.
abbrev pub Trimmed : Bool → ℕ → ℕ → ℕ → Type 0
Trimmed false k mask small = IsTop k mask small
Trimmed true k mask small = IsBottom k mask small

-- Of the bits of a 32-bit mask as many as are allowed are kept: the lowest if `direction`, the
-- highest if not.
pub clear_extra_bits-Trimmed :
    (mask max : ℕ) (direction : Bool)
    → mask < 2 ^ 32
    → Trimmed direction (min (count_ones 32 mask) max) mask (clear_extra_bits mask max direction)
unfolding clear_extra_bits
clear_extra_bits-Trimmed mask max false fits = clear_loop-IsTop _ max mask fits refl
clear_extra_bits-Trimmed mask max true fits =
    IsTop-turned
      (clear_loop-IsTop _ max _ (reverse_bits-lt 32 mask) (count_ones-reverse_bits 32 mask))
