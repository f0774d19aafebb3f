-- ===== src/Bags/Mpmc/Masks/Window.antt =====
-- The bits of `compute_request_mask` (bags/src/mpmc.rs).
use lockness.Prelude.{
  ℕ, ◌+◌, ◌-◌, ◌%◌, ◌^◌, ◌<◌, min, ◌≡◌, refl, Bool, true, ◌&&◌, ◌==◌, ltb, arith, all_below,
  all_below_sound, Bool-cases, inl, inr, false, if◌then◌else◌,
}
use lockness.Word.Count.{count_ones}
use lockness.Bags.Mpmc.Status.{slot_bit}
use lockness.Bags.Mpmc.Masks.{compute_request_mask}

abbrev same : Bool → Bool → Bool
same a b = if a then b else (if b then Bool.false else true)

-- Cell `i` is asked for if it is one of the first `k` from `bias` on, cyclically.
abbrev pub in_window : ℕ → ℕ → ℕ → Bool
in_window k bias i = ltb i 30 && ltb ((i + 30 - bias) % 30) k

abbrev mask_row : ℕ → ℕ → Bool
mask_row k bias =
    let mask = compute_request_mask 30 (k + 1) bias in
    (mask % 4 == 0)
    && ltb mask (2 ^ 32)
    && (count_ones 32 mask == k + 1)
    && all_below 30 (λ i. same (slot_bit mask i) (in_window (k + 1) bias i))

mask_table : all_below 30 (λ k. all_below 30 (mask_row k)) ≡ true
unfolding all_below compute_request_mask slot_bit count_ones
mask_table = refl

-- A mask of `k` cells, counted cyclically from `bias`.
pub record IsWindow (k bias mask : ℕ) : Type 0 where
  pub fits : mask < 2 ^ 32
  pub no_status : mask % 4 ≡ 0
  pub size : count_ones 32 mask ≡ k
  pub cells : (i : ℕ) → slot_bit mask i ≡ in_window k bias i

slot_bit-above : (mask i : ℕ) → (ltb i 30 ≡ false) → slot_bit mask i ≡ false
unfolding slot_bit
slot_bit-above mask i h = rw h

row-IsWindow :
    (k bias : ℕ)
    → mask_row k bias ≡ true
    → IsWindow (k + 1) bias (compute_request_mask 30 (k + 1) bias)
row-IsWindow k bias h = record {
  fits = ground arith;
  no_status = ground arith;
  size = ground arith;
  cells = λ i. elim (Bool-cases (ltb i 30)) [
    | inl lt ↦ ground (
      arith,
      all_below_sound 30
          (λ i. same (slot_bit (compute_request_mask 30 (k + 1) bias) i) (in_window (k + 1) bias i))
          i,
    )
    | inr ge ↦ rw (slot_bit-above _ i ge, ge)
  ];
}

pub compute_request_mask-min :
    (items bias : ℕ)
    → compute_request_mask 30 items bias ≡ compute_request_mask 30 (min items 30) bias
unfolding compute_request_mask
compute_request_mask-min items bias =
    let e : min (min items 30) 30 ≡ min items 30 = omega arith in rw e

-- For at least one item and a bias below 30, the mask has the bits of as many cells as there are
-- items, at most 30, cyclically from the bias on, and no status bit.
pub compute_request_mask-IsWindow :
    (items bias : ℕ)
    → 0 < items
    → bias < 30
    → IsWindow (min items 30) bias (compute_request_mask 30 items bias)
compute_request_mask-IsWindow items bias pos small =
    let k : ℕ = min items 30 - 1 in
    let e : min items 30 ≡ k + 1 = omega arith in
    rw (compute_request_mask-min items bias, e)
      (row-IsWindow k bias (
        all_below_sound 30 (mask_row k) bias
          (all_below_sound 30 (λ k. all_below 30 (mask_row k)) k mask_table (omega arith)) small))
