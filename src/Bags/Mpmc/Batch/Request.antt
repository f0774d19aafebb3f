-- ===== src/Bags/Mpmc/Batch/Request.antt =====
-- The words of bags/src/mpmc.rs while one batch is on its way.
use lockness.Prelude.{
  ℕ, ◌+◌, ◌-◌, ◌<◌, bit_and, bit_or, min, ◌≡◌, refl, Bool, true, false, ◌&&◌, ltb, ◌==◌, length,
  arith, all_below, all_below_sound,
}
use lockness.Word.Bits.{complement}
use lockness.Bags.Mpmc.Status.{all, slot_bit}
use lockness.Bags.Mpmc.Masks.{compute_request_mask}
use lockness.Bags.Mpmc.Masks.Window.{compute_request_mask-min}
use lockness.Bags.Mpmc.Drain.Order.{cells_from, set_cells}
use lockness.Bags.Mpmc.Batch.Receiving.{cells_of, new_send}

abbrev row_of : ℕ → ℕ → Bool
row_of k r =
    (bit_or 0 r == r)
    && (bit_and (complement 32 (bit_or 0 all)) r == r)
    && ltb 0 r
    && (bit_or all (bit_or r all) == bit_or r all)
    && (bit_and (bit_or r all) all == all)
    && (cells_of (bit_or r all) == r)
    && (new_send true r r == 0)
    && (new_send false r r == 0)
    && (length (set_cells r) == k)

abbrev word_row : ℕ → ℕ → Bool
word_row k bias = row_of (k + 1) (compute_request_mask 30 (k + 1) bias)

word_table : all_below 30 (λ k. all_below 30 (word_row k)) ≡ true
unfolding all_below compute_request_mask slot_bit complement cells_from
word_table = refl

-- A request for `k` cells: nothing else is in the words but what is reserved for it.
pub record IsRequest (k r : ℕ) : Type 0 where
  pub reserving : bit_or 0 r ≡ r
  pub claiming : bit_and (complement 32 (bit_or 0 all)) r ≡ r
  pub positive : ltb 0 r ≡ true
  pub committing : bit_or all (bit_or r all) ≡ bit_or r all
  pub keeping : bit_and (bit_or r all) all ≡ all
  pub receiving : cells_of (bit_or r all) ≡ r
  pub giving_back : (x86 : Bool) → new_send x86 r r ≡ 0
  pub size : length (set_cells r) ≡ k

row-IsRequest : (k r : ℕ) → row_of k r ≡ true → IsRequest k r
row-IsRequest k r h = record {
  reserving = ground arith;
  claiming = ground arith;
  positive = ground arith;
  committing = ground arith;
  keeping = ground arith;
  receiving = ground arith;
  giving_back =
      λ x86. elim x86 as (λ b. new_send b r r ≡ 0) [ true ↦ ground arith | false ↦ ground arith ];
  size = ground arith;
}

pub compute_request_mask-IsRequest :
    (items bias : ℕ)
    → 0 < items
    → bias < 30
    → IsRequest (min items 30) (compute_request_mask 30 items bias)
compute_request_mask-IsRequest items bias pos small =
    let k : ℕ = min items 30 - 1 in
    let e : min items 30 ≡ k + 1 = omega arith in
    rw (compute_request_mask-min items bias, e)
      (row-IsRequest (k + 1) (compute_request_mask 30 (k + 1) bias) (
        all_below_sound 30 (word_row k) bias
          (all_below_sound 30 (λ k. all_below 30 (word_row k)) k word_table (omega arith)) small))
