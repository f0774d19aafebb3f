-- ===== src/Bags/Mpmc/Drain/Order.antt =====
-- `drain_mask` of bags/src/mpmc.rs against a loop over the list of the set cells.
use lockness.Prelude.{
  ℕ, zero, suc, ◌+◌, ◌<◌, ◌≡◌, refl, sym, ap, ◌∙◌, subst, fun_ext, true, false, leb, if◌then◌else◌,
  List, [], ◌∷◌, arith, inl, inr, Bool-cases,
}
use native.Mathlib.Decide.{dec_lt}
use lockness.Word.LeadingZeros.{leading_zeros}
use lockness.Machine.Program.{Prog, ret, ◌>>=◌}
use lockness.Bags.Mpmc.Status.{n, slot_bit}
use lockness.Bags.Mpmc.Status.Cells.{
  slot_bit-leading_zeros, slot_bit-below, slot_bit-range, slot_bit-clear_bit,
}
use lockness.Bags.Mpmc.Drain.{clear_bit, drain_loop, drain_mask}

-- The cells `i` to `i + k - 1` whose bits are set.
unfoldable pub cells_from : ℕ → ℕ → ℕ → List ℕ
cells_from zero i mask = []
cells_from (suc k) i mask =
    let rest = cells_from k (suc i) mask in if slot_bit mask i then i ∷ rest else rest

abbrev pub set_cells : ℕ → List ℕ
set_cells mask = cells_from n 0 mask

unfoldable pub for_each : {T S : Type 0} → (ℕ → S → Prog T S) → List ℕ → S → Prog T S
unfolding ◌>>=◌
for_each f [] s = ret s
for_each f (i ∷ l) s = f i s >>= λ s'. for_each f l s'

-- The first set cell is the number of leading zeros.
first_cell :
    (mask i : ℕ)
    → ((j : ℕ) → j < i → slot_bit mask j ≡ false)
    → slot_bit mask i ≡ true
    → leading_zeros 32 mask ≡ i
first_cell mask i none_below here = elim (dec_lt (leading_zeros 32 mask) i) [
  | yes below ↦
      let in_bag = slot_bit-range mask i here in
      absurd (
        let found = slot_bit-leading_zeros mask (ground arith) in
        let clear = none_below (leading_zeros 32 mask) below in cc)
  | no above ↦ elim (dec_lt i (leading_zeros 32 mask)) [
    | yes beyond ↦ absurd (let clear = slot_bit-below mask i beyond in cc)
    | no same ↦ omega arith
  ]
]

no_first_cell :
    (mask : ℕ) → ((j : ℕ) → j < n → slot_bit mask j ≡ false) → leb n (leading_zeros 32 mask) ≡ true
no_first_cell mask clear = elim (Bool-cases (leb n (leading_zeros 32 mask))) [
  | inl past ↦ past
  | inr within ↦ absurd (
      let found = slot_bit-leading_zeros mask within in
      let not_found = clear (leading_zeros 32 mask) (ground arith) in cc)
]

no_more : (i mask : ℕ) → cells_from zero i mask ≡ []
unfolding cells_from
no_more i mask = refl

pub one_more :
    (k i mask : ℕ)
    → slot_bit mask i ≡ true
    → cells_from (suc k) i mask ≡ i ∷ cells_from k (suc i) mask
unfolding cells_from
one_more k i mask e = rw e refl

pub none_more :
    (k i mask : ℕ) → slot_bit mask i ≡ false → cells_from (suc k) i mask ≡ cells_from k (suc i) mask
unfolding cells_from
none_more k i mask e = rw e refl

cells_from-clear_bit :
    (k i z mask : ℕ) → z < i → z < n → cells_from k i (clear_bit mask z) ≡ cells_from k i mask
unfolding cells_from
cells_from-clear_bit zero i z mask lt small = refl
cells_from-clear_bit (suc k) i z mask lt small =
    let same : slot_bit (clear_bit mask z) i ≡ slot_bit mask i =
      ground (arith, slot_bit-clear_bit mask z i small) in
    rw (same, cells_from-clear_bit k (suc i) z mask (omega arith) small) refl

module _ {T S : Type 0} (f : ℕ → S → Prog T S) where
  last_round :
      (fuel mask : ℕ) (s : S)
      → leb n (leading_zeros 32 mask) ≡ true
      → drain_loop n f (suc fuel) mask s ≡ ret s
  unfolding drain_loop
  last_round fuel mask s last = rw last refl

  next_round :
      (fuel mask i : ℕ) (s : S)
      → leading_zeros 32 mask ≡ i
      → leb n i ≡ false
      → drain_loop n f (suc fuel) mask s
        ≡ (f i s >>= λ s'. drain_loop n f fuel (clear_bit mask i) s')
  unfolding drain_loop
  next_round fuel mask i s e more = rw (e, more) refl

  for_each-cons :
      (i : ℕ) (l : List ℕ) (s : S) → for_each f (i ∷ l) s ≡ (f i s >>= λ s'. for_each f l s')
  unfolding for_each
  for_each-cons i l s = refl

  for_each-nil : (s : S) → for_each f [] s ≡ ret s
  unfolding for_each
  for_each-nil s = refl

  drain_loop-for_each :
      (k fuel i mask : ℕ) (s : S)
      → k + i ≡ n
      → k < fuel
      → ((j : ℕ) → j < i → slot_bit mask j ≡ false)
      → drain_loop n f fuel mask s ≡ for_each f (cells_from k i mask) s
  drain_loop-for_each k zero i mask s sum enough clear = absurd (omega arith)
  drain_loop-for_each zero (suc fuel) i mask s sum enough clear =
      last_round fuel mask s (no_first_cell mask (λ j lt. clear j (omega arith)))
      ∙ sym (for_each-nil s)
      ∙ ap (λ l. for_each f l s) (sym (no_more i mask))
  drain_loop-for_each (suc k) (suc fuel) i mask s sum enough clear =
      elim (Bool-cases (slot_bit mask i)) [
        | inl set ↦
            next_round fuel mask i s (first_cell mask i clear set) (ground arith)
            ∙ ap (λ g. f i s >>= g)
                (fun_ext λ s'.
                  drain_loop-for_each k fuel (suc i) (clear_bit mask i) s' (omega arith)
                    (omega arith) (λ j lt. ground (arith, slot_bit-clear_bit mask i j, clear j))
                  ∙ ap (λ l. for_each f l s')
                      (cells_from-clear_bit k (suc i) i mask (omega arith) (omega arith)))
            ∙ sym (for_each-cons i (cells_from k (suc i) mask) s)
            ∙ ap (λ l. for_each f l s) (sym (one_more k i mask set))
        | inr unset ↦
            drain_loop-for_each k (suc fuel) (suc i) mask s (omega arith) (omega arith) (λ j lt.
              elim (dec_lt j i) [
                | yes below ↦ clear j below
                | no here ↦
                    let e : j ≡ i = omega arith in
                    subst (λ j. slot_bit mask j ≡ false) (sym e) unset
              ])
            ∙ ap (λ l. for_each f l s) (sym (none_more k i mask unset))
      ]

  -- `drain_mask` calls its closure once for each set cell, in ascending order, and ends.
  pub drain_mask-for_each :
      (mask : ℕ) (s : S) → drain_mask n f mask s ≡ for_each f (set_cells mask) s
  unfolding drain_mask
  drain_mask-for_each mask s =
      drain_loop-for_each n (suc n) 0 mask s refl (omega arith) (λ j lt. absurd (omega arith))
