-- ===== src/Bags/Mpmc/Protocol/Drain.antt =====
-- The rule for `drain_mask`, and the three closures that the source gives it.
use lockness.Prelude.{
  ℕ, zero, suc, ◌+◌, ◌^◌, ◌≤◌, ◌<◌, ◌≡◌, refl, true, false, leb, ltb, arith, inl, inr, Bool-cases,
  List, [], ◌∷◌, ◌++◌, length, length-append, some, none,
}
use lockness.Word.Count.{count_ones}
use lockness.Word.LeadingZeros.{leading_zeros}
use lockness.Machine.Program.{Prog, ret, write}
use lockness.Bags.Mpmc.Status.{n, slot_bit}
use lockness.Bags.Mpmc.Status.Cells.{
  slot_bit-leading_zeros, no_cells, slot_bit-clear_bit, clear_bit-lt, leading_zeros-clear_bit,
  count_ones-clear_bit,
}
use lockness.Bags.Mpmc.Drain.{clear_bit, drain_loop, drain_mask}
use lockness.Bags.Mpmc.Buffer.{Container, items_of, take}
use lockness.Bags.Mpmc.Sender.{fill}
use lockness.Bags.Mpmc.Receiver.{collect}
use lockness.Bags.Mpmc.Handles.{drop_cell}
use lockness.Bags.Mpmc.Protocol.Obeys.{Held, empty, full, put, Obeys, Obeys->>=, Obeys_mono}

module _ {T S : Type 0} (f : ℕ → S → Prog T S) (P : ℕ → S → Held → Type 0) where
  -- The invariant `P` of the mask that is left, the state and the cells held is kept by a round.
  abbrev pub Keeps : Type 0
  Keeps =
      (mask : ℕ) (s : S) (h : Held)
      → P mask s h
      → leb n (leading_zeros 32 mask) ≡ false
      → Obeys (f (leading_zeros 32 mask) s) h
          (λ s' h'. P (clear_bit mask (leading_zeros 32 mask)) s' h')

  -- The invariant at the end, when no cell of the mask is left.
  abbrev pub Drained : S → Held → Type 0
  Drained s h = (mask : ℕ) × P mask s h × ((i : ℕ) → slot_bit mask i ≡ false)

  drain_loop-Obeys :
      Keeps
      → (fuel mask : ℕ) (s : S) (h : Held) → P mask s h
      → Obeys (drain_loop n f fuel mask s) h Drained
  unfolding drain_loop
  drain_loop-Obeys keep zero mask s h p = tt
  drain_loop-Obeys keep (suc fuel) mask s h p = elim (Bool-cases (leb n (leading_zeros 32 mask))) [
    | inl last ↦ rw last (mask, p, no_cells mask last)
    | inr more ↦ rw more (
        Obeys->>= (f (leading_zeros 32 mask) s) _ h Drained (
          Obeys_mono (f (leading_zeros 32 mask) s) h _ _
            (λ s' h' p'.
              drain_loop-Obeys keep fuel (clear_bit mask (leading_zeros 32 mask)) s' h' p')
            (keep mask s h p more)))
  ]

  pub drain_mask-Obeys :
      Keeps → (mask : ℕ) (s : S) (h : Held) → P mask s h → Obeys (drain_mask n f mask s) h Drained
  unfolding drain_mask
  drain_mask-Obeys keep mask s h p = drain_loop-Obeys keep (suc n) mask s h p

module _ {T : Type 0} where
  -- While cells are filled: those left to fill are held empty, the others of `c` full.
  pub record Filling (c : ℕ) (h₀ : Held) (mask : ℕ) (data' : Container T) (h : Held) : Type 0 where
    pub fits : mask < 2 ^ 32
    pub enough : count_ones 32 mask ≤ length (items_of data')
    pub part : (i : ℕ) → slot_bit mask i ≡ true → slot_bit c i ≡ true
    pub left : (i : ℕ) → slot_bit mask i ≡ true → h i ≡ empty
    pub filled : (i : ℕ) → slot_bit mask i ≡ false → slot_bit c i ≡ true → h i ≡ full
    pub others : (i : ℕ) → slot_bit c i ≡ false → h i ≡ h₀ i

  -- A container with an item hands one over.
  pub take_lem :
      (d : Container T)
      → 0 < length (items_of d)
      → (v : T) × (r : Container T) × (take d ≡ some (v, r))
        × (length (items_of d) ≡ suc (length (items_of r)))
  unfolding take items_of
  take_lem (Container.option none) p = absurd (omega arith)
  take_lem (Container.option (some v)) p = (v, Container.option none, refl, refl)
  take_lem (Container.vec []) p = absurd (omega arith)
  take_lem (Container.vec (v ∷ l)) p = (v, Container.vec l, refl, refl)
  take_lem (Container.array_vec []) p = absurd (omega arith)
  take_lem (Container.array_vec (v ∷ l)) p = (v, Container.array_vec l, refl, refl)

  pub fill-some :
      (i : ℕ) (d : Container T) (v : T) (r : Container T)
      → take d ≡ some (v, r)
      → fill i d ≡ write i v (ret r)
  unfolding fill
  fill-some i d v r e = rw (e, fill)

  pub fill-Keeps : (c : ℕ) (h₀ : Held) → Keeps fill (Filling c h₀)
  fill-Keeps c h₀ mask data' h p more =
      let z : ℕ = leading_zeros 32 mask in
      let here : slot_bit mask z ≡ true = slot_bit-leading_zeros mask more in
      let lt : z < n = ground arith in
      let fewer : count_ones 32 (clear_bit mask z) + 1 ≡ count_ones 32 mask =
        count_ones-clear_bit mask z lt here in
      let (v, r, e, d) = take_lem data' (omega (arith, p.enough)) in
      rw (fill-some z data' v r e) (
        p.left z here,
        record {
          fits = clear_bit-lt mask z p.fits;
          enough = omega (arith, p.enough);
          part = λ i s. ground (arith, slot_bit-clear_bit mask z i lt, p.part i);
          left = λ i s. ground (arith, slot_bit-clear_bit mask z i lt, p.left i);
          filled = λ i s t. ground (arith, slot_bit-clear_bit mask z i lt, p.filled i);
          others = λ i s. ground (arith, p.others i, p.part i);
        },
      )

  -- While cells are emptied.
  pub record Emptying (c : ℕ) (h₀ : Held) (mask : ℕ) (values : List T) (h : Held) : Type 0 where
    pub room : length values ≤ leading_zeros 32 mask
    pub part : (i : ℕ) → slot_bit mask i ≡ true → slot_bit c i ≡ true
    pub left : (i : ℕ) → slot_bit mask i ≡ true → h i ≡ full
    pub emptied : (i : ℕ) → slot_bit mask i ≡ false → slot_bit c i ≡ true → h i ≡ empty
    pub others : (i : ℕ) → slot_bit c i ≡ false → h i ≡ h₀ i

  Emptying-next :
      (c : ℕ) (h₀ : Held) (mask : ℕ) (values : List T) (v : T) (h : Held)
      → Emptying c h₀ mask values h
      → leb n (leading_zeros 32 mask) ≡ false
      → Emptying c h₀
          (clear_bit mask (leading_zeros 32 mask))
          (values ++ v ∷ [])
          (put h (leading_zeros 32 mask) empty)
  Emptying-next c h₀ mask values v h p more =
      let z : ℕ = leading_zeros 32 mask in
      let here : slot_bit mask z ≡ true = slot_bit-leading_zeros mask more in
      let lt : z < n = ground arith in
      record {
        room =
            omega (arith, p.room, leading_zeros-clear_bit mask more, length-append values (v ∷ []));
        part = λ i s. ground (arith, slot_bit-clear_bit mask z i lt, p.part i);
        left = λ i s. ground (arith, slot_bit-clear_bit mask z i lt, p.left i);
        emptied = λ i s t. ground (arith, slot_bit-clear_bit mask z i lt, p.emptied i);
        others = λ i s. ground (arith, p.others i, p.part i);
      }

  pub collect-Keeps : (c : ℕ) (h₀ : Held) → Keeps collect (Emptying c h₀)
  unfolding collect
  collect-Keeps c h₀ mask values h p more =
      let here : slot_bit mask (leading_zeros 32 mask) ≡ true = slot_bit-leading_zeros mask more in
      let fits : ltb (length values) n ≡ true = ground (arith, p.room) in
      (
        p.left (leading_zeros 32 mask) here,
        λ v. rw fits (Emptying-next c h₀ mask values v h p more),
      )

  pub drop_cell-Keeps : (c : ℕ) (h₀ : Held) → Keeps drop_cell (Emptying c h₀)
  unfolding drop_cell
  drop_cell-Keeps c h₀ mask values h p more =
      let here : slot_bit mask (leading_zeros 32 mask) ≡ true = slot_bit-leading_zeros mask more in
      (p.left (leading_zeros 32 mask) here, λ v. Emptying-next c h₀ mask values v h p more)
