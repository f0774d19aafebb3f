-- ===== src/Bags/Mpmc/Alone.antt =====
-- The loop of `Sender::try_send` (bags/src/mpmc.rs) that reserves cells, where no other thread
-- takes a step.
use lockness.Prelude.{
  ℕ, zero, suc, ◌/◌, ◌%◌, ◌^◌, ◌<◌, min, bit_and, bit_or, ◌≡◌, refl, sym, ap, ◌∙◌, subst, Bool,
  true, false, ltb, ◌==◌, if◌then◌else◌, arith, inl, inr, Bool-cases, pow-suc,
}
use native.Mathlib.Decide.{dec_lt}
use lockness.Word.Bits.{
  test_bit, complement, word_ext, test_bit-or, test_bit-and, test_bit-complement, bit_or-lt,
  bit_and-le, complement-lt, test_bit-zero,
}
use lockness.Word.Count.{count_ones, count_ones-zero}
use lockness.Machine.Program.{Loc, Prog, ret, ◌>>=◌, Shared, set_word}
use lockness.Machine.Sequential.{Outcome, done, run}
use lockness.Bags.Mpmc.Status.{u32_max, counterparty_dead, all, contains}
use lockness.Bags.Mpmc.Masks.{clear_extra_bits}
use lockness.Bags.Mpmc.Masks.Trim.{Trimmed, clear_extra_bits-Trimmed}
use lockness.Bags.Mpmc.Sender.{Reservation, reserved, dead, no_room, reserve}

count_ones_none : (w x : ℕ) → x < 2 ^ w → count_ones w x ≡ 0 → x ≡ 0
unfolding count_ones
count_ones_none zero x fits e = omega arith
count_ones_none (suc w) x fits e =
    omega (arith, pow-suc 2 w, count_ones_none w (x / 2) (omega (arith, pow-suc 2 w)) (omega arith))

module _ (k mask small : ℕ) where
  Trimmed-size : (b : Bool) → Trimmed b k mask small → count_ones 32 small ≡ k
  Trimmed-size true t = t.size
  Trimmed-size false t = t.size

  Trimmed-fits : (b : Bool) → Trimmed b k mask small → small < 2 ^ 32
  Trimmed-fits true t = t.fits
  Trimmed-fits false t = t.fits

  Trimmed-part :
      (b : Bool)
      → Trimmed b k mask small
      → (i : ℕ) → i < 32
      → test_bit small i ≡ true
      → test_bit mask i ≡ true
  Trimmed-part true t = t.part
  Trimmed-part false t = λ i _. t.part i

-- A part of a word is what it has in common with it.
and-part :
    (x y : ℕ)
    → y < 2 ^ 32
    → x < 2 ^ 32
    → ((i : ℕ) → i < 32 → test_bit y i ≡ true → test_bit x i ≡ true)
    → bit_and x y ≡ y
and-part x y fits small part =
    word_ext 32 _ y (omega (arith, bit_and-le 32 x y small)) fits (λ i lt.
      elim (Bool-cases (test_bit y i)) [
        | inl set ↦ ground (arith, test_bit-and i x y, part i lt set)
        | inr clear ↦ ground (arith, test_bit-and i x y)
      ])

-- A request that takes nothing leaves the same cells taken.
same_slots :
    (w request : ℕ)
    → w < 2 ^ 32
    → request < 2 ^ 32
    → bit_and (complement 32 (bit_or w all)) request ≡ 0
    → bit_or (bit_or w request) all ≡ bit_or w all
same_slots w request fits small e =
    word_ext 32 _ _ (bit_or-lt 32 _ 3 (bit_or-lt 32 w request fits small) (omega arith))
      (bit_or-lt 32 w 3 fits (omega arith))
      (λ i lt.
        let bit = ap (λ x. test_bit x i) e in
        ground (
          arith,
          test_bit-or i (bit_or w request) 3,
          test_bit-or i w request,
          test_bit-or i w 3,
          test_bit-and i (complement 32 (bit_or w 3)) request,
          test_bit-complement 32 i (bit_or w 3) lt (bit_or-lt 32 w 3 fits (omega arith)),
          test_bit-zero i,
        ))

-- The request for the second round takes a cell, if there is one.
next_request :
    (slots items : ℕ) (b : Bool)
    → slots < 2 ^ 32
    → 0 < items
    → (slots == u32_max) ≡ false
    → ltb 0 (bit_and (complement 32 slots) (clear_extra_bits (complement 32 slots) items b)) ≡ true
unfolding complement
next_request slots items b fits pos free =
    let x : ℕ = complement 32 slots in
    let y : ℕ = clear_extra_bits x items b in
    let x_fits : x < 2 ^ 32 = complement-lt 32 slots in
    let k : ℕ = min (count_ones 32 x) items in
    let t : Trimmed b k x y = clear_extra_bits-Trimmed x items b x_fits in
    let same : bit_and x y ≡ y =
      and-part x y (Trimmed-fits k x y b t) x_fits (Trimmed-part k x y b t) in
    let size : count_ones 32 y ≡ k = Trimmed-size k x y b t in
    let some_free : count_ones 32 x ≡ 0 → x ≡ 0 = count_ones_none 32 x x_fits in
    let some_asked : y ≡ 0 → count_ones 32 y ≡ 0 = λ e. ap (count_ones 32) e ∙ count_ones-zero 32 in
    elim (dec_lt 0 y) [
      | yes asked ↦ rw same (ground arith)
      | no nothing ↦
          let y0 : y ≡ 0 = omega arith in
          let c0 : count_ones 32 x ≡ 0 = omega (arith, some_asked y0) in
          let x0 : x ≡ 0 = some_free c0 in absurd (ground (arith, x0))
    ]

module _ {T : Type 0} where
  pub run-reserve :
      (fuel items bias request : ℕ) (s : Shared T)
      → run (reserve (suc fuel) items bias request) s
        ≡ run
            (if contains (s.word Loc.send) counterparty_dead
              then ret dead
              else if bit_or (s.word Loc.send) all == u32_max
              then ret no_room
              else if ltb 0 (bit_and (complement 32 (bit_or (s.word Loc.send) all)) request)
              then ret (reserved (bit_and (complement 32 (bit_or (s.word Loc.send) all)) request))
              else reserve fuel items bias (
                  clear_extra_bits
                    (complement 32 (bit_or (s.word Loc.send) all))
                    items
                    (bias % 2 == 0)))
            (set_word s Loc.send (bit_or (s.word Loc.send) request))
  unfolding run reserve ◌>>=◌
  run-reserve fuel items bias request s = refl

  abbrev pub Returns : {A : Type 0} → Outcome T A → Type 0
  Returns {A} o = (a : A) × (s' : Shared T) × (o ≡ done a s')

  chosen :
      (a b c : Bool) (v : ℕ) (p : Prog T Reservation) (s : Shared T)
      → (a ≡ false → b ≡ false → c ≡ false → Returns (run p s))
      → Returns (
          run
            (if a then ret dead else if b then ret no_room else if c then ret (reserved v) else p)
            s)
  unfolding run
  chosen true b c v p s r = (dead, s, refl)
  chosen false true c v p s r = (no_room, s, refl)
  chosen false false true v p s r = (reserved v, s, refl)
  chosen false false false v p s r = r refl refl refl

  -- A round returns, unless there is a free cell and it takes none.
  reserve_round :
      (fuel items bias request : ℕ) (s : Shared T)
      → ((bit_or (s.word Loc.send) all == u32_max) ≡ false
          → ltb 0 (bit_and (complement 32 (bit_or (s.word Loc.send) all)) request) ≡ false
          → Returns (
              run
                (reserve fuel items bias (
                  clear_extra_bits
                    (complement 32 (bit_or (s.word Loc.send) all))
                    items
                    (bias % 2 == 0)))
                (set_word s Loc.send (bit_or (s.word Loc.send) request))))
      → Returns (run (reserve (suc fuel) items bias request) s)
  reserve_round fuel items bias request s next =
      subst Returns (sym (run-reserve fuel items bias request s))
        (chosen _ _ _ _ _ _ (λ _ free nothing. next free nothing))

  -- Where no other thread takes a step, the loop that reserves cells for at least one item ends
  -- within two rounds.
  pub reserve_alone :
      (fuel items bias request : ℕ) (s : Shared T)
      → s.word Loc.send < 2 ^ 32
      → request < 2 ^ 32
      → 0 < items
      → Returns (run (reserve (suc (suc fuel)) items bias request) s)
  reserve_alone fuel items bias request s fits small pos =
      let w : ℕ = s.word Loc.send in
      let slots : ℕ = bit_or w all in
      reserve_round (suc fuel) items bias request s (λ free nothing.
        reserve_round fuel items bias (clear_extra_bits (complement 32 slots) items (bias % 2 == 0))
          _
          (λ _ nothing'.
            let same : bit_or (bit_or w request) all ≡ slots =
              same_slots w request fits small (ground arith) in
            let taken =
              next_request slots items (bias % 2 == 0) (bit_or-lt 32 w 3 fits (omega arith)) pos
                free in
            absurd (ground (arith, same, taken))))
