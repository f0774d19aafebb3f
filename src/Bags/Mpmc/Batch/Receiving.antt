-- ===== src/Bags/Mpmc/Batch/Receiving.antt =====
-- `try_recv` and the drop of `Inner` of bags/src/mpmc.rs, where no other thread takes a step.
use lockness.Prelude.{
  ℕ, zero, suc, ◌≤◌, bit_and, ◌≡◌, refl, ap, ◌∙◌, Bool, true, false, ◌&&◌, ◌==◌, if◌then◌else◌,
  none, List, [], length, arith, inl, inr, Bool-cases,
}
use lockness.Word.Bits.{complement}
use lockness.Machine.Program.{Loc, Prog, ret, ◌>>=◌, ◌>>◌, Shared, set_word}
use lockness.Machine.Access.{swap, fetch_and, wake_if}
use lockness.Machine.Sequential.{done, run, continue_with, run->>=}
use lockness.Machine.Waking.{woken, woken-word, woken-cell, run-wake_if}
use lockness.Bags.Mpmc.Status.{n, all, sleeping, contains, slot_bit}
use lockness.Bags.Mpmc.Receiver.{
  TryRecv, received, collect, release, take_claimed, after_claim, try_recv,
}
use lockness.Bags.Mpmc.Handles.{drop_cell, drop_inner}
use lockness.Bags.Mpmc.Drain.{drain_mask}
use lockness.Bags.Mpmc.Drain.Order.{cells_from, set_cells, drain_mask-for_each}
use lockness.Bags.Mpmc.Batch.Memory.{
  Filled, in_list, empty_all, empty_all-word, empty_all-none, cells_from-Ascending,
}
use lockness.Bags.Mpmc.Batch.Cells.{run-drop_cell, run-collect}

cells_from-length : (k i mask : ℕ) → length (cells_from k i mask) ≤ k
unfolding cells_from
cells_from-length zero i mask = omega arith
cells_from-length (suc k) i mask = elim (Bool-cases (slot_bit mask i)) [
  | inl set ↦ rw set (omega (arith, cells_from-length k (suc i) mask))
  | inr clear ↦ rw clear (omega (arith, cells_from-length k (suc i) mask))
]

-- The cells that a word of status bits and reservations has.
abbrev pub cells_of : ℕ → ℕ
cells_of w = bit_and w (complement 32 all)

-- The word `send` after the cells of `claimed` are given back.
abbrev pub given_back : ℕ → ℕ
given_back claimed = bit_and (complement 32 claimed) (complement 32 all)

abbrev pub swaps : Bool → ℕ → Bool
swaps x86 claimed = x86 && given_back claimed == 0

abbrev pub new_send : Bool → ℕ → ℕ → ℕ
new_send x86 claimed w =
    if swaps x86 claimed then given_back claimed else bit_and w (given_back claimed)

module _ {T : Type 0} where
  pub drain-run :
      {A S : Type 0} (f : ℕ → S → Prog T S) (mask : ℕ) (s s' : S) (m m' : Shared T)
      (g : S → Prog T A)
      → run (drain_mask n f mask s) m ≡ done s' m'
      → run (drain_mask n f mask s >>= g) m ≡ run (g s') m'
  unfolding continue_with
  drain-run f mask s s' m m' g e =
      run->>= (drain_mask n f mask s) g m ∙ ap (λ o. continue_with o (λ s' m'. run (g s') m')) e

  run-drop_inner :
      (m : Shared T)
      → run drop_inner m
        ≡ run
            (drain_mask n drop_cell (cells_of (m.word Loc.recv)) [])
            (set_word m Loc.recv (m.word Loc.recv))
  unfolding run drop_inner ◌>>=◌
  run-drop_inner m = refl

  -- The drop of a channel whose committed cells hold the values `vs` drops these and no others, each
  -- once, in the order of the cells.
  pub drop_inner-Filled :
      (m : Shared T) (vs : List T)
      → Filled (set_cells (cells_of (m.word Loc.recv))) vs m.cell
      → (m' : Shared T) × (run drop_inner m ≡ done vs m')
  drop_inner-Filled m vs filled = (
    empty_all (set_cells (cells_of (m.word Loc.recv))) (set_word m Loc.recv (m.word Loc.recv)),
    run-drop_inner m
        ∙ ap (λ p. run p (set_word m Loc.recv (m.word Loc.recv)))
            (drain_mask-for_each drop_cell (cells_of (m.word Loc.recv)) [])
        ∙ run-drop_cell 0 (set_cells (cells_of (m.word Loc.recv))) vs []
            (set_word m Loc.recv (m.word Loc.recv))
            (cells_from-Ascending n 0 (cells_of (m.word Loc.recv))) filled,
  )

  run-release :
      {A : Type 0} (x86 : Bool) (claimed : ℕ) (g : ℕ → Prog T A) (m : Shared T)
      → run (release x86 claimed >>= g) m
        ≡ run (g (m.word Loc.send)) (set_word m Loc.send (new_send x86 claimed (m.word Loc.send)))
  unfolding release ◌>>=◌ run
  run-release x86 claimed g m = by_swap (swaps x86 claimed)
    where
      by_swap :
          (b : Bool)
          → run
              ((if b
                  then swap Loc.send (given_back claimed)
                  else fetch_and Loc.send (given_back claimed))
                >>= g)
              m
            ≡ run (g (m.word Loc.send)) (
                set_word m Loc.send (
                  if b then given_back claimed else bit_and (m.word Loc.send) (given_back claimed)))
      by_swap true = refl
      by_swap false = refl

  -- The end of `take_claimed`, with the values taken.
  abbrev return_claimed : Bool → ℕ → List T → Prog T (TryRecv T)
  return_claimed x86 claimed values = release x86 claimed >>= λ prev.
      wake_if (contains prev sleeping) Loc.send 1 >> ret (received values)

  abbrev left_by : Bool → ℕ → Shared T → Shared T
  left_by x86 claimed m =
      woken (contains (m.word Loc.send) sleeping) Loc.send 1
        (set_word m Loc.send (new_send x86 claimed (m.word Loc.send)))

  run-return_claimed :
      (x86 : Bool) (claimed : ℕ) (values : List T) (m : Shared T)
      → run (return_claimed x86 claimed values) m ≡ done (received values) (left_by x86 claimed m)
  run-return_claimed x86 claimed values m =
      run-release x86 claimed
        (λ prev. wake_if (contains prev sleeping) Loc.send 1 >> ret (received values)) m
      ∙ run-wake_if (contains (m.word Loc.send) sleeping) Loc.send 1 (received values)
          (set_word m Loc.send (new_send x86 claimed (m.word Loc.send)))

  take_claimed-eq :
      (x86 : Bool) (claimed : ℕ)
      → take_claimed x86 claimed ≡ (drain_mask n collect claimed [] >>= return_claimed x86 claimed)
  unfolding take_claimed
  take_claimed-eq x86 claimed = refl

  run-try_recv :
      (x86 : Bool) (m : Shared T)
      → run (try_recv x86) m
        ≡ run
            (after_claim x86 (m.word Loc.recv))
            (set_word m Loc.recv (bit_and (m.word Loc.recv) all))
  unfolding run try_recv ◌>>=◌
  run-try_recv x86 m = refl

  after_claim-some :
      (x86 : Bool) (w : ℕ)
      → (cells_of w == 0) ≡ false
      → after_claim {T = T} x86 w ≡ take_claimed x86 (cells_of w)
  unfolding after_claim
  after_claim-some x86 w e = rw e refl

  run-take_claimed :
      (x86 : Bool) (claimed : ℕ) (vs : List T) (m : Shared T)
      → Filled (set_cells claimed) vs m.cell
      → run (take_claimed x86 claimed) m
        ≡ done (received vs) (left_by x86 claimed (empty_all (set_cells claimed) m))
  run-take_claimed x86 claimed vs m filled =
      ap (λ p. run p m) (take_claimed-eq x86 claimed)
      ∙ drain-run collect claimed [] vs m (empty_all (set_cells claimed) m)
          (return_claimed x86 claimed)
          (ap (λ p. run p m) (drain_mask-for_each collect claimed [])
            ∙ run-collect 0 (set_cells claimed) vs [] m (cells_from-Ascending n 0 claimed) filled
                (omega (arith, cells_from-length n 0 claimed)))
      ∙ run-return_claimed x86 claimed vs (empty_all (set_cells claimed) m)

  -- `try_recv`, alone, where some cells are committed and these hold the values `vs`, returns `vs`,
  -- in the order of the cells, clears the bits of the cells in `recv` and gives the cells back in
  -- `send`; a cell that was empty or one of these is empty.
  pub try_recv-Filled :
      (x86 : Bool) (m : Shared T) (vs : List T)
      → (cells_of (m.word Loc.recv) == 0) ≡ false
      → Filled (set_cells (cells_of (m.word Loc.recv))) vs m.cell
      → (m' : Shared T) × (run (try_recv x86) m ≡ done (received vs) m')
        × (m'.word Loc.recv ≡ bit_and (m.word Loc.recv) all)
        × (m'.word Loc.send ≡ new_send x86 (cells_of (m.word Loc.recv)) (m.word Loc.send))
        × ((j : ℕ)
            → (in_list j (set_cells (cells_of (m.word Loc.recv))) ≡ false → m.cell j ≡ none)
            → m'.cell j ≡ none)
  try_recv-Filled x86 m vs committed filled =
      let claimed = cells_of (m.word Loc.recv) in
      let m₁ = set_word m Loc.recv (bit_and (m.word Loc.recv) all) in
      let m₂ = empty_all (set_cells claimed) m₁ in
      let words : m₂.word ≡ m₁.word = empty_all-word (set_cells claimed) m₁ in
      let wakes : Bool = contains (m₂.word Loc.send) sleeping in
      let m₃ = set_word m₂ Loc.send (new_send x86 claimed (m₂.word Loc.send)) in
      (
        left_by x86 claimed m₂,
        run-try_recv x86 m
            ∙ ap (λ p. run p m₁) (after_claim-some x86 (m.word Loc.recv) committed)
            ∙ run-take_claimed x86 claimed vs m₁ filled,
        woken-word wakes Loc.send 1 m₃ Loc.recv ∙ ap (λ w. w Loc.recv) words,
        woken-word wakes Loc.send 1 m₃ Loc.send ∙ ap (λ w. new_send x86 claimed (w Loc.send)) words,
        λ j e. woken-cell wakes Loc.send 1 m₃ j ∙ empty_all-none (set_cells claimed) m₁ j e,
      )
