-- ===== src/Bags/Mpmc/Batch/Memory.antt =====
-- Lists of cells of the bag of bags/src/mpmc.rs, and the memory in which they are filled or emptied.
use lockness.Prelude.{
  ℕ, zero, suc, ◌≤◌, ◌<◌, ◌≡◌, refl, ◌∙◌, Bool, true, false, ◌||◌, ◌==◌, if◌then◌else◌, Option,
  none, some, List, [], ◌∷◌, length, arith, inl, inr, Bool-cases,
}
use lockness.Machine.Program.{Shared, set_cell}
use lockness.Bags.Mpmc.Status.{slot_bit}
use lockness.Bags.Mpmc.Drain.Order.{cells_from}

abbrev pub in_list : ℕ → List ℕ → Bool
in_list j [] = false
in_list j (i ∷ l) = i == j || in_list j l

-- The cells of a list lie in ascending order, from `i` on.
abbrev pub Ascending : ℕ → List ℕ → Type 0
Ascending i [] = Unit
Ascending i (j ∷ l) = (i ≤ j) × Ascending (suc j) l

Ascending-mono : (i j : ℕ) (l : List ℕ) → i ≤ j → Ascending j l → Ascending i l
Ascending-mono i j [] le a = tt
Ascending-mono i j (k ∷ l) le a = (omega (arith, a.0), a.1)

pub cells_from-Ascending : (k i mask : ℕ) → Ascending i (cells_from k i mask)
unfolding cells_from
cells_from-Ascending zero i mask = tt
cells_from-Ascending (suc k) i mask = elim (Bool-cases (slot_bit mask i)) [
  | inl set ↦ rw set (omega arith, cells_from-Ascending k (suc i) mask)
  | inr clear ↦
      rw clear (Ascending-mono i (suc i) _ (omega arith) (cells_from-Ascending k (suc i) mask))
]

module _ {T : Type 0} where
  -- The cells of a list hold the values of another, one each.
  abbrev pub Filled : List ℕ → List T → (ℕ → Option T) → Type 0
  Filled [] [] c = Unit
  Filled (i ∷ l) (v ∷ vs) c = (c i ≡ some v) × Filled l vs c
  Filled _ _ c = ⊥

  unfoldable pub empty_all : List ℕ → Shared T → Shared T
  empty_all [] m = m
  empty_all (i ∷ l) m = empty_all l (set_cell m i none)

  unfoldable pub fill_all : List ℕ → List T → Shared T → Shared T
  fill_all (i ∷ l) (v ∷ vs) m = fill_all l vs (set_cell m i (some v))
  fill_all _ _ m = m

  pub Filled-set_cell :
      (i j : ℕ) (o : Option T) (l : List ℕ) (vs : List T) (m : Shared T)
      → i < j
      → Ascending j l
      → Filled l vs m.cell
      → Filled l vs (set_cell m i o).cell
  Filled-set_cell i j o [] [] m lt a f = tt
  Filled-set_cell i j o [] (v ∷ vs) m lt a f = f
  Filled-set_cell i j o (k ∷ l) [] m lt a f = f
  Filled-set_cell i j o (k ∷ l) (v ∷ vs) m lt a f =
      (ground (arith, a.0, f.0), Filled-set_cell i (suc k) o l vs m (omega (arith, a.0)) a.1 f.1)

  pub fill_all-word : (l : List ℕ) (vs : List T) (m : Shared T) → (fill_all l vs m).word ≡ m.word
  unfolding fill_all
  fill_all-word [] vs m = refl
  fill_all-word (i ∷ l) [] m = refl
  fill_all-word (i ∷ l) (v ∷ vs) m = fill_all-word l vs (set_cell m i (some v))

  pub empty_all-word : (l : List ℕ) (m : Shared T) → (empty_all l m).word ≡ m.word
  unfolding empty_all
  empty_all-word [] m = refl
  empty_all-word (i ∷ l) m = empty_all-word l (set_cell m i none)

  pub fill_all-outside :
      (l : List ℕ) (vs : List T) (m : Shared T) (j : ℕ)
      → in_list j l ≡ false
      → (fill_all l vs m).cell j ≡ m.cell j
  unfolding fill_all
  fill_all-outside [] vs m j out = refl
  fill_all-outside (i ∷ l) [] m j out = refl
  fill_all-outside (i ∷ l) (v ∷ vs) m j out =
      fill_all-outside l vs (set_cell m i (some v)) j (ground arith) ∙ ground arith

  pub empty_all-none :
      (l : List ℕ) (m : Shared T) (j : ℕ)
      → (in_list j l ≡ false → m.cell j ≡ none)
      → (empty_all l m).cell j ≡ none
  unfolding empty_all
  empty_all-none [] m j e = e refl
  empty_all-none (i ∷ l) m j e =
      empty_all-none l (set_cell m i none) j (λ out. cleared out (i == j) refl)
    where
      cleared :
          in_list j l ≡ false → (b : Bool) → (i == j) ≡ b → (if b then none else m.cell j) ≡ none
      cleared out true same = refl
      cleared out false other = e (ground arith)

  fill_all-below :
      (i : ℕ) (l : List ℕ) (vs : List T) (m : Shared T) (j : ℕ)
      → Ascending i l
      → j < i
      → (fill_all l vs m).cell j ≡ m.cell j
  unfolding fill_all
  fill_all-below i [] vs m j a lt = refl
  fill_all-below i (k ∷ l) [] m j a lt = refl
  fill_all-below i (k ∷ l) (v ∷ vs) m j a lt =
      fill_all-below (suc k) l vs (set_cell m k (some v)) j a.1 (omega (arith, a.0))
      ∙ ground (arith, a.0)

  pub fill_all-Filled :
      (i : ℕ) (l : List ℕ) (vs : List T) (m : Shared T)
      → Ascending i l
      → length vs ≡ length l
      → Filled l vs (fill_all l vs m).cell
  unfolding fill_all
  fill_all-Filled i [] [] m a same = tt
  fill_all-Filled i [] (v ∷ vs) m a same = absurd (omega arith)
  fill_all-Filled i (k ∷ l) [] m a same = absurd (omega arith)
  fill_all-Filled i (k ∷ l) (v ∷ vs) m a same = (
    fill_all-below (suc k) l vs (set_cell m k (some v)) k a.1 (omega arith) ∙ ground arith,
    fill_all-Filled (suc k) l vs (set_cell m k (some v)) a.1 (omega arith),
  )
