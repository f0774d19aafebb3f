-- ===== src/Bags/Mpmc/Batch/Cells.antt =====
-- The closures of bags/src/mpmc.rs that fill and empty cells, over a list of cells.
use lockness.Prelude.{
  ℕ, suc, ◌+◌, ◌≤◌, ◌<◌, ◌≡◌, refl, sym, ap, ◌∙◌, true, ltb, none, some, List, [], ◌∷◌, ◌++◌,
  length, length-append, arith,
}
use mathlib.Core.List.{append_assoc, append-nil, head-eq_of_cons-eq, tail-eq_of_cons-eq}
use lockness.Machine.Program.{Prog, ret, write, Shared, set_cell}
use lockness.Machine.Sequential.{done, run, continue_with, run->>=}
use lockness.Bags.Mpmc.Status.{n}
use lockness.Bags.Mpmc.Buffer.{Container, items_of, take}
use lockness.Bags.Mpmc.Sender.{fill}
use lockness.Bags.Mpmc.Receiver.{collect}
use lockness.Bags.Mpmc.Handles.{drop_cell}
use lockness.Bags.Mpmc.Drain.Order.{for_each}
use lockness.Bags.Mpmc.Batch.Memory.{Ascending, Filled, Filled-set_cell, empty_all, fill_all}

module _ {T : Type 0} where
  drop_cell-run :
      (i : ℕ) (s : List T) (v : T) (m : Shared T)
      → m.cell i ≡ some v
      → run (drop_cell i s) m ≡ done (s ++ (v ∷ [])) (set_cell m i none)
  unfolding run drop_cell
  drop_cell-run i s v m e = rw e refl

  collect-drop_cell : (i : ℕ) (s : List T) → length s < n → collect i s ≡ drop_cell i s
  unfolding collect drop_cell
  collect-drop_cell i s lt = let e : ltb (length s) n ≡ true = ground arith in rw e refl

  run-for_each :
      {S : Type 0} (f : ℕ → S → Prog T S) (i : ℕ) (l : List ℕ) (s s' : S) (m m' : Shared T)
      → run (f i s) m ≡ done s' m'
      → run (for_each f (i ∷ l) s) m ≡ run (for_each f l s') m'
  unfolding for_each continue_with
  run-for_each f i l s s' m m' e =
      run->>= (f i s) (λ s'. for_each f l s') m
      ∙ ap (λ o. continue_with o (λ s' m'. run (for_each f l s') m')) e

  run-for_each_nil :
      {S : Type 0} (f : ℕ → S → Prog T S) (s : S) (m : Shared T)
      → run (for_each f [] s) m ≡ done s m
  unfolding for_each run
  run-for_each_nil f s m = refl

  -- The closures that empty cells: the values come in the order of the cells.
  pub run-drop_cell :
      (i : ℕ) (l : List ℕ) (vs s : List T) (m : Shared T)
      → Ascending i l
      → Filled l vs m.cell
      → run (for_each drop_cell l s) m ≡ done (s ++ vs) (empty_all l m)
  unfolding empty_all
  run-drop_cell i [] [] s m a f =
      run-for_each_nil drop_cell s m ∙ ap (λ l. done l m) (sym (append-nil s))
  run-drop_cell i [] (v ∷ vs) s m a f = absurd f
  run-drop_cell i (j ∷ l) [] s m a f = absurd f
  run-drop_cell i (j ∷ l) (v ∷ vs) s m a f =
      run-for_each drop_cell j l s (s ++ (v ∷ [])) m (set_cell m j none) (drop_cell-run j s v m f.0)
      ∙ run-drop_cell (suc j) l vs (s ++ (v ∷ [])) (set_cell m j none) a.1
          (Filled-set_cell j (suc j) none l vs m (omega arith) a.1 f.1)
      ∙ ap (λ r. done r (empty_all l (set_cell m j none))) (append_assoc s (v ∷ []) vs)

  pub run-collect :
      (i : ℕ) (l : List ℕ) (vs s : List T) (m : Shared T)
      → Ascending i l
      → Filled l vs m.cell
      → length s + length l ≤ n
      → run (for_each collect l s) m ≡ done (s ++ vs) (empty_all l m)
  unfolding empty_all
  run-collect i [] [] s m a f fits =
      run-for_each_nil collect s m ∙ ap (λ l. done l m) (sym (append-nil s))
  run-collect i [] (v ∷ vs) s m a f fits = absurd f
  run-collect i (j ∷ l) [] s m a f fits = absurd f
  run-collect i (j ∷ l) (v ∷ vs) s m a f fits =
      run-for_each collect j l s (s ++ (v ∷ [])) m (set_cell m j none)
        (ap (λ p. run p m) (collect-drop_cell j s (omega arith)) ∙ drop_cell-run j s v m f.0)
      ∙ run-collect (suc j) l vs (s ++ (v ∷ [])) (set_cell m j none) a.1
          (Filled-set_cell j (suc j) none l vs m (omega arith) a.1 f.1)
          (omega (arith, length-append s (v ∷ [])))
      ∙ ap (λ r. done r (empty_all l (set_cell m j none))) (append_assoc s (v ∷ []) vs)

  take-items_of :
      (data' : Container T) (v : T) (rest : List T)
      → items_of data' ≡ v ∷ rest
      → (d : Container T) × (take data' ≡ some (v, d)) × (items_of d ≡ rest)
  unfolding items_of take
  take-items_of (Container.option none) v rest e = cc
  take-items_of (Container.option (some w)) v rest e = (
    Container.option none,
    ap (λ v. some (v, Container.option none)) (head-eq_of_cons-eq e),
    tail-eq_of_cons-eq e,
  )
  take-items_of (Container.vec []) v rest e = cc
  take-items_of (Container.vec (w ∷ l)) v rest e = (
    Container.vec l,
    ap (λ v. some (v, Container.vec l)) (head-eq_of_cons-eq e),
    tail-eq_of_cons-eq e,
  )
  take-items_of (Container.array_vec []) v rest e = cc
  take-items_of (Container.array_vec (w ∷ l)) v rest e = (
    Container.array_vec l,
    ap (λ v. some (v, Container.array_vec l)) (head-eq_of_cons-eq e),
    tail-eq_of_cons-eq e,
  )

  fill-taken :
      (i : ℕ) (data' d : Container T) (v : T)
      → take data' ≡ some (v, d)
      → fill i data' ≡ write i v (ret d)
  unfolding fill
  fill-taken i data' d v e =
      ap (λ o. elim o [ none ↦ Prog.undefined | some (v, rest) ↦ write i v (ret rest) ]) e

  fill-run :
      (i : ℕ) (data' d : Container T) (v : T) (m : Shared T)
      → take data' ≡ some (v, d)
      → run (fill i data') m ≡ done d (set_cell m i (some v))
  unfolding run
  fill-run i data' d v m e = ap (λ p. run p m) (fill-taken i data' d v e)

  -- The closure that fills cells, with as many items as there are cells.
  pub run-fill :
      (l : List ℕ) (vs rest : List T) (data' : Container T) (m : Shared T)
      → length vs ≡ length l
      → items_of data' ≡ vs ++ rest
      → (d : Container T) × (run (for_each fill l data') m ≡ done d (fill_all l vs m))
        × (items_of d ≡ rest)
  unfolding fill_all
  run-fill [] [] rest data' m same e = (data', run-for_each_nil fill data' m, e)
  run-fill [] (v ∷ vs) rest data' m same e = absurd (omega arith)
  run-fill (i ∷ l) [] rest data' m same e = absurd (omega arith)
  run-fill (i ∷ l) (v ∷ vs) rest data' m same e =
      let (d, taken, left) = take-items_of data' v (vs ++ rest) e in
      let (d', ran, rest_left) = run-fill l vs rest d (set_cell m i (some v)) (omega arith) left in
      (
        d',
        run-for_each fill i l data' d m (set_cell m i (some v)) (fill-run i data' d v m taken)
            ∙ ran,
        rest_left,
      )
