-- ===== src/Vecs/ClosureVec/Runs.antt =====
-- `pop_and_run`, `clear` and `Drop` of vecs/src/closure_vec.rs.
use lockness.Prelude.{
  refl, none, ℕ, suc, ◌≡◌, ap, sym, ◌∙◌, subst, Bool, true, false, some, List, [], ◌∷◌, ◌++◌, map,
  length, length-reverse, ◌==◌, if◌then◌else◌, arith,
}
use mathlib.Core.List.{
  reverse, reverse-append, reverse-reverse, append_assoc, append-nil, map-append,
}
use lockness.Vecs.Layout.{TypeLayout}
use lockness.Vecs.FreestandingVec.{ok}
use lockness.Vecs.FreestandingVec
use lockness.Vecs.FreestandingVec.Stack.{IsLayout, Holds, drop-Holds}
use lockness.Vecs.FreestandingVec.Pop.{pop_lem, pop_empty}
use lockness.Vecs.ClosureVec
use lockness.Vecs.ClosureVec.{
  ran, dropped, Metadata, ClosureVec, Closure, closure, task, call, init_metadata, pop_and_run_,
  pop_and_run, clear,
}

-- The vector is one for closures of type `kind`, and holds those of `l`.
pub record HoldsClosures {V : Type 0} (header t : TypeLayout) (kind : ℕ) (c : ClosureVec V)
    (l : List V) : Type 0 where
  pub values : Holds header t c.data' (map (closure kind) l)
  pub tag : c.data'.metadata ≡ some (init_metadata kind)

module _ {V : Type 0} (header t : TypeLayout) (layout : IsLayout header t) (kind : ℕ) where
  call_own :
      (just_drop : Bool) (v : V) → call kind (closure kind v) just_drop ≡ ok (task just_drop v)
  unfolding call
  call_own just_drop v = let e : (kind == kind) ≡ true = ground arith in rw e refl

  pop_and_run_some :
      (just_drop : Bool) (c : ClosureVec V) (l : List V) (v : V)
      → HoldsClosures header t kind c (l ++ v ∷ [])
      → (c' : ClosureVec V) × (pop_and_run_ header just_drop c ≡ ok (false, c'))
        × HoldsClosures header t kind c' l
        × (c'.log ≡ c.log ++ task just_drop v ∷ [])
  unfolding pop_and_run_ ClosureVec.finish
  pop_and_run_some just_drop c l v h =
      let at_end : Holds header t c.data' (map (closure kind) l ++ closure kind v ∷ []) =
        subst (Holds header t c.data') (map-append (closure kind) l (v ∷ [])) h.values in
      let (b', e, h', kept) =
        pop_lem header t layout c.data' (map (closure kind) l) (closure kind v) at_end in
      let popped : FreestandingVec.pop header c.data'
          ≡ ok (some (some (init_metadata kind), closure kind v), b') =
        e ∙ ap (λ m. ok (some (m, closure kind v), b')) h.tag in
      (
        record { data' = b'; log = c.log ++ task just_drop v ∷ [] },
        rw (popped, call_own just_drop v) refl,
        record { values = h'; tag = kept ∙ h.tag },
        refl,
      )

  pop_and_run_none :
      (just_drop : Bool) (c : ClosureVec V)
      → HoldsClosures header t kind c []
      → pop_and_run_ header just_drop c ≡ ok (true, c)
  unfolding pop_and_run_
  pop_and_run_none just_drop c h = rw (pop_empty header t layout c.data' h.values)

  -- On a vector with a closure, `pop_and_run` calls the last one, once, returns false, and leaves
  -- the rest.
  pub pop_and_run_lem :
      (c : ClosureVec V) (l : List V) (v : V)
      → HoldsClosures header t kind c (l ++ v ∷ [])
      → (c' : ClosureVec V) × (pop_and_run header c ≡ ok (false, c'))
        × HoldsClosures header t kind c' l
        × (c'.log ≡ c.log ++ ran v ∷ [])
  unfolding pop_and_run
  pop_and_run_lem c l v h = pop_and_run_some false c l v h

  clear_step :
      (fuel : ℕ) (c c' : ClosureVec V) (stop : Bool)
      → pop_and_run_ header true c ≡ ok (stop, c')
      → clear header (suc fuel) c ≡ (if stop then some (ok c') else clear header fuel c')
  unfolding clear
  clear_step fuel c c' stop e = rw (e, clear)

  clear_all :
      (r : List V) (c : ClosureVec V)
      → HoldsClosures header t kind c (reverse r)
      → (c' : ClosureVec V) × (clear header (suc (length r)) c ≡ some (ok c'))
        × HoldsClosures header t kind c' []
        × (c'.log ≡ c.log ++ map dropped r)
  clear_all [] c h =
      (c, clear_step 0 c c true (pop_and_run_none true c h), h, sym (append-nil c.log))
  clear_all (v ∷ r) c h =
      let h' : HoldsClosures header t kind c (reverse r ++ v ∷ []) =
        subst (HoldsClosures header t kind c) (reverse-append (v ∷ []) r) h in
      let (c₁, e₁, h₁, log₁) = pop_and_run_some true c (reverse r) v h' in
      let (c₂, e₂, h₂, log₂) = clear_all r c₁ h₁ in
      (
        c₂,
        clear_step (suc (length r)) c c₁ false e₁ ∙ e₂,
        h₂,
        log₂
            ∙ ap (λ l. l ++ map dropped r) log₁
            ∙ append_assoc c.log (dropped v ∷ []) (map dropped r),
      )

  -- `clear` ends within one round more than there are closures; it drops every closure once, the
  -- last one first, calls none, and leaves the vector empty.
  pub clear_lem :
      (c : ClosureVec V) (l : List V)
      → HoldsClosures header t kind c l
      → (c' : ClosureVec V) × (clear header (suc (length l)) c ≡ some (ok c'))
        × HoldsClosures header t kind c' []
        × (c'.log ≡ c.log ++ map dropped (reverse l))
  clear_lem c l h =
      let (c', e, h', log) =
        clear_all (reverse l) c
          (subst (HoldsClosures header t kind c) (sym (reverse-reverse l)) h) in
      (c', subst (λ n. clear header (suc n) c ≡ some (ok c')) (length-reverse l) e, h', log)

  given_back :
      (c' : ClosureVec V) (old : List (Metadata V))
      → FreestandingVec.drop (some c'.data') ≡ ok (old, none)
      → ClosureVec.after_clear header (some (ok c')) ≡ some (ok (c'.log, none))
  unfolding ClosureVec.after_clear ClosureVec.give_back
  given_back c' old d = rw d refl

  drop_given :
      (fuel : ℕ) (c c' : ClosureVec V) (old : List (Metadata V))
      → clear header fuel c ≡ some (ok c')
      → FreestandingVec.drop (some c'.data') ≡ ok (old, none)
      → ClosureVec.drop header fuel c ≡ some (ok (c'.log, none))
  unfolding ClosureVec.drop
  drop_given fuel c c' old e d = ap (ClosureVec.after_clear header) e ∙ given_back c' old d

  -- The drop of a vector ends within one round more than there are closures; it drops every closure
  -- once, the last one first, calls none, and gives the block back with its own layout.
  pub drop_lem :
      (c : ClosureVec V) (l : List V)
      → HoldsClosures header t kind c l
      → ClosureVec.drop header (suc (length l)) c
        ≡ some (ok (c.log ++ map dropped (reverse l), none))
  drop_lem c l h =
      let (c', e, h', log) = clear_lem c l h in
      drop_given (suc (length l)) c c' _ e
        (drop-Holds header t c'.data' [] (init_metadata kind) h'.values h'.tag)
      ∙ ap (λ done. some (ok (done, none))) log
