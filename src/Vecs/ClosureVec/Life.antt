-- ===== src/Vecs/ClosureVec/Life.antt =====
-- The life of a vector of vecs/src/closure_vec.rs: `new` or `update_type`, the pushes and the drop.
use lockness.Prelude.{
  ℕ, zero, suc, ◌+◌, ◌*◌, ◌^◌, ◌≤◌, ◌<◌, ◌≡◌, refl, ap, sym, ◌∙◌, subst, Bool, true, none, some,
  List, [], ◌∷◌, ◌++◌, map, length, length-append, get_elem?, arith,
}
use mathlib.Core.List.{reverse, append_assoc, append-nil, map-append}
use lockness.Vecs.Layout.{TypeLayout, header_size, min_non_zero_cap}
use lockness.Vecs.FreestandingVec.{Result, ok, ◌>>=◌, Block}
use lockness.Vecs.FreestandingVec.Stack.{IsLayout, Holds, CanGrow, IsSame, push_sized, grown}
use lockness.Vecs.FreestandingVec.Init.{new_lem, init_lem}
use lockness.Vecs.FreestandingVec.Enlarge.{next_multiple_of-le}
use lockness.Vecs.ClosureVec
use lockness.Vecs.ClosureVec.{dropped, Metadata, ClosureVec, Closure, closure, init_metadata}
use lockness.Vecs.ClosureVec.Runs.{HoldsClosures, drop_lem}

module _ {V : Type 0} where
  length-closures : (kind : ℕ) (l : List V) → length (map (closure kind) l) ≡ length l
  length-closures kind [] = refl
  length-closures kind (v ∷ l) = omega (arith, length-closures kind l)

  -- A value that stands among closures of one type is such a closure.
  among_closures :
      (kind : ℕ) (l : List V) (i : ℕ) (u : Closure V)
      → get_elem? (map (closure kind) l) i ≡ some u
      → (w : V) × (closure kind w ≡ u)
  among_closures kind [] i u e = cc
  among_closures kind (v ∷ l) zero u e = (v, cc)
  among_closures kind (v ∷ l) (suc i) u e = among_closures kind l i u e

module _ {V : Type 0} (grants : ℕ → Bool) (header t : TypeLayout) (kind : ℕ) where
  -- Closures pushed one after the other.
  unfoldable pub push_all : List V → ClosureVec V → Result (ClosureVec V)
  push_all [] c = ok c
  push_all (v ∷ l) c = ClosureVec.push grants header t kind c v >>= push_all l

  module _ (layout : IsLayout header t) (granted : (k : ℕ) → grants k ≡ true) where
    -- `update_type` makes an emptied vector one for closures of another type; the log stays.
    retyped :
        (old : TypeLayout) (was : ℕ) (c : ClosureVec V)
        → HoldsClosures header old was c []
        → c.data'.capacity ≤ 2 ^ 61
        → min_non_zero_cap header t ≤ 2 ^ 60
        → (c' : ClosureVec V) × (ClosureVec.update_type grants header t kind c ≡ ok c')
          × HoldsClosures header t kind c' []
          × (c'.data'.capacity ≤ 2 ^ 61)
          × (c'.log ≡ c.log)
    unfolding ClosureVec.update_type
    retyped old was c h few small =
        let (b, e, h', kept, most) =
          init_lem grants header t layout granted (omega arith) old c.data' (init_metadata was)
            (init_metadata kind) h.values h.tag few in
        (record c { data' = b }, rw e refl, record { values = h'; tag = kept }, omega arith, refl)

    new_closures :
        min_non_zero_cap header t ≤ 2 ^ 61
        → (c : ClosureVec V) × (ClosureVec.new grants header t kind ≡ ok c)
          × HoldsClosures header t kind c []
          × (c.data'.capacity ≤ 2 ^ 61)
          × (c.log ≡ [])
    unfolding ClosureVec.new
    new_closures small =
        let (b, e, h, kept, most) =
          new_lem grants header t layout granted small (init_metadata kind) in
        (
          record { data' = b; log = [] },
          rw e refl,
          record { values = h; tag = kept },
          omega arith,
          refl,
        )

    room_to_grow :
        (b : Block (Metadata V) (Closure V)) (l : List (Closure V))
        → Holds header t b l
        → b.capacity ≤ 2 ^ 61
        → header_size header t + (b.len + 1) * t.size ≤ 2 ^ 60
        → CanGrow grants header t b
    room_to_grow b l h few small =
        let le =
          next_multiple_of-le (grown {M = Metadata V} {V = Closure V} grants header t b) b.align in
        let total : header_size header t + b.len * t.size + t.size ≤ 2 ^ 60 = omega arith in
        (omega (arith, le, h.same_align, h.aligned, layout.align_lt), omega arith, granted _)

    module _ (zst : t.size ≡ 0 → (u w : V) → u ≡ w) where
      alike : (l : List V) (v : V) → IsSame t (map (closure kind) l) (closure kind v)
      alike l v z i u e =
          let (w, is) = among_closures kind l i u e in ap (closure kind) (zst z v w) ∙ is

      push_closure :
          (c : ClosureVec V) (l : List V) (v : V)
          → HoldsClosures header t kind c l
          → c.data'.capacity ≤ 2 ^ 61
          → c.data'.len + 1 < 2 ^ 64
          → header_size header t + (c.data'.len + 1) * t.size ≤ 2 ^ 60
          → (c' : ClosureVec V) × (ClosureVec.push grants header t kind c v ≡ ok c')
            × HoldsClosures header t kind c' (l ++ v ∷ [])
            × (c'.data'.capacity ≤ 2 ^ 61)
            × (c'.log ≡ c.log)
      unfolding ClosureVec.push
      push_closure c l v h few count small =
          let g = room_to_grow c.data' (map (closure kind) l) h.values few small in
          let (b, e, h', kept, sized) =
            push_sized grants header t c.data' (map (closure kind) l) (closure kind v) (alike l v)
              h.values count g in
          (
            record c { data' = b },
            rw e refl,
            record {
              values = subst (Holds header t b) (sym (map-append (closure kind) l (v ∷ []))) h';
              tag = kept ∙ h.tag;
            },
            omega arith,
            refl,
          )

      one_more : (a k : ℕ) → (a + 1) * t.size ≤ (a + suc k) * t.size
      one_more a k = grind arith

      pushes :
          (l p : List V) (c : ClosureVec V)
          → HoldsClosures header t kind c p
          → c.data'.capacity ≤ 2 ^ 61
          → length p + length l < 2 ^ 64
          → header_size header t + (length p + length l) * t.size ≤ 2 ^ 60
          → (c' : ClosureVec V) × (push_all l c ≡ ok c')
            × HoldsClosures header t kind c' (p ++ l)
            × (c'.log ≡ c.log)
      unfolding push_all
      pushes [] p c h few count small =
          (c, refl, subst (HoldsClosures header t kind c) (sym (append-nil p)) h, refl)
      pushes (v ∷ l) p c h few count small =
          let len : c.data'.len ≡ length p = h.values.is_len ∙ length-closures kind p in
          let next : header_size header t + (c.data'.len + 1) * t.size ≤ 2 ^ 60 =
            rw len (omega (arith, one_more (length p) (length l))) in
          let (c₁, e₁, h₁, few₁, log₁) = push_closure c p v h few (omega (arith, len)) next in
          let same : length (p ++ v ∷ []) + length l ≡ length p + suc (length l) =
            omega (arith, length-append p (v ∷ [])) in
          let (c₂, e₂, h₂, log₂) =
            pushes l (p ++ v ∷ []) c₁ h₁ few₁ (rw same count) (rw same small) in
          (
            c₂,
            rw e₁ e₂,
            subst (HoldsClosures header t kind c₂) (append_assoc p (v ∷ []) l) h₂,
            log₂ ∙ log₁,
          )

      -- If the allocator grants what it is asked for, the closures and the header take at most 2 ^ 60
      -- bytes, the first capacity is at most 2 ^ 61 and there are fewer than 2 ^ 64 closures: `new` and
      -- a push of each closure of `l` succeed, and the drop after them ends, drops every closure once,
      -- the last one first, calls none, and gives the block back. A type of size 0 is taken to have one
      -- value.
      pub closure_life :
          (l : List V)
          → min_non_zero_cap header t ≤ 2 ^ 61
          → length l < 2 ^ 64
          → header_size header t + length l * t.size ≤ 2 ^ 60
          → (c : ClosureVec V) × ((ClosureVec.new grants header t kind >>= push_all l) ≡ ok c)
            × HoldsClosures header t kind c l
            × (ClosureVec.drop header (suc (length l)) c
                ≡ some (ok (map dropped (reverse l), none)))
      closure_life l small count few =
          let (c₁, e₁, h₁, size, log₁) = new_closures small in
          let (c₂, e₂, h₂, log₂) = pushes l [] c₁ h₁ size (omega arith) (omega arith) in
          (
            c₂,
            rw e₁ e₂,
            h₂,
            drop_lem header t layout kind c₂ l h₂
                ∙ ap (λ log. some (ok (log ++ map dropped (reverse l), none))) (log₂ ∙ log₁),
          )

      -- An emptied vector of at most 2 ^ 61 bytes, of closures of any type: `update_type` to another
      -- one and a push of each closure of `l` succeed, and the drop after them ends, drops each of these
      -- once as a closure of the new type, the last one first, calls none, and gives the block back. The
      -- conditions are those of `closure_life`, but for a first capacity of at most 2 ^ 60.
      pub update_type_lem :
          (old : TypeLayout) (was : ℕ) (c : ClosureVec V) (l : List V)
          → HoldsClosures header old was c []
          → c.data'.capacity ≤ 2 ^ 61
          → min_non_zero_cap header t ≤ 2 ^ 60
          → length l < 2 ^ 64
          → header_size header t + length l * t.size ≤ 2 ^ 60
          → (c' : ClosureVec V) × ((ClosureVec.update_type grants header t kind c >>= push_all l)
              ≡ ok c')
            × HoldsClosures header t kind c' l
            × (ClosureVec.drop header (suc (length l)) c'
                ≡ some (ok (c.log ++ map dropped (reverse l), none)))
      update_type_lem old was c l h room small count few =
          let (c₁, e₁, h₁, size, log₁) = retyped old was c h room small in
          let (c₂, e₂, h₂, log₂) = pushes l [] c₁ h₁ size (omega arith) (omega arith) in
          (
            c₂,
            rw e₁ e₂,
            h₂,
            drop_lem header t layout kind c₂ l h₂
                ∙ ap (λ log. some (ok (log ++ map dropped (reverse l), none))) (log₂ ∙ log₁),
          )
