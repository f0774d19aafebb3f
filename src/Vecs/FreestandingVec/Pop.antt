-- ===== src/Vecs/FreestandingVec/Pop.antt =====
-- `pop` of vecs/src/freestanding_vec.rs.
use lockness.Prelude.{
  ℕ, suc, ◌+◌, ◌-◌, ◌*◌, ◌%◌, ◌≡◌, refl, ap, ap₂, ◌∙◌, max, none, some, List, [], ◌∷◌, ◌++◌, length,
  length-append, get_elem?, get_elem?-append_left, get_elem?-append_last, get_elem?-lt, arith,
}
use lockness.Vecs.Layout.{
  TypeLayout, align, next_multiple_of, header_space, header_size, unit_layout,
}
use lockness.Vecs.FreestandingVec.{ok, Block, pop, pop_address}
use lockness.Vecs.FreestandingVec.Stack.{IsLayout, Holds}

header_alone :
    (header : TypeLayout)
    → header.size % align header ≡ 0
    → header_size header unit_layout ≡ header.size
unfolding header_space
header_alone header whole =
    let s : max header.size 0 ≡ header.size = omega arith in
    let a : max header.log_align 0 ≡ header.log_align = omega arith in rw (s, a) (ground arith)

base_lem :
    (header t : TypeLayout) (value_size alignment : ℕ)
    → header.size % align header ≡ 0
    → value_size ≡ t.size
    → alignment ≡ align (header_space header t)
    → next_multiple_of (max (header_size header unit_layout) value_size) alignment
      ≡ header_size header t
base_lem header t value_size alignment whole e a =
    rw (header_alone header whole, e, a) (unfold header_space in refl)

pop_address_eq :
    {M V : Type 0} (header : TypeLayout) (b : Block M V) (i : ℕ)
    → pop_address header b i
      ≡ next_multiple_of (max (header_size header unit_layout) b.value_size) b.alignment
        + i * b.value_size
unfolding pop_address
pop_address_eq header b i = refl

module _ {M V : Type 0} (header t : TypeLayout) (layout : IsLayout header t) where
  -- `pop` finds by the header the address at which `push` has stored.
  pub pop_address_lem :
      (b : Block M V) (l : List V) (i : ℕ)
      → Holds header t b l
      → pop_address {M = M} {V = V} header b i ≡ header_size header t + i * t.size
  pop_address_lem b l i h =
      pop_address_eq header b i
      ∙ ap₂ ◌+◌ (base_lem header t b.value_size b.alignment layout.header_whole h.elem h.aligned)
          (ap (λ x. i * x) h.elem)

  -- A pop of a vector with a value gives the last one, with the metadata, and leaves the rest and
  -- the metadata.
  pub pop_lem :
      (b : Block M V) (l : List V) (v : V)
      → Holds header t b (l ++ v ∷ [])
      → (b' : Block M V) × (pop header b ≡ ok (some (b.metadata, v), b'))
        × Holds header t b' l
        × (b'.metadata ≡ b.metadata)
  unfolding pop
  pop_lem b l v h =
      let n : b.len ≡ suc (length l) = omega (arith, h.is_len, length-append l (v ∷ [])) in
      let e : b.len - 1 ≡ length l = omega arith in
      let last : b.value (pop_address {M = M} {V = V} header b (b.len - 1)) ≡ some v =
        ap b.value (pop_address_lem b (l ++ v ∷ []) (b.len - 1) h)
        ∙ h.stored (b.len - 1) v (ap (get_elem? (l ++ v ∷ [])) e ∙ get_elem?-append_last l v) in
      (
        record b { len = b.len - 1 },
        ground arith,
        record {
          is_len = omega arith;
          elem = h.elem;
          aligned = h.aligned;
          same_align = h.same_align;
          whole = h.whole;
          fits =
              let m : b.len ≡ b.len - 1 + 1 = omega arith in
              omega (arith, h.fits, ap (λ (k : ℕ). k * t.size) m);
          bound = h.bound;
          stored =
              λ i u e. h.stored i u (get_elem?-append_left l (v ∷ []) i (get_elem?-lt l i e) ∙ e);
        },
        refl,
      )

  pub pop_empty : (b : Block M V) → Holds header t b [] → pop header b ≡ ok (none, b)
  unfolding pop
  pop_empty b h = ground (arith, h.is_len)
