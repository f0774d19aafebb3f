-- ===== src/Vecs/FreestandingVec/Init.antt =====
-- `init` of vecs/src/freestanding_vec.rs.
use lockness.Prelude.{
  ℕ, ◌*◌, ◌^◌, ◌≤◌, ◌≡◌, refl, ◌∙◌, List, ◌∷◌, max, Bool, true, none, some, ◌==◌, [], arith, inl,
  inr, Bool-cases,
}
use lockness.Vecs.Layout.{
  TypeLayout, align, header_space, header_size, min_non_zero_cap, isize_max, header_alignment,
  elem_size,
}
use lockness.Vecs.FreestandingVec.{
  Result, ok, Block, deallocate, read_metadata, allocate, discard, put_header, write_header, init,
  new,
}
use lockness.Vecs.FreestandingVec.Stack.{IsLayout, Holds}
use lockness.Vecs.FreestandingVec.Enlarge.{
  next_multiple_of-le, header_size-le, IsSpare, enlarge_lem,
}

module _ {M V : Type 0} (grants : ℕ → Bool) (header t : TypeLayout) (layout : IsLayout header t)
    (granted : (k : ℕ) → grants k ≡ true) (small : min_non_zero_cap header t ≤ 2 ^ 61) where
  abbrev with_header : ℕ → M → Block M V → Block M V
  with_header capacity metadata b = record b {
    metadata = some metadata;
    value_size = elem_size t;
    alignment = header_alignment header t;
    len = 0;
    capacity = capacity;
  }

  with_header-Holds :
      (b : Block M V) (capacity : ℕ) (metadata : M)
      → capacity ≡ b.size
      → b.align ≡ align (header_space header t)
      → header_size header t ≤ capacity
      → capacity ≤ isize_max
      → Holds header t (with_header capacity metadata b) []
  with_header-Holds b capacity metadata whole aligned room bound = record {
    is_len = refl;
    elem = omega (arith, layout.size_lt);
    aligned = omega (arith, layout.align_lt);
    same_align = omega (arith, aligned, layout.align_lt);
    whole = whole;
    fits = omega (arith, room);
    bound = bound;
    stored = λ i v q. cc;
  }

  -- An empty vector with new metadata, and the metadata that have been dropped on the way.
  abbrev Ready : List M → M → ℕ → Result (List M × Block M V) → Type 0
  Ready old metadata most r =
      (b : Block M V) × (r ≡ ok (old, b))
      × Holds header t b []
      × (b.metadata ≡ some metadata)
      × (b.capacity ≤ most)

  -- An allocation before its header is written.
  abbrev raw : Block M V
  raw = record {
    size = min_non_zero_cap header t;
    align = align (header_space header t);
    metadata = none;
    value_size = 0;
    alignment = 0;
    len = 0;
    capacity = 0;
    value = λ i. none;
  }

  allocate_lem : allocate grants header t ≡ ok (min_non_zero_cap header t, raw)
  unfolding allocate
  allocate_lem = ground (
    arith,
    granted (min_non_zero_cap header t),
    next_multiple_of-le (min_non_zero_cap header t) (align (header_space header t)),
    layout.align_lt,
  )

  write_new :
      (metadata : M)
      → Ready [] metadata (min_non_zero_cap header t) (write_header grants header t metadata none)
  unfolding write_header put_header
  write_new metadata = (
    with_header (min_non_zero_cap header t) metadata raw,
    rw allocate_lem refl,
    with_header-Holds raw (min_non_zero_cap header t) metadata refl refl (header_size-le header t)
        (omega arith),
    refl,
    omega arith,
  )

  read_some : (b : Block M V) (m : M) → b.metadata ≡ some m → read_metadata b ≡ ok m
  unfolding read_metadata
  read_some b m e = rw e refl

  write_over :
      (metadata m : M) (b : Block M V)
      → IsSpare grants header t layout granted small b
      → b.metadata ≡ some m
      → Ready
          (m ∷ [])
          metadata
          (max b.capacity (2 * min_non_zero_cap header t))
          (write_header grants header t metadata (some b))
  unfolding write_header put_header
  write_over metadata m b s e =
      let (b', grows, (r, kept, most)) = enlarge_lem grants header t layout granted small b s in
      let there : b'.metadata ≡ some m = kept ∙ e in
      (
        with_header b'.capacity metadata b',
        rw (grows, read_some b' m there) refl,
        with_header-Holds b' b'.capacity metadata r.whole r.aligned r.room r.bound,
        refl,
        most,
      )

  -- `new` gives an empty vector for values of type `T`, of the first capacity.
  pub new_lem :
      (metadata : M) → Ready [] metadata (min_non_zero_cap header t) (new grants header t metadata)
  unfolding new init discard
  new_lem metadata =
      let (b, e, holds, kept, most) = write_new metadata in (b, rw e refl, holds, kept, most)

  -- An emptied vector of values of another type, of at most 2^61 bytes, becomes an empty vector for
  -- values of type `T` with the new metadata, if the allocator grants what it is asked for and the
  -- first capacity for `T` is at most 2^61. The old metadata are dropped, once, and those of the
  -- new header are not, whether the block is kept or not. No block is given back with another layout
  -- than its own. `IsLayout` has that sizes and alignments are below 2^32.
  pub init_lem :
      (old : TypeLayout) (b : Block M V) (m metadata : M)
      → Holds header old b []
      → b.metadata ≡ some m
      → b.capacity ≤ 2 ^ 61
      → Ready
          (m ∷ [])
          metadata
          (max b.capacity (2 * min_non_zero_cap header t))
          (init grants header t (some b) metadata)
  unfolding init discard
  init_lem old b m metadata h e few = elim (Bool-cases (b.alignment == header_alignment header t)) [
    | inl same ↦
        let spare : IsSpare grants header t layout granted small b = record {
          nothing_there = h.is_len;
          whole = h.whole;
          aligned = ground (arith, h.same_align, layout.align_lt);
          few = few;
        } in
        let (b', is, holds, kept, most) = write_over metadata m b spare e in
        (b', rw (same, is) refl, holds, kept, most)
    | inr other ↦
        let given_back : deallocate (some b) ≡ ok (m ∷ [], none) =
          unfold deallocate read_metadata in rw e (ground (arith, h.whole, h.same_align)) in
        let (b', is, holds, kept, most) = write_new metadata in
        (b', rw (other, given_back, is) refl, holds, kept, omega arith)
  ]
