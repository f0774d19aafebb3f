-- ===== src/Vecs/FreestandingVec/Stack.antt =====
-- `push` and `Drop` of vecs/src/freestanding_vec.rs, and the stack that a block stands for.
use lockness.Prelude.{
  none, ℕ, ◌+◌, ◌*◌, ◌%◌, ◌^◌, ◌≤◌, ◌<◌, ◌≡◌, refl, ap, sym, ◌∙◌, max, Bool, true, some, ◌==◌,
  if◌then◌else◌, List, [], ◌∷◌, ◌++◌, length, length-append, get_elem?, get_elem?-append_left,
  get_elem?-append_last, get_elem?-lt, arith, inl, inr, Bool-cases,
}
use native.Mathlib.Decide.{dec_lt}
use lockness.Vecs.Layout.{TypeLayout, align, next_multiple_of, header_space, header_size, isize_max}
use lockness.Vecs.FreestandingVec.{ok, Block, drop, reserve, grow, store, push, new_capacity}

-- What Rust says of the layouts of `Header<M>` and `T`; the sizes and alignments fit the casts to
-- `u32`.
pub record IsLayout (header t : TypeLayout) : Type 0 where
  pub header_whole : header.size % align header ≡ 0
  pub size_lt : t.size < 2 ^ 32
  pub align_lt : align (header_space header t) < 2 ^ 32

-- The block holds the values of `l`, the last pushed at the end.
pub record Holds {M V : Type 0} (header t : TypeLayout) (b : Block M V) (l : List V) : Type 0 where
  pub is_len : b.len ≡ length l
  pub elem : b.value_size ≡ t.size
  pub aligned : b.alignment ≡ align (header_space header t)
  pub same_align : b.align ≡ b.alignment
  pub whole : b.capacity ≡ b.size
  pub fits : header_size header t + b.len * t.size ≤ b.capacity
  pub bound : b.capacity ≤ isize_max
  pub stored :
      (i : ℕ) (v : V)
      → get_elem? l i ≡ some v
      → b.value (header_size header t + i * t.size) ≡ some v

-- Where two values share an address, they are values of a type of size 0.
same_address : (size i k : ℕ) → i < k → i * size ≡ k * size → size ≡ 0
same_address size i k lt e = grind arith

-- Where the values have size 0, the new one is one of those that are there.
abbrev pub IsSame : {V : Type 0} → TypeLayout → List V → V → Type 0
IsSame {V} t l v = t.size ≡ 0 → (i : ℕ) (u : V) → get_elem? l i ≡ some u → v ≡ u

module _ {M V : Type 0} (grants : ℕ → Bool) (header t : TypeLayout) where
  -- The bytes that a push may ask the allocator for.
  abbrev pub grown : Block M V → ℕ
  grown b = max (b.capacity * 2) (header_size header t + b.len * t.size + t.size)

  abbrev pub CanGrow : Block M V → Type 0
  CanGrow b =
      (next_multiple_of (grown b) b.align ≤ isize_max)
      × (grown b ≤ isize_max)
      × (grants (grown b) ≡ true)

  used_lem :
      (b : Block M V) (l : List V)
      → Holds header t b l
      → (b.len * t.size + header_size header t) % 2 ^ 64 ≡ header_size header t + b.len * t.size
  used_lem b l h = omega arith

  reserve_room :
      (b : Block M V) (l : List V)
      → Holds header t b l
      → header_size header t + b.len * t.size + t.size ≤ b.capacity
      → reserve grants header t b t.size ≡ ok b
  unfolding reserve
  reserve_room b l h room = ground (arith, used_lem b l h)

  new_capacity-grown :
      (b : Block M V) (l : List V)
      → Holds header t b l
      → new_capacity {M = M} {V = V} grants header t b
          (header_size header t + b.len * t.size + t.size)
        ≡ grown b
  unfolding new_capacity
  new_capacity-grown b l h = omega arith

  reserve-grow :
      (b : Block M V) (l : List V)
      → Holds header t b l
      → grown b ≤ isize_max
      → b.capacity < header_size header t + b.len * t.size + t.size
      → reserve grants header t b t.size ≡ grow grants header t b (grown b)
  unfolding reserve
  reserve-grow b l h small full = ground (arith, used_lem b l h, new_capacity-grown b l h)

  grow_lem :
      (b : Block M V) (l : List V)
      → Holds header t b l
      → CanGrow b
      → grow grants header t b (grown b) ≡ ok (record b { size = grown b; capacity = grown b })
  unfolding grow
  grow_lem b l h g = ground arith

  -- The bytes for the header and one value more.
  abbrev pub needed : Block M V → ℕ
  needed b = header_size header t + b.len * t.size + t.size

  -- A reservation for one more value succeeds, and moves the values with the block, which at most
  -- doubles what is needed.
  reserve_lem :
      (b : Block M V) (l : List V)
      → Holds header t b l
      → CanGrow b
      → (b' : Block M V) × (reserve grants header t b t.size ≡ ok b')
        × Holds header t b' l
        × (b'.len ≡ b.len)
        × (b'.metadata ≡ b.metadata)
        × (header_size header t + b.len * t.size + t.size ≤ b'.capacity)
        × (b'.capacity ≤ max b.capacity (2 * needed b))
  reserve_lem b l h g = elim (dec_lt b.capacity (header_size header t + b.len * t.size + t.size)) [
    | yes full ↦ (
      record b { size = grown b; capacity = grown b },
      reserve-grow b l h g.1 full ∙ grow_lem b l h g,
      record {
        is_len = h.is_len;
        elem = h.elem;
        aligned = h.aligned;
        same_align = h.same_align;
        whole = refl;
        fits = omega (arith, h.fits);
        bound = g.1;
        stored = h.stored;
      },
      refl,
      refl,
      omega arith,
      omega arith,
    )
    | no room ↦ (b, reserve_room b l h (omega arith), h, refl, refl, omega arith, omega arith)
  ]

  stored_next :
      (b : Block M V) (l : List V) (v : V)
      → IsSame t l v
      → Holds header t b l
      → (i : ℕ) (u : V) → get_elem? (l ++ v ∷ []) i ≡ some u
      → (if header_size header t + i * t.size == header_size header t + b.len * t.size
          then some v
          else b.value (header_size header t + i * t.size))
        ≡ some u
  stored_next b l v alike h i u e = elim (dec_lt i (length l)) [
    | yes old ↦
        let here : get_elem? l i ≡ some u = sym (get_elem?-append_left l (v ∷ []) i old) ∙ e in
        elim (Bool-cases
          (header_size header t + i * t.size == header_size header t + b.len * t.size)) [
            | inl same ↦ rw same (
                ap some (
                  alike (same_address t.size i b.len (omega (arith, h.is_len)) (ground arith)) i u
                    here))
            | inr other ↦ rw other (h.stored i u here)
          ]
    | no last ↦
        let at : i ≡ length l =
          omega (arith, get_elem?-lt (l ++ v ∷ []) i e, length-append l (v ∷ [])) in
        let here : some v ≡ some u =
          sym (get_elem?-append_last l v) ∙ ap (get_elem? (l ++ v ∷ [])) (sym at) ∙ e in
        ground (arith, h.is_len)
  ]

  store_lem :
      (b : Block M V) (l : List V) (v : V)
      → IsSame t l v
      → Holds header t b l
      → b.len + 1 < 2 ^ 64
      → header_size header t + b.len * t.size + t.size ≤ b.capacity
      → (b' : Block M V) × (store grants header t b v ≡ ok b')
        × Holds header t b' (l ++ v ∷ [])
        × (b'.metadata ≡ b.metadata)
        × (b'.capacity ≡ b.capacity)
  unfolding store
  store_lem b l v alike h few room = (
    record b {
      value = λ i. if i == header_size header t + b.len * t.size then some v else b.value i;
      len = (b.len + 1) % 2 ^ 64;
    },
    ground arith,
    record {
      is_len = omega (arith, length-append l (v ∷ []));
      elem = h.elem;
      aligned = h.aligned;
      same_align = h.same_align;
      whole = h.whole;
      fits = let e : (b.len + 1) % 2 ^ 64 ≡ b.len + 1 = omega arith in rw e (omega arith);
      bound = h.bound;
      stored = stored_next b l v alike h;
    },
    refl,
    refl,
  )

  -- A push, as below, with the capacity after it.
  pub push_sized :
      (b : Block M V) (l : List V) (v : V)
      → IsSame t l v
      → Holds header t b l
      → b.len + 1 < 2 ^ 64
      → CanGrow b
      → (b' : Block M V) × (push grants header t b v ≡ ok b')
        × Holds header t b' (l ++ v ∷ [])
        × (b'.metadata ≡ b.metadata)
        × (b'.capacity ≤ max b.capacity (2 * needed b))
  unfolding push
  push_sized b l v alike h few g =
      let (b₁, e₁, h₁, same_len, same_metadata, room, sized) = reserve_lem b l h g in
      let (b₂, e₂, h₂, kept, same) = store_lem b₁ l v alike h₁ (omega arith) (rw same_len room) in
      (b₂, rw e₁ e₂, h₂, kept ∙ same_metadata, rw same sized)

  -- A push whose growth stays within `isize::MAX` and is granted by the allocator, with fewer than
  -- 2^64 - 1 values there, succeeds and puts the value on top; the values below it and the metadata
  -- stay. A type of size 0 is taken to have one value.
  pub push_lem :
      (b : Block M V) (l : List V) (v : V)
      → (t.size ≡ 0 → (u w : V) → u ≡ w)
      → Holds header t b l
      → b.len + 1 < 2 ^ 64
      → CanGrow b
      → (b' : Block M V) × (push grants header t b v ≡ ok b')
        × Holds header t b' (l ++ v ∷ [])
        × (b'.metadata ≡ b.metadata)
  push_lem b l v zst h few g =
      let (b', e, h', kept, _) = push_sized b l v (λ z i u _. zst z v u) h few g in
      (b', e, h', kept)

  -- A push into a block with room asks the allocator for nothing.
  pub push_room :
      (b : Block M V) (l : List V) (v : V)
      → Holds header t b l
      → header_size header t + b.len * t.size + t.size ≤ b.capacity
      → push grants header t b v ≡ store grants header t b v
  unfolding push
  push_room b l v h room = rw (reserve_room b l h room)

-- The drop of a vector drops its metadata, and gives its block back with the layout that it has.
pub drop-Holds :
    {M V : Type 0} (header t : TypeLayout) (b : Block M V) (l : List V) (m : M)
    → Holds header t b l
    → b.metadata ≡ some m
    → drop (some b) ≡ ok (m ∷ [], none)
unfolding drop
drop-Holds header t b l m h e = rw e (ground (arith, h.whole, h.same_align))
