-- ===== src/Vecs/FreestandingVec.antt =====
-- vecs/src/freestanding_vec.rs: a vector that carries its own header in its allocation.
pub mod Stack
pub mod Pop
pub mod Addresses
pub mod Enlarge
pub mod Init
use lockness.Prelude.{
  ℕ, ◌+◌, ◌-◌, ◌*◌, ◌%◌, ◌^◌, max, min, Bool, true, false, ◌&&◌, Option, none, some, List, [], ◌∷◌,
  ◌++◌, ◌==◌, ltb, leb, if◌then◌else◌,
}
use lockness.Vecs.Layout.{
  TypeLayout, align, next_multiple_of, header_space, header_size, unit_layout, min_non_zero_cap,
  usize_max, isize_max, header_alignment, elem_size,
}

-- A call returns, panics, ends in `handle_alloc_error`, or breaks a rule of the allocator or of
-- raw pointers.
pub data Result {ℓ} (A : Type ℓ) : Type ℓ where
  ok : A → Result A
  panic : Result A
  alloc_error : Result A
  undefined : Result A

infixl 5 ◌>>=◌
abbrev pub ◌>>=◌ {ℓ κ} : {A : Type ℓ} {B : Type κ} → Result A → (A → Result B) → Result B
ok a >>= f = f a
panic >>= f = panic
alloc_error >>= f = alloc_error
undefined >>= f = undefined

-- An allocation: the size and the alignment that the allocator was given, the header, and the
-- values, each at the byte offset at which it was written. Until the header is written, there is no
-- metadata in it.
pub record Block (M V : Type 0) : Type 0 where
  pub size : ℕ
  pub align : ℕ
  pub metadata : Option M
  pub value_size : ℕ
  pub alignment : ℕ
  pub len : ℕ
  pub capacity : ℕ
  pub value : ℕ → Option V

-- `none` is the dangling pointer.
abbrev pub FreestandingVec : Type 0 → Type 0 → Type 0
FreestandingVec M V = Option (Block M V)

module _ {M V : Type 0} where
  -- A read of the metadata out of the header, which holds some once it is written.
  unfoldable pub read_metadata : Block M V → Result M
  read_metadata b = elim b.metadata [ none ↦ undefined | some m ↦ ok m ]

  -- The result has the metadata that are dropped. The layout given back must be that of the
  -- allocation.
  unfoldable pub deallocate : FreestandingVec M V → Result (List M × FreestandingVec M V)
  unfolding read_metadata
  deallocate none = ok ([], none)
  deallocate (some b) = read_metadata b >>= λ metadata_for_drop.
      if (b.capacity == b.size) && (b.alignment == b.align)
      then ok (metadata_for_drop ∷ [], none)
      else undefined

  -- `Drop`, in which no value is dropped.
  unfoldable pub drop : FreestandingVec M V → Result (List M × FreestandingVec M V)
  unfolding deallocate
  drop v = deallocate v

  unfoldable pub is_empty : Block M V → Bool
  is_empty b = b.len == 0

-- `grants k` says whether the allocator finds `k` bytes.
module _ {M V : Type 0} (grants : ℕ → Bool) (header t : TypeLayout) where
  unfoldable pub new_capacity : Block M V → ℕ → ℕ
  new_capacity b required = max (min (b.capacity * 2) usize_max) required

  -- `realloc` wants the layout of the allocation, and a new size that stays below `isize::MAX`
  -- when it is rounded up to the alignment.
  unfoldable pub grow : Block M V → ℕ → Result (Block M V)
  unfolding next_multiple_of
  grow b capacity' =
      if (b.capacity == b.size)
        && (align (header_space header t) == b.align)
        && leb (next_multiple_of capacity' b.align) isize_max
      then if grants capacity'
        then ok (record b { size = capacity'; capacity = capacity' })
        else alloc_error
      else undefined

  unfoldable pub reserve : Block M V → ℕ → Result (Block M V)
  unfolding new_capacity grow
  reserve b additional_bytes =
      let used = (b.len * t.size + header_size header t) % 2 ^ 64 in
      let required_cap = used + additional_bytes in
      if additional_bytes == 0
      then ok b
      else if ltb usize_max required_cap
      then panic
      else if leb required_cap b.capacity
      then ok b
      else grow b (new_capacity b required_cap)

  -- A new allocation and its capacity; its header is written by `init`. A layout stays below
  -- `isize::MAX` when it is rounded up to its alignment.
  unfoldable pub allocate : Result (ℕ × Block M V)
  unfolding min_non_zero_cap next_multiple_of
  allocate =
      let capacity = min_non_zero_cap header t in
      let alignment = align (header_space header t) in
      if leb (next_multiple_of capacity alignment) isize_max
      then if grants capacity
        then ok (
          capacity,
          record {
            size = capacity;
            align = alignment;
            metadata = none;
            value_size = 0;
            alignment = 0;
            len = 0;
            capacity = 0;
            value = λ i. none;
          },
        )
        else alloc_error
      else undefined

  -- `init` up to the header: a block of another alignment is given back.
  unfoldable pub discard : FreestandingVec M V → Result (List M × FreestandingVec M V)
  unfolding deallocate
  discard none = ok ([], none)
  discard (some b) =
      if b.alignment == header_alignment header t then ok ([], some b) else deallocate (some b)

  unfoldable pub enlarge : Block M V → Result (Block M V)
  unfolding reserve min_non_zero_cap
  enlarge b =
      if ltb b.capacity (min_non_zero_cap header t)
      then reserve b (min_non_zero_cap header t - b.capacity)
      else ok b

  -- `*ptr = header` drops the metadata that it overwrites; `ptr.write(header)` drops nothing.
  unfoldable pub put_header : Bool → ℕ → M → Block M V → Result (List M × Block M V)
  unfolding read_metadata
  put_header was_allocated capacity metadata b =
      let b' = record b {
        metadata = some metadata;
        value_size = elem_size t;
        alignment = header_alignment header t;
        len = 0;
        capacity = capacity;
      } in
      if was_allocated
      then (read_metadata b >>= λ overwritten. ok (overwritten ∷ [], b'))
      else ok ([], b')

  unfoldable pub write_header : M → FreestandingVec M V → Result (List M × Block M V)
  unfolding allocate enlarge put_header
  write_header metadata none = allocate >>= λ r. put_header false r.0 metadata r.1
  write_header metadata (some b) = enlarge b >>= λ b'. put_header true b'.capacity metadata b'

  -- The metadata that are dropped, and the block.
  unfoldable pub init : FreestandingVec M V → M → Result (List M × Block M V)
  unfolding discard write_header
  init v metadata = discard v >>= λ r. write_header metadata r.1 >>= λ q. ok (r.0 ++ q.0, q.1)

  unfoldable pub new : M → Result (List M × Block M V)
  unfolding init
  new metadata = init none metadata

  -- The value must lie in the allocation.
  unfoldable pub store : Block M V → V → Result (Block M V)
  store b v =
      let at = header_size header t + b.len * t.size in
      if leb (at + t.size) b.size
      then ok (record b {
        value = λ i. if i == at then some v else b.value i;
        len = (b.len + 1) % 2 ^ 64;
      })
      else undefined

  unfoldable pub push : Block M V → V → Result (Block M V)
  unfolding reserve store
  push b v = reserve b t.size >>= λ b'. store b' v

-- `pop` knows the type of the values by the header alone. Its result stands for the call of `f`
-- with references to the metadata and to the value, neither of which it reads.
module _ {M V : Type 0} (header : TypeLayout) where
  unfoldable pub pop_address : Block M V → ℕ → ℕ
  unfolding next_multiple_of header_space
  pop_address b len =
      next_multiple_of (max (header_size header unit_layout) b.value_size) b.alignment
      + len * b.value_size

  unfoldable pub load : Option V → Block M V → Result (Option (Option M × V) × Block M V)
  load none b = undefined
  load (some v) b = ok (some (b.metadata, v), b)

  unfoldable pub pop : Block M V → Result (Option (Option M × V) × Block M V)
  unfolding load
  pop b =
      let len = b.len - 1 in
      if b.len == 0
      then ok (none, b)
      else load (b.value (pop_address b len)) (record b { len = len })
