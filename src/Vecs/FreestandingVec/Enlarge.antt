-- ===== src/Vecs/FreestandingVec/Enlarge.antt =====
-- The growth of an empty block by `init` of vecs/src/freestanding_vec.rs.
use lockness.Prelude.{
  ℕ, ◌+◌, ◌-◌, ◌*◌, ◌%◌, ◌^◌, ◌≤◌, ◌<◌, ◌≡◌, refl, ap, max, Bool, true, leb, if◌then◌else◌, arith,
}
use native.Mathlib.Decide.{dec_lt}
use lockness.Vecs.Layout.{
  TypeLayout, align, next_multiple_of, header_space, header_size, min_non_zero_cap, isize_max,
}
use lockness.Vecs.FreestandingVec.{ok, Block, enlarge, reserve, grow, new_capacity}
use lockness.Vecs.FreestandingVec.Stack.{IsLayout}

pub next_multiple_of-le : (x m : ℕ) → next_multiple_of x m ≤ x + m
unfolding next_multiple_of
next_multiple_of-le x m = ground arith

pub header_size-le : (header t : TypeLayout) → header_size header t ≤ min_non_zero_cap header t
unfolding min_non_zero_cap
header_size-le header t = omega arith

module _ {M V : Type 0} (grants : ℕ → Bool) (header t : TypeLayout) (layout : IsLayout header t)
    (granted : (k : ℕ) → grants k ≡ true) (small : min_non_zero_cap header t ≤ 2 ^ 61) where
  -- An empty block of the right alignment, whatever its values were.
  pub record IsSpare (b : Block M V) : Type 0 where
    pub nothing_there : b.len ≡ 0
    pub whole : b.capacity ≡ b.size
    pub aligned : b.align ≡ align (header_space header t)
    pub few : b.capacity ≤ 2 ^ 61

  pub record IsEnlarged (b : Block M V) : Type 0 where
    pub whole : b.capacity ≡ b.size
    pub aligned : b.align ≡ align (header_space header t)
    pub room : header_size header t ≤ b.capacity
    pub bound : b.capacity ≤ isize_max

  abbrev missing : Block M V → ℕ
  missing b = header_size header t + (min_non_zero_cap header t - b.capacity)

  -- The new capacity of a block that is too small.
  abbrev larger : Block M V → ℕ
  larger b = max (b.capacity * 2) (missing b)

  used_none :
      (b : Block M V)
      → IsSpare b
      → (b.len * t.size + header_size header t) % 2 ^ 64 ≡ header_size header t
  used_none b s =
      let e = ap (λ (k : ℕ). k * t.size) s.nothing_there in omega (arith, header_size-le header t)

  new_capacity-larger :
      (b : Block M V)
      → IsSpare b
      → new_capacity {M = M} {V = V} grants header t b (missing b) ≡ larger b
  unfolding new_capacity
  new_capacity-larger b s = omega (arith, s.few)

  grow-larger :
      (b : Block M V)
      → IsSpare b
      → grow grants header t b (larger b) ≡ ok (record b { size = larger b; capacity = larger b })
  unfolding grow
  grow-larger b s = ground (
    arith,
    granted (larger b),
    next_multiple_of-le (larger b) b.align,
    layout.align_lt,
    header_size-le header t,
  )

  -- `reserve` adds the missing bytes to the header, not to the capacity.
  reserve_spare :
      (b : Block M V)
      → IsSpare b
      → b.capacity < min_non_zero_cap header t
      → reserve grants header t b (min_non_zero_cap header t - b.capacity) ≡ (
          if leb (missing b) b.capacity
          then ok b
          else ok (record b { size = larger b; capacity = larger b }))
  unfolding reserve
  reserve_spare b s short =
      ground
        (arith, used_none b s, new_capacity-larger b s, grow-larger b s, header_size-le header t)

  -- The growth keeps the header, and stays within a bound.
  abbrev pub IsGrown : Block M V → Block M V → Type 0
  IsGrown b b' =
      IsEnlarged b'
      × (b'.metadata ≡ b.metadata)
      × (b'.capacity ≤ max b.capacity (2 * min_non_zero_cap header t))

  pub enlarge_lem :
      (b : Block M V)
      → IsSpare b
      → (b' : Block M V) × (enlarge grants header t b ≡ ok b') × IsGrown b b'
  unfolding enlarge
  enlarge_lem b s = elim (dec_lt b.capacity (min_non_zero_cap header t)) [
    | yes short ↦ elim (dec_lt b.capacity (missing b)) [
      | yes less ↦ (
        record b { size = larger b; capacity = larger b },
        ground (arith, reserve_spare b s),
        (
          record {
            whole = refl;
            aligned = s.aligned;
            room = omega arith;
            bound = omega (arith, s.few, header_size-le header t);
          },
          refl,
          omega (arith, header_size-le header t),
        ),
      )
      | no enough ↦ (
        b,
        ground (arith, reserve_spare b s),
        (
          record {
            whole = s.whole;
            aligned = s.aligned;
            room = omega arith;
            bound = omega (arith, s.few);
          },
          refl,
          omega arith,
        ),
      )
    ]
    | no big ↦ (
      b,
      ground arith,
      (
        record {
          whole = s.whole;
          aligned = s.aligned;
          room = omega (arith, header_size-le header t);
          bound = omega (arith, s.few);
        },
        refl,
        omega arith,
      ),
    )
  ]
