-- ===== src/Vecs/FreestandingVec/Addresses.antt =====
-- The addresses at which vecs/src/freestanding_vec.rs stores and finds values.
use lockness.Prelude.{
  ℕ, suc, ◌+◌, ◌-◌, ◌*◌, ◌%◌, ◌^◌, ◌≤◌, ◌<◌, max, ◌≡◌, ap, ◌∙◌, subst, List, length, arith,
  one-le-pow,
}
use Prim.Native.Nat.{◌∣◌}
use native.Mathlib.Nat.{
  dvd_trans, dvd-add, dvd-mul_left_of_dvd, dvd_of_mod-eq-zero, mod-eq-zero_of_dvd, mul-le-mul_right,
  suc-mul,
}
use lockness.Vecs.Layout.{TypeLayout, align, header_space, header_size}
use lockness.Vecs.Layout.Multiples.{pow-dvd, next_multiple_of-dvd, next_multiple_of-ge}
use lockness.Vecs.FreestandingVec.{Block, pop_address}
use lockness.Vecs.FreestandingVec.Stack.{IsLayout, Holds}
use lockness.Vecs.FreestandingVec.Pop.{pop_address_lem}

module _ (header t : TypeLayout) where
  header_size-ge : header.size ≤ header_size header t
  unfolding header_space
  header_size-ge =
      let above =
        next_multiple_of-ge (max header.size t.size) (2 ^ max header.log_align t.log_align) in
      omega arith

  align-dvd-header_space : align t ∣ align (header_space header t)
  unfolding header_space
  align-dvd-header_space =
      let d : ℕ = max header.log_align t.log_align - t.log_align in
      let e : d + t.log_align ≡ max header.log_align t.log_align = omega arith in
      subst (λ n. 2 ^ t.log_align ∣ 2 ^ n) e (pow-dvd t.log_align d)

  header_space-dvd-size : align (header_space header t) ∣ header_size header t
  unfolding header_space
  header_space-dvd-size =
      next_multiple_of-dvd (max header.size t.size) (2 ^ max header.log_align t.log_align)
        (one-le-pow (max header.log_align t.log_align) 2 (omega arith))

  module _ {M V : Type 0} (layout : IsLayout header t) where
    -- On a vector of values of type `T`, in an allocation that starts at a multiple of its
    -- alignment, the address that `pop` computes for a value, without knowledge of `T`, is a multiple
    -- of the alignment of `T`; the value lies behind the header, ends within the allocation, and
    -- ends before the next one.
    pub pop_address_in_block :
        (b : Block M V) (l : List V) (i base : ℕ)
        → Holds header t b l
        → t.size % align t ≡ 0
        → base % b.align ≡ 0
        → i < length l
        → ((base + pop_address header b i) % align t ≡ 0)
          × (header.size ≤ pop_address header b i)
          × (pop_address header b i + t.size ≤ b.size)
          × (pop_address header b i + t.size ≤ pop_address header b (suc i))
    pop_address_in_block b l i base h whole_size aligned lt =
        let here : pop_address header b i ≡ header_size header t + i * t.size =
          pop_address_lem header t layout b l i h in
        let next : pop_address header b (suc i) ≡ header_size header t + suc i * t.size =
          pop_address_lem header t layout b l (suc i) h in
        let step : suc i * t.size ≡ i * t.size + t.size = suc-mul i t.size in
        let room : suc i * t.size ≤ b.len * t.size =
          mul-le-mul_right t.size (omega (arith, h.is_len)) in
        let same : b.align ≡ align (header_space header t) = h.same_align ∙ h.aligned in
        let to_base : align t ∣ base = dvd_trans (align t) align-dvd-header_space (
          dvd_of_mod-eq-zero (align (header_space header t))
            (subst (λ a. base % a ≡ 0) same aligned)) in
        let to_header : align t ∣ header_size header t =
          dvd_trans (align t) align-dvd-header_space header_space-dvd-size in
        let to_value : align t ∣ i * t.size =
          dvd-mul_left_of_dvd (align t) (dvd_of_mod-eq-zero (align t) whole_size) i in
        (
          ap (λ a. (base + a) % align t) here
              ∙ mod-eq-zero_of_dvd (align t)
                  (dvd-add (align t) to_base (dvd-add (align t) to_header to_value)),
          omega (arith, here, header_size-ge),
          omega (arith, here, step, room, h.fits, h.whole),
          omega (arith, here, next, step),
        )
