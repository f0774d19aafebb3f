-- ===== src/Bags/CachePadded/Lines.antt =====
-- Cache lines under the padded values of bags/src/cache_padded.rs.
use lockness.Prelude.{
  ℕ, suc, ◌+◌, ◌-◌, ◌*◌, ◌/◌, ◌%◌, ◌^◌, ◌≤◌, ◌<◌, max, ◌≡◌, refl, sym, subst, arith, one-le-pow,
}
use Prim.Native.Nat.{◌∣◌}
use native.Mathlib.Nat.{
  dvd_trans, dvd-add, dvd-mul_left_of_dvd, dvd_of_mod-eq-zero, mod-eq-zero_of_dvd, mul-le-mul_right,
  div-add-mod', div-lt_iff_lt-mul, le-div_iff_mul-le, suc-mul,
}
use lockness.Vecs.Layout.{TypeLayout, align}
use lockness.Vecs.Layout.Multiples.{pow-dvd, next_multiple_of-dvd}
use lockness.Bags.CachePadded.{
  Arch, x86_64, aarch64, arm64ec, powerpc64, arm, mips, mips32r6, mips64, mips64r6, sparc, hexagon,
  m68k, s390x, others, log_repr, cache_padded,
}

-- The length of a cache line, or of the pair of lines that is fetched at once, by architecture.
abbrev pub line : Arch → ℕ
line x86_64 = 128
line aarch64 = 128
line arm64ec = 128
line powerpc64 = 128
line arm = 32
line mips = 32
line mips32r6 = 32
line mips64 = 32
line mips64r6 = 32
line sparc = 32
line hexagon = 32
line m68k = 16
line s390x = 256
line others = 64

line-log_repr : (a : Arch) → line a ≡ 2 ^ log_repr a
unfolding log_repr
line-log_repr x86_64 = refl
line-log_repr aarch64 = refl
line-log_repr arm64ec = refl
line-log_repr powerpc64 = refl
line-log_repr arm = refl
line-log_repr mips = refl
line-log_repr mips32r6 = refl
line-log_repr mips64 = refl
line-log_repr mips64r6 = refl
line-log_repr sparc = refl
line-log_repr hexagon = refl
line-log_repr m68k = refl
line-log_repr s390x = refl
line-log_repr others = refl

line-dvd-align : (a : Arch) (t : TypeLayout) → line a ∣ align (cache_padded a t)
unfolding cache_padded
line-dvd-align a t =
    let d : ℕ = max (log_repr a) t.log_align - log_repr a in
    let e : d + log_repr a ≡ max (log_repr a) t.log_align = omega arith in
    subst (λ l. l ∣ 2 ^ max (log_repr a) t.log_align) (sym (line-log_repr a))
      (subst (λ n. 2 ^ log_repr a ∣ 2 ^ n) e (pow-dvd (log_repr a) d))

align-dvd-size : (a : Arch) (t : TypeLayout) → align (cache_padded a t) ∣ (cache_padded a t).size
unfolding cache_padded
align-dvd-size a t =
    next_multiple_of-dvd t.size (2 ^ max (log_repr a) t.log_align)
      (one-le-pow (max (log_repr a) t.log_align) 2 (omega arith))

line-pos : (a : Arch) → 0 < line a
line-pos a = ground arith

-- What lies below a line's start is on an earlier line.
earlier_line : (l x y z : ℕ) → 0 < l → l ∣ y → x < y → y ≤ z → x / l < z / l
earlier_line l x y z pos divides lt le =
    let start : y / l * l ≡ y = omega (arith, div-add-mod' y l, mod-eq-zero_of_dvd l divides) in
    let below : x / l < y / l = (div-lt_iff_lt-mul pos).1 (omega (arith, start)) in
    let above : y / l ≤ z / l = (le-div_iff_mul-le pos).1 (omega (arith, start)) in omega arith

-- Two elements of an array of padded values, which starts at an address that its alignment divides,
-- have no byte on the same line, whatever the type of the values and on each architecture.
pub separate_lines :
    (a : Arch) (t : TypeLayout) (base i j p q : ℕ)
    → base % align (cache_padded a t) ≡ 0
    → i < j
    → p < (cache_padded a t).size
    → (base + i * (cache_padded a t).size + p) / line a
      < (base + j * (cache_padded a t).size + q) / line a
separate_lines a t base i j p q aligned lt inside =
    let size : ℕ = (cache_padded a t).size in
    let to_size : line a ∣ size = dvd_trans (line a) (line-dvd-align a t) (align-dvd-size a t) in
    let to_base : line a ∣ base =
      dvd_trans (line a) (line-dvd-align a t)
        (dvd_of_mod-eq-zero (align (cache_padded a t)) aligned) in
    let to_start : line a ∣ base + j * size =
      dvd-add (line a) to_base (dvd-mul_left_of_dvd (line a) to_size j) in
    let room : suc i * size ≤ j * size = mul-le-mul_right size lt in
    let step : suc i * size ≡ i * size + size = suc-mul i size in
    earlier_line (line a) (base + i * size + p) (base + j * size) (base + j * size + q) (line-pos a)
      to_start (omega arith) (omega arith)
