-- ===== src/Vecs/Layout/Multiples.antt =====
-- Multiples of alignments, for vecs/src/freestanding_vec.rs and bags/src/cache_padded.rs.
use lockness.Prelude.{
  ℕ, zero, suc, ◌+◌, ◌-◌, ◌*◌, ◌/◌, ◌%◌, ◌^◌, ◌≤◌, ◌<◌, ◌≡◌, ap, subst, ◌==◌, arith, inl, inr,
  Bool-cases, pow-suc,
}
use Prim.Native.Nat.{◌∣◌}
use native.Mathlib.Nat.{
  dvd_refl, dvd-mul_left_of_dvd, dvd_of_mod-eq-zero, dvd-mul_right, div-add-mod, mod-lt, mul-suc,
}
use lockness.Vecs.Layout.{next_multiple_of}

pub pow-dvd : (l d : ℕ) → 2 ^ l ∣ 2 ^ (d + l)
pow-dvd l zero = subst (λ n. 2 ^ l ∣ 2 ^ n) (omega arith) (dvd_refl (2 ^ l))
pow-dvd l (suc d) =
    let plus : suc d + l ≡ suc (d + l) = omega arith in
    let e : 2 * 2 ^ (d + l) ≡ 2 ^ (suc d + l) =
      omega (arith, pow-suc 2 (d + l), ap (λ (n : ℕ). 2 ^ n) plus) in
    subst (λ n. 2 ^ l ∣ n) e (dvd-mul_left_of_dvd (2 ^ l) (pow-dvd l d) 2)

pub next_multiple_of-dvd : (x m : ℕ) → 0 < m → m ∣ next_multiple_of x m
unfolding next_multiple_of
next_multiple_of-dvd x m pos = elim (Bool-cases (x % m == 0)) [
  | inl exact ↦ rw exact (dvd_of_mod-eq-zero m (ground arith))
  | inr over ↦ rw over (
      subst (λ n. m ∣ n)
        (let whole : m * suc (x / m) ≡ x + (m - x % m) =
            omega (arith, mul-suc m (x / m), div-add-mod x m, mod-lt x pos) in
          whole)
        (dvd-mul_right m (suc (x / m))))
]

pub next_multiple_of-ge : (x m : ℕ) → x ≤ next_multiple_of x m
unfolding next_multiple_of
next_multiple_of-ge x m = ground arith
