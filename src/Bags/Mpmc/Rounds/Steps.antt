-- ===== src/Bags/Mpmc/Rounds/Steps.antt =====
-- How many accesses `try_recv` of bags/src/mpmc.rs takes.
use lockness.Prelude.{
  ℕ, zero, suc, ◌+◌, ◌-◌, ◌<◌, ◌≤◌, bit_and, min, Bool, true, false, ltb, leb, ◌==◌, ◌&&◌, List, [],
  length, arith, inl, inr, Bool-cases,
}
use lockness.Word.Bits.{complement}
use lockness.Word.LeadingZeros.{leading_zeros}
use lockness.Machine.Program.{
  Loc, Prog, ret, rmw, write, read, wait, wake, abort, undefined, out_of_fuel, ◌>>=◌,
}
use lockness.Machine.Access.{wake_if}
use lockness.Bags.Mpmc.Status.{n, all, counterparty_dead, sleeping, contains}
use lockness.Bags.Mpmc.Status.Cells.{leading_zeros-clear_bit}
use lockness.Bags.Mpmc.Drain.{clear_bit, drain_loop, drain_mask}
use lockness.Bags.Mpmc.Receiver.{collect, release, take_claimed, after_claim, try_recv, received}

-- The program ends after at most so many accesses of its own and wakes, whichever words and values it
-- meets; it neither waits nor runs out of fuel. A fault counts as an end.
abbrev pub IsWithin : {T A : Type 0} → ℕ → Prog T A → Type 0
IsWithin k (ret a) = Unit
IsWithin (suc k) (rmw l f next) = (w : ℕ) → IsWithin k (next w)
IsWithin (suc k) (write i v next) = IsWithin k next
IsWithin (suc k) (read i next) = (v : _) → IsWithin k (next v)
IsWithin (suc k) (wake l m next) = IsWithin k next
IsWithin k abort = Unit
IsWithin k undefined = Unit
IsWithin _ _ = ⊥

module _ {T A : Type 0} where
  IsWithin-le : (j k : ℕ) (p : Prog T A) → j ≤ k → IsWithin j p → IsWithin k p
  IsWithin-le j k (ret a) le o = tt
  IsWithin-le (suc j) (suc k) (rmw l f next) le o =
      λ w. IsWithin-le j k (next w) (omega arith) (o w)
  IsWithin-le (suc j) (suc k) (write i v next) le o = IsWithin-le j k next (omega arith) o
  IsWithin-le (suc j) (suc k) (read i next) le o = λ v. IsWithin-le j k (next v) (omega arith) (o v)
  IsWithin-le (suc j) (suc k) (wake l m next) le o = IsWithin-le j k next (omega arith) o
  IsWithin-le j k abort le o = tt
  IsWithin-le j k undefined le o = tt
  IsWithin-le (suc j) zero (rmw l f next) le o = absurd (omega arith)
  IsWithin-le (suc j) zero (write i v next) le o = absurd (omega arith)
  IsWithin-le (suc j) zero (read i next) le o = absurd (omega arith)
  IsWithin-le (suc j) zero (wake l m next) le o = absurd (omega arith)
  IsWithin-le zero k (rmw l f next) le o = absurd o
  IsWithin-le zero k (write i v next) le o = absurd o
  IsWithin-le zero k (read i next) le o = absurd o
  IsWithin-le zero k (wake l m next) le o = absurd o
  IsWithin-le zero k (wait l e next) le o = absurd o
  IsWithin-le (suc j) k (wait l e next) le o = absurd o
  IsWithin-le zero k out_of_fuel le o = absurd o
  IsWithin-le (suc j) k out_of_fuel le o = absurd o

  IsWithin-suc : (j k : ℕ) (p : Prog T A) → IsWithin (suc (j + k)) p → IsWithin (suc j + k) p
  IsWithin-suc j k p o = IsWithin-le (suc (j + k)) (suc j + k) p (omega arith) o

module _ {T A B : Type 0} where
  IsWithin->>= :
      (j k : ℕ) (p : Prog T A) (g : A → Prog T B)
      → IsWithin j p
      → ((a : A) → IsWithin k (g a))
      → IsWithin (j + k) (p >>= g)
  unfolding ◌>>=◌
  IsWithin->>= j k (ret a) g o r = IsWithin-le k (j + k) (g a) (omega arith) (r a)
  IsWithin->>= (suc j) k (rmw l f next) g o r =
      IsWithin-suc j k (rmw l f next >>= g) (λ w. IsWithin->>= j k (next w) g (o w) r)
  IsWithin->>= (suc j) k (write i v next) g o r =
      IsWithin-suc j k (write i v next >>= g) (IsWithin->>= j k next g o r)
  IsWithin->>= (suc j) k (read i next) g o r =
      IsWithin-suc j k (read i next >>= g) (λ v. IsWithin->>= j k (next v) g (o v) r)
  IsWithin->>= (suc j) k (wake l m next) g o r =
      IsWithin-suc j k (wake l m next >>= g) (IsWithin->>= j k next g o r)
  IsWithin->>= j k abort g o r = tt
  IsWithin->>= j k undefined g o r = tt
  IsWithin->>= zero k (rmw l f next) g o r = absurd o
  IsWithin->>= zero k (write i v next) g o r = absurd o
  IsWithin->>= zero k (read i next) g o r = absurd o
  IsWithin->>= zero k (wake l m next) g o r = absurd o
  IsWithin->>= zero k (wait l e next) g o r = absurd o
  IsWithin->>= (suc j) k (wait l e next) g o r = absurd o
  IsWithin->>= zero k out_of_fuel g o r = absurd o
  IsWithin->>= (suc j) k out_of_fuel g o r = absurd o

module _ (T : Type 0) where
  collect-IsWithin : (i : ℕ) (values : List T) → IsWithin 1 (collect i values)
  unfolding collect
  collect-IsWithin i values = λ v. elim (Bool-cases (ltb (length values) n)) [
    | inl room ↦ rw room tt
    | inr full ↦ rw full tt
  ]

  -- One access for each cell from the first set one on.
  drain_loop-IsWithin :
      (fuel mask : ℕ) (values : List T)
      → n < fuel + min (leading_zeros 32 mask) n
      → IsWithin (n - min (leading_zeros 32 mask) n) (drain_loop n collect fuel mask values)
  unfolding drain_loop
  drain_loop-IsWithin zero mask values enough = absurd (omega arith)
  drain_loop-IsWithin (suc fuel) mask values enough =
      elim (Bool-cases (leb n (leading_zeros 32 mask))) [
        | inl over ↦ rw over tt
        | inr more ↦
            let i : ℕ = leading_zeros 32 mask in
            let left : ℕ = n - min (leading_zeros 32 (clear_bit mask i)) n in
            let after = leading_zeros-clear_bit mask more in
            rw more (
              IsWithin-le (1 + left) (n - min i n) _ (ground arith) (
                IsWithin->>= 1 left (collect i values) _ (collect-IsWithin i values)
                  (λ s'. drain_loop-IsWithin fuel (clear_bit mask i) s' (ground arith))))
      ]

  release-IsWithin : (x86 : Bool) (claimed : ℕ) → IsWithin 1 (release {T = T} x86 claimed)
  unfolding release
  release-IsWithin x86 claimed =
      elim (Bool-cases (x86 && bit_and (complement 32 claimed) (complement 32 all) == 0)) [
        | inl everything ↦ rw everything (λ w. tt)
        | inr some_only ↦ rw some_only (λ w. tt)
      ]

  wake_if-IsWithin :
      {A : Type 0} (b : Bool) (l : Loc) (k : ℕ) (a : A)
      → IsWithin 1 (wake_if {T = T} b l k >>= λ _. ret a)
  unfolding ◌>>=◌
  wake_if-IsWithin true l k a = tt
  wake_if-IsWithin false l k a = tt

  drain_mask-IsWithin : (mask : ℕ) → IsWithin n (drain_mask n (collect {T = T}) mask [])
  unfolding drain_mask
  drain_mask-IsWithin mask =
      IsWithin-le (n - min (leading_zeros 32 mask) n) n _ (omega arith)
        (drain_loop-IsWithin (suc n) mask [] (omega arith))

  take_claimed-IsWithin :
      (x86 : Bool) (claimed : ℕ) → IsWithin (n + (1 + 1)) (take_claimed {T = T} x86 claimed)
  unfolding take_claimed
  take_claimed-IsWithin x86 claimed =
      IsWithin->>= n (1 + 1) (drain_mask n collect claimed []) _ (drain_mask-IsWithin claimed)
        (λ values.
          IsWithin->>= 1 1 (release x86 claimed) _ (release-IsWithin x86 claimed)
            (λ prev. wake_if-IsWithin (contains prev sleeping) Loc.send 1 (received values)))

  after_claim-IsWithin : (x86 : Bool) (w : ℕ) → IsWithin 32 (after_claim {T = T} x86 w)
  unfolding after_claim
  after_claim-IsWithin x86 w = elim (Bool-cases (bit_and w (complement 32 all) == 0)) [
    | inl nothing_there ↦
        rw nothing_there (elim (Bool-cases (contains (complement 32 w) counterparty_dead)) [
          | inl dead ↦ rw dead tt
          | inr alive ↦ rw alive tt
        ])
    | inr some_there ↦ rw some_there (take_claimed-IsWithin x86 (bit_and w (complement 32 all)))
  ]

  -- `try_recv` is wait-free: whichever words and values it meets, it ends after at most 33 accesses
  -- and wakes of its own (the claim, one read for each of at most 30 cells, the release and a wake),
  -- and does not wait.
  pub try_recv-IsWithin : (x86 : Bool) → IsWithin 33 (try_recv {T = T} x86)
  unfolding try_recv ◌>>=◌
  try_recv-IsWithin x86 = λ w. after_claim-IsWithin x86 w
