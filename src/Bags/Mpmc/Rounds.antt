-- ===== src/Bags/Mpmc/Rounds.antt =====
-- The loops of bags/src/mpmc.rs that need no other thread to end, and the fuel of their definitions.
pub mod Steps
use lockness.Prelude.{
  ℕ, zero, suc, ◌+◌, ◌^◌, ◌<◌, bit_and, bit_or, min, ◌≡◌, ◌∙◌, Bool, true, false, ltb, leb, ◌==◌,
  ◌&&◌, List, [], length, arith, inl, inr, Bool-cases,
}
use lockness.Word.Bits.{
  test_bit, complement, test_bit-or, test_bit-and, test_bit-complement, bit_or-lt, bit_and-le,
  complement-lt,
}
use lockness.Word.LeadingZeros.{leading_zeros}
use lockness.Machine.Program.{
  Loc, Prog, ret, rmw, write, read, wait, wake, abort, undefined, out_of_fuel, ◌>>=◌,
}
use lockness.Machine.Access.{wake_if}
use lockness.Bags.Mpmc.Status.{n, u32_max, counterparty_dead, sleeping, all, contains}
use lockness.Bags.Mpmc.Status.Cells.{leading_zeros-clear_bit}
use lockness.Bags.Mpmc.Status.Flags.{contains-flag}
use lockness.Bags.Mpmc.Drain.{drain_loop, drain_mask}
use lockness.Bags.Mpmc.Receiver.{collect, release, take_claimed, after_claim, try_recv, received}
use lockness.Bags.Mpmc.Blocking.{Spin, check_send, spin_send, check_recv, spin_recv}

-- No run of the program waits or uses up its fuel, whichever 32-bit words and values it meets.
abbrev pub Ends : {T A : Type 0} → Prog T A → Type 0
Ends (ret a) = Unit
Ends (rmw l f k) = (w : ℕ) → w < 2 ^ 32 → Ends (k w)
Ends (write i v k) = Ends k
Ends (read i k) = (v : _) → Ends (k v)
Ends (wait l e k) = ⊥
Ends (wake l m k) = Ends k
Ends abort = Unit
Ends undefined = Unit
Ends out_of_fuel = ⊥

module _ {T A B : Type 0} where
  Ends->>= : (p : Prog T A) (g : A → Prog T B) → Ends p → ((a : A) → Ends (g a)) → Ends (p >>= g)
  unfolding ◌>>=◌
  Ends->>= (ret a) g e r = r a
  Ends->>= (rmw l f k) g e r = λ w fits. Ends->>= (k w) g (e w fits) r
  Ends->>= (write i v k) g e r = Ends->>= k g e r
  Ends->>= (read i k) g e r = λ v. Ends->>= (k v) g (e v) r
  Ends->>= (wait l x k) g e r = e
  Ends->>= (wake l m k) g e r = Ends->>= k g e r
  Ends->>= abort g e r = tt
  Ends->>= undefined g e r = tt
  Ends->>= out_of_fuel g e r = e

module _ {T S : Type 0} (f : ℕ → S → Prog T S) (each : (i : ℕ) (s : S) → Ends (f i s)) where
  drain_loop-Ends :
      (fuel mask : ℕ) (s : S)
      → n < fuel + min (leading_zeros 32 mask) n
      → Ends (drain_loop n f fuel mask s)
  unfolding drain_loop
  drain_loop-Ends zero mask s enough = absurd (omega arith)
  drain_loop-Ends (suc fuel) mask s enough = elim (Bool-cases (leb n (leading_zeros 32 mask))) [
    | inl over ↦ rw over tt
    | inr more ↦ rw more (
        Ends->>= (f (leading_zeros 32 mask) s) _ (each _ s)
          (λ s'. drain_loop-Ends fuel _ s' (ground (arith, leading_zeros-clear_bit mask more))))
  ]

  -- `drain_mask` ends, if the closure does.
  pub drain_mask-Ends : (mask : ℕ) (s : S) → Ends (drain_mask n f mask s)
  unfolding drain_mask
  drain_mask-Ends mask s = drain_loop-Ends (suc n) mask s (omega arith)

module _ (T : Type 0) where
  check_send-Ends :
      (w : ℕ) (next : Prog T Spin)
      → (contains w sleeping ≡ false → Ends next)
      → Ends (check_send w next)
  unfolding check_send
  check_send-Ends w next o = elim (Bool-cases (ltb (bit_or w all) u32_max)) [
    | inl room ↦ rw room tt
    | inr no_room ↦ rw no_room (elim (Bool-cases (contains w counterparty_dead)) [
      | inl dead ↦ rw dead tt
      | inr alive ↦ rw alive (elim (Bool-cases (contains w sleeping)) [
        | inl set ↦ rw set tt
        | inr clear ↦ rw clear (o clear)
      ])
    ])
  ]

  sleeping_set : (w : ℕ) → w < 2 ^ 32 → contains (bit_or w sleeping) sleeping ≡ true
  unfolding test_bit
  sleeping_set w fits =
      contains-flag 32 (bit_or w sleeping) 1 (bit_or-lt 32 w 2 fits (omega arith)) (omega arith)
      ∙ ground (arith, test_bit-or 1 w 2)

  -- The spin loop of `send` ends from any count, whichever 32-bit words it meets.
  pub spin_send-Ends : (spin : ℕ) → Ends (spin_send {T = T} spin)
  unfolding spin_send ◌>>=◌
  spin_send-Ends zero = λ w fits.
      check_send-Ends (bit_or w sleeping) out_of_fuel
        (λ clear. let set = sleeping_set w fits in ground arith)
  spin_send-Ends (suc spin) =
      λ w fits. check_send-Ends w (spin_send spin) (λ _. spin_send-Ends spin)

  sleeping_cleared :
      (w : ℕ)
      → w < 2 ^ 32
      → contains (complement 32 (bit_and w (complement 32 sleeping))) sleeping ≡ true
  unfolding test_bit
  sleeping_cleared w fits =
      let m : ℕ = bit_and w (complement 32 sleeping) in
      let small : m < 2 ^ 32 = omega (arith, bit_and-le 32 w (complement 32 sleeping) fits) in
      contains-flag 32 (complement 32 m) 1 (complement-lt 32 m) (omega arith)
      ∙ ground (
        arith,
        test_bit-complement 32 1 m (omega arith) small,
        test_bit-and 1 w (complement 32 2),
        test_bit-complement 32 1 2 (omega arith) (omega arith),
      )

  check_recv-Ends :
      (w : ℕ) (next : Prog T Spin)
      → (contains (complement 32 w) sleeping ≡ false → Ends next)
      → Ends (check_recv w next)
  unfolding check_recv
  check_recv-Ends w next o = elim (Bool-cases (ltb 0 (bit_and w (complement 32 all)))) [
    | inl some_there ↦ rw some_there tt
    | inr nothing_there ↦
        rw nothing_there (elim (Bool-cases (contains (complement 32 w) counterparty_dead)) [
          | inl dead ↦ rw dead tt
          | inr alive ↦ rw alive (elim (Bool-cases (contains (complement 32 w) sleeping)) [
            | inl set ↦ rw set tt
            | inr clear ↦ rw clear (o clear)
          ])
        ])
  ]

  -- The spin loop of `recv` ends from any count, whichever 32-bit words it meets.
  pub spin_recv-Ends : (spin : ℕ) → Ends (spin_recv {T = T} spin)
  unfolding spin_recv ◌>>=◌
  spin_recv-Ends zero = λ w fits.
      check_recv-Ends (bit_and w (complement 32 sleeping)) out_of_fuel
        (λ clear. let set = sleeping_cleared w fits in ground arith)
  spin_recv-Ends (suc spin) =
      λ w fits. check_recv-Ends w (spin_recv spin) (λ _. spin_recv-Ends spin)

  collect-Ends : (i : ℕ) (values : List T) → Ends (collect i values)
  unfolding collect
  collect-Ends i values = λ v. elim (Bool-cases (ltb (length values) n)) [
    | inl room ↦ rw room tt
    | inr full ↦ rw full tt
  ]

  release-Ends : (x86 : Bool) (claimed : ℕ) → Ends (release {T = T} x86 claimed)
  unfolding release
  release-Ends x86 claimed =
      elim (Bool-cases (x86 && bit_and (complement 32 claimed) (complement 32 all) == 0)) [
        | inl everything ↦ rw everything (λ w fits. tt)
        | inr some_only ↦ rw some_only (λ w fits. tt)
      ]

  wake_if-Ends :
      {A : Type 0} (b : Bool) (l : Loc) (k : ℕ) (p : Prog T A)
      → Ends p
      → Ends (wake_if b l k >>= λ _. p)
  unfolding ◌>>=◌
  wake_if-Ends true l k p e = e
  wake_if-Ends false l k p e = e

  take_claimed-Ends : (x86 : Bool) (claimed : ℕ) → Ends (take_claimed {T = T} x86 claimed)
  unfolding take_claimed
  take_claimed-Ends x86 claimed =
      Ends->>= (drain_mask n collect claimed []) _ (drain_mask-Ends collect collect-Ends claimed [])
        (λ values.
          Ends->>= (release x86 claimed) _ (release-Ends x86 claimed)
            (λ prev. wake_if-Ends (contains prev sleeping) Loc.send 1 (ret (received values)) tt))

  after_claim-Ends : (x86 : Bool) (w : ℕ) → Ends (after_claim {T = T} x86 w)
  unfolding after_claim
  after_claim-Ends x86 w = elim (Bool-cases (bit_and w (complement 32 all) == 0)) [
    | inl nothing_there ↦
        rw nothing_there (elim (Bool-cases (contains (complement 32 w) counterparty_dead)) [
          | inl dead ↦ rw dead tt
          | inr alive ↦ rw alive tt
        ])
    | inr some_there ↦ rw some_there (take_claimed-Ends x86 (bit_and w (complement 32 all)))
  ]

  -- `try_recv` ends, whichever 32-bit words it meets: its loop has fuel enough.
  pub try_recv-Ends : (x86 : Bool) → Ends (try_recv {T = T} x86)
  unfolding try_recv ◌>>=◌
  try_recv-Ends x86 = λ w fits. after_claim-Ends x86 w
