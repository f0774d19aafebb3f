-- ===== src/Bags/Mpmc/Protocol/Recv.antt =====
-- `Receiver::try_recv` of bags/src/mpmc.rs under the protocol.
use lockness.Prelude.{
  ℕ, ◌^◌, ◌<◌, bit_and, ◌≡◌, refl, sym, ap, ◌∙◌, Bool, true, false, not, ◌&&◌, ◌==◌, arith, inl,
  inr, Bool-cases, [],
}
use lockness.Word.Bits.{bit_and-le, complement, complement-lt}
use lockness.Machine.Program.{Loc, Prog, ret, rmw}
use lockness.Bags.Mpmc.Status.{n, slot_bit, all, contains, sleeping, counterparty_dead}
use lockness.Bags.Mpmc.Status.Cells.{
  slot_bit-and, slot_bit-complement, slot_bit-all, slot_bit-zero, slot_bit-range,
}
use lockness.Bags.Mpmc.Drain.{drain_mask}
use lockness.Bags.Mpmc.Receiver.{received, collect, release, take_claimed, after_claim, try_recv}
use lockness.Bags.Mpmc.Protocol.Obeys.{
  Hold, Held, nothing, empty, full, May, Sees, step_hold, after, Obeys, Obeys->>=, Obeys_mono,
}
use lockness.Bags.Mpmc.Protocol.Drain.{Emptying, collect-Keeps, drain_mask-Obeys}
use lockness.Bags.Mpmc.Protocol.Send.{SameHeld, wake_if-Obeys}

May-clear : (b : Bool) (x : Hold) → May Loc.recv b false x
May-clear true x = tt
May-clear false x = tt

May-release : (b c : Bool) (x : Hold) → (c ≡ true → x ≡ empty) → May Loc.send b (b && not c) x
May-release true true x e = e refl
May-release true false x e = tt
May-release false c x e = tt

Sees-set : (x : Hold) (b : Bool) → Sees Loc.send x b → x ≡ empty → b ≡ true
Sees-set Hold.nothing b s e = cc
Sees-set Hold.empty b s e = s
Sees-set Hold.full b s e = cc

given :
    (b c : Bool) (x y : Hold)
    → Sees Loc.send x b
    → (c ≡ true → (x ≡ empty) × (y ≡ nothing))
    → (c ≡ false → x ≡ y)
    → step_hold Loc.send b (b && not c) x ≡ y
given true true x y s p q = sym (p refl).1
given false true x y s p q = cc (Sees-set x false s (p refl).0)
given true false x y s p q = q refl
given false false x y s p q = q refl

Sees-committed : (x : Hold) → Sees Loc.recv x true → x ≡ nothing
Sees-committed Hold.nothing s = refl
Sees-committed Hold.empty s = cc
Sees-committed Hold.full s = cc

slot_bit-not_status : (w i : ℕ) → slot_bit (bit_and w (complement 32 all)) i ≡ slot_bit w i
slot_bit-not_status w i = ground (
  arith,
  slot_bit-and w (complement 32 all) i,
  slot_bit-complement all i,
  slot_bit-all i,
  slot_bit-range w i,
)

-- The cells of `c` are held empty, and the others as under `h₀`.
pub record IsEmptied (c : ℕ) (h₀ h : Held) : Type 0 where
  pub own : (i : ℕ) → slot_bit c i ≡ true → h i ≡ empty
  pub others : (i : ℕ) → slot_bit c i ≡ false → h i ≡ h₀ i

module _ (T : Type 0) (x86 : Bool) (c : ℕ) (h₀ h : Held) (fits : c < 2 ^ 32)
    (fresh : (i : ℕ) → slot_bit c i ≡ true → h₀ i ≡ nothing) (emptied : IsEmptied c h₀ h) where
  abbrev mask : ℕ
  mask = bit_and (complement 32 c) (complement 32 all)

  mask-lt : mask < 2 ^ 32
  mask-lt = omega (
    arith,
    bit_and-le 32 (complement 32 c) (complement 32 all) (complement-lt 32 c),
    complement-lt 32 c,
  )

  slot_bit-release : (w i : ℕ) → slot_bit (bit_and w mask) i ≡ (slot_bit w i && not (slot_bit c i))
  slot_bit-release w i = ground (
    arith,
    slot_bit-and w mask i,
    slot_bit-not_status (complement 32 c) i,
    slot_bit-complement c i fits,
    slot_bit-range w i,
  )

  clear-Obeys :
      (f : ℕ → ℕ)
      → ((w : ℕ) → w < 2 ^ 32 → f w < 2 ^ 32)
      → ((w i : ℕ) → slot_bit (f w) i ≡ (slot_bit w i && not (slot_bit c i)))
      → let p : Prog T ℕ = rmw Loc.send f ret in Obeys p h (λ _. SameHeld h₀)
  clear-Obeys f f_fits f_bits = λ w w_fits sees. (
    f_fits w w_fits,
    λ i. rw (f_bits w i) (May-release (slot_bit w i) (slot_bit c i) (h i) (emptied.own i)),
    λ i. rw (f_bits w i) (
        given (slot_bit w i) (slot_bit c i) (h i) (h₀ i) (sees i)
          (λ e. (emptied.own i e, fresh i e)) (emptied.others i)),
  )

  release-Obeys : Obeys (release {T = T} x86 c) h (λ _. SameHeld h₀)
  unfolding release
  release-Obeys = elim (Bool-cases (x86 && mask == 0)) [
    | inl no_word ↦
        let e : mask ≡ 0 = ground arith in
        rw no_word (
          clear-Obeys (λ _. mask) (λ w w_fits. mask-lt)
            (λ w i. ground (
              arith,
              ap (λ x. slot_bit x i) e,
              slot_bit-zero i,
              slot_bit-not_status (complement 32 c) i,
              slot_bit-complement c i fits,
              slot_bit-range w i,
            )))
    | inr part_word ↦ rw part_word (
        clear-Obeys (λ w. bit_and w mask) (λ w w_fits. omega (arith, bit_and-le 32 w mask w_fits))
          slot_bit-release)
  ]

module _ (T : Type 0) where
  take_claimed-Obeys :
      (x86 : Bool) (c : ℕ) (h₀ h : Held)
      → c < 2 ^ 32
      → ((i : ℕ) → slot_bit c i ≡ true → h₀ i ≡ nothing)
      → ((i : ℕ) → slot_bit c i ≡ true → h i ≡ full)
      → ((i : ℕ) → slot_bit c i ≡ false → h i ≡ h₀ i)
      → Obeys (take_claimed {T = T} x86 c) h (λ _. SameHeld h₀)
  unfolding take_claimed
  take_claimed-Obeys x86 c h₀ h fits fresh own others =
      Obeys->>= (drain_mask n collect c []) _ h _ (
        Obeys_mono (drain_mask n collect c []) h _ _
          (λ values h' dr. Obeys->>= (release x86 c) _ h' _ (
            Obeys_mono (release x86 c) h' _ _
              (λ prev h'' same.
                wake_if-Obeys (contains prev sleeping) Loc.send 1 (ret (received values)) h''
                  (λ _. SameHeld h₀) same)
              (release-Obeys T x86 c h₀ h' fits fresh (record {
                own = λ i e. dr.1.emptied i (dr.2 i) e;
                others = λ i e. dr.1.others i e;
              }))))
          (drain_mask-Obeys collect (Emptying c h₀) (collect-Keeps c h₀) c [] h (record {
            room = omega arith;
            part = λ i e. e;
            left = own;
            emptied = λ i e e'. cc;
            others = others;
          })))

  none_left : (w i : ℕ) → slot_bit (bit_and w all) i ≡ false
  none_left w i = ground (arith, slot_bit-and w all i, slot_bit-all i)

  claimed_all :
      (w : ℕ) (h : Held) (i : ℕ)
      → after Loc.recv w (bit_and w all) h i ≡ step_hold Loc.recv (slot_bit w i) false (h i)
  claimed_all w h i = ap (λ b. step_hold Loc.recv (slot_bit w i) b (h i)) (none_left w i)

  gained : (b : Bool) (x : Hold) → b ≡ true → step_hold Loc.recv b false x ≡ full
  gained true x e = refl
  gained false x e = cc

  kept : (b : Bool) (x : Hold) → b ≡ false → step_hold Loc.recv b false x ≡ x
  kept true x e = cc
  kept false x e = refl

  Sees-nothing : (x : Hold) (b : Bool) → Sees Loc.recv x b → b ≡ true → x ≡ nothing
  Sees-nothing Hold.nothing b s e = refl
  Sees-nothing Hold.empty b s e = cc
  Sees-nothing Hold.full b s e = cc

  after_claim-Obeys :
      (x86 : Bool) (w : ℕ) (h : Held)
      → w < 2 ^ 32
      → ((i : ℕ) → Sees Loc.recv (h i) (slot_bit w i))
      → Obeys (after_claim {T = T} x86 w) (after Loc.recv w (bit_and w all) h) (λ _. SameHeld h)
  unfolding after_claim
  after_claim-Obeys x86 w h w_fits sees =
      let c : ℕ = bit_and w (complement 32 all) in
      let h₁ : Held = after Loc.recv w (bit_and w all) h in
      elim (Bool-cases (c == 0)) [
        | inl nothing_there ↦
            let e : c ≡ 0 = ground arith in
            let same : SameHeld h h₁ = λ i.
              claimed_all w h i
              ∙ kept (slot_bit w i) (h i)
                  (sym (slot_bit-not_status w i) ∙ ap (λ x. slot_bit x i) e ∙ slot_bit-zero i) in
            rw nothing_there (elim (Bool-cases (contains (complement 32 w) counterparty_dead)) [
              | inl gone ↦ rw gone same
              | inr alive ↦ rw alive same
            ])
        | inr some_there ↦ rw some_there (
            take_claimed-Obeys x86 c h h₁
              (omega (arith, bit_and-le 32 w (complement 32 all) w_fits))
              (λ i e.
                Sees-nothing (h i) (slot_bit w i) (sees i) (sym (slot_bit-not_status w i) ∙ e))
              (λ i e.
                claimed_all w h i ∙ gained (slot_bit w i) (h i) (sym (slot_bit-not_status w i) ∙ e))
              (λ i e.
                claimed_all w h i ∙ kept (slot_bit w i) (h i) (sym (slot_bit-not_status w i) ∙ e)))
      ]

  -- `try_recv` reads only cells that its thread holds with a value, gives back only cells that it
  -- holds emptied, never puts more in its buffer than fits, and its thread holds afterwards the
  -- cells that it held before.
  pub try_recv-Obeys : (x86 : Bool) (h : Held) → Obeys (try_recv {T = T} x86) h (λ _. SameHeld h)
  unfolding try_recv
  try_recv-Obeys x86 h = λ w w_fits sees. (
    omega (arith, bit_and-le 32 w all w_fits),
    λ i. rw (none_left w i) (May-clear (slot_bit w i) (h i)),
    after_claim-Obeys x86 w h w_fits sees,
  )
