-- ===== src/Bags/Mpmc/Protocol/Reserve.antt =====
-- The loop of `Sender::try_send` (bags/src/mpmc.rs) that reserves cells, under the protocol.
use lockness.Prelude.{
  ℕ, zero, suc, ◌^◌, ◌≤◌, ◌<◌, ◌%◌, bit_and, bit_or, ◌≡◌, refl, sym, ap, ◌∙◌, subst, fun_ext, Bool,
  true, false, not, ◌||◌, ◌&&◌, ◌==◌, ltb, arith, inl, inr, Bool-cases, ==_iff, ltb→lt,
}
use lockness.Word.Bits.{complement, complement-lt, bit_or-lt, bit_and-le, test_bit-and}
use lockness.Word.Count.{count_ones, count_ones_mono}
use lockness.Machine.Program.{Loc}
use lockness.Bags.Mpmc.Status.{slot_bit, contains, counterparty_dead, all, u32_max}
use lockness.Bags.Mpmc.Status.Cells.{
  slot_bit-or, slot_bit-and, slot_bit-complement, slot_bit-all, slot_bit-zero, slot_bit-u32_max,
  slot_bit-range,
}
use lockness.Bags.Mpmc.Masks.{clear_extra_bits}
use lockness.Bags.Mpmc.Masks.Trim.{Trimmed, clear_extra_bits-Trimmed}
use lockness.Bags.Mpmc.Sender.{Reservation, reserve}
use lockness.Bags.Mpmc.Protocol.Obeys.{
  Hold, Held, nothing, empty, May, Sees, step_hold, after, Obeys,
}

-- `c` are cells that were free under `h` and are held empty under `h'`.
pub record IsClaim (items : ℕ) (h : Held) (c : ℕ) (h' : Held) : Type 0 where
  pub fits : c < 2 ^ 32
  pub positive : 0 < c
  pub enough : count_ones 32 c ≤ items
  pub fresh : (i : ℕ) → slot_bit c i ≡ true → h i ≡ nothing
  pub taken : (i : ℕ) → slot_bit c i ≡ true → h' i ≡ empty
  pub others : (i : ℕ) → slot_bit c i ≡ false → h' i ≡ h i

abbrev pub Claimed : ℕ → Held → Reservation → Held → Type 0
Claimed items h (Reservation.reserved c) h' = IsClaim items h c h'
Claimed items h Reservation.dead h' = Unit
Claimed items h Reservation.no_room h' = (i : ℕ) → h' i ≡ h i

May-set : (b c : Bool) (x : Hold) → May Loc.send b (b || c) x
May-set true c x = tt
May-set false true x = tt
May-set false false x = tt

unchanged : (b c : Bool) (x : Hold) → (c ≡ true → b ≡ true) → step_hold Loc.send b (b || c) x ≡ x
unchanged true c x h = refl
unchanged false true x h = cc (h refl)
unchanged false false x h = refl

gained : (b c : Bool) (x : Hold) → (not b && c) ≡ true → step_hold Loc.send b (b || c) x ≡ empty
gained true c x e = cc
gained false true x e = refl
gained false false x e = cc

Sees-set : (x : Hold) (b : Bool) → Sees Loc.send x b → b ≡ false → x ≡ nothing
Sees-set Hold.nothing b s e = refl
Sees-set Hold.empty b s e = cc
Sees-set Hold.full b s e = cc

-- A part of a request has no more bits than it.
pub count_ones-and : (a b : ℕ) → count_ones 32 (bit_and a b) ≤ count_ones 32 b
count_ones-and a b =
    count_ones_mono 32 b (bit_and a b) (λ i lt h. ground (arith, test_bit-and i a b))

pub Trimmed-size :
    (d : Bool) (k mask small : ℕ)
    → Trimmed d k mask small
    → (count_ones 32 small ≡ k) × (small < 2 ^ 32)
Trimmed-size false k mask small t = (t.size, t.fits)
Trimmed-size true k mask small t = (t.size, t.fits)

module _ (items bias w request : ℕ) (h : Held) (w_fits : w < 2 ^ 32) (fits : request < 2 ^ 32)
    (enough : count_ones 32 request ≤ items)
    (sees : (i : ℕ) → Sees Loc.send (h i) (slot_bit w i)) where
  abbrev slots : ℕ
  slots = bit_or w all

  abbrev claimed : ℕ
  claimed = bit_and (complement 32 slots) request

  abbrev h₁ : Held
  h₁ = after Loc.send w (bit_or w request) h

  slots-lt : slots < 2 ^ 32
  slots-lt = bit_or-lt 32 w all w_fits (omega arith)

  slot_bit-slots : (i : ℕ) → slot_bit slots i ≡ slot_bit w i
  slot_bit-slots i = ground (arith, slot_bit-or w all i, slot_bit-all i)

  slot_bit-claimed : (i : ℕ) → slot_bit claimed i ≡ (not (slot_bit w i) && slot_bit request i)
  slot_bit-claimed i = ground (
    arith,
    slot_bit-and (complement 32 slots) request i,
    slot_bit-complement slots i slots-lt,
    slot_bit-slots i,
    slot_bit-range request i,
  )

  set_bits :
      (i : ℕ) → h₁ i ≡ step_hold Loc.send (slot_bit w i) (slot_bit w i || slot_bit request i) (h i)
  set_bits i = ap (λ b. step_hold Loc.send (slot_bit w i) b (h i)) (slot_bit-or w request i)

  same : (i : ℕ) → (slot_bit request i ≡ true → slot_bit w i ≡ true) → h₁ i ≡ h i
  same i e = set_bits i ∙ unchanged (slot_bit w i) (slot_bit request i) (h i) e

  -- Where every cell is reserved, nothing is taken.
  full_same : slots ≡ u32_max → (i : ℕ) → h₁ i ≡ h i
  full_same e i = same i (λ r. ground (
    arith,
    slot_bit-slots i,
    ap (λ x. slot_bit x i) e,
    slot_bit-u32_max i,
    slot_bit-range request i,
  ))

  -- Where none of the requested cells is free, nothing is taken.
  none_same : claimed ≡ 0 → (i : ℕ) → h₁ i ≡ h i
  none_same e i =
      same i (λ r. ground (arith, slot_bit-claimed i, ap (λ x. slot_bit x i) e, slot_bit-zero i))

  -- The next request asks for no more cells either.
  trim_size :
      let next : ℕ = clear_extra_bits (complement 32 slots) items (bias % 2 == 0) in
      (count_ones 32 next ≤ items) × (next < 2 ^ 32)
  trim_size =
      let d : Bool = bias % 2 == 0 in
      let t =
        Trimmed-size d _ _ _
          (clear_extra_bits-Trimmed (complement 32 slots) items d (complement-lt 32 slots)) in
      (omega arith, t.1)

  claim : 0 < claimed → IsClaim items h claimed h₁
  claim pos = record {
    fits = omega (
      arith,
      bit_and-le 32 (complement 32 slots) request (complement-lt 32 slots),
      complement-lt 32 slots,
    );
    positive = pos;
    enough = omega (arith, count_ones-and (complement 32 slots) request);
    fresh = λ i e. Sees-set (h i) (slot_bit w i) (sees i) (ground (arith, slot_bit-claimed i));
    taken = λ i e.
        set_bits i
        ∙ gained (slot_bit w i) (slot_bit request i) (h i) (sym (slot_bit-claimed i) ∙ e);
    others = λ i e. same i (λ r. ground (arith, slot_bit-claimed i));
  }

module _ (T : Type 0) where
  pub reserve-Obeys :
      (fuel items bias request : ℕ) (h : Held)
      → request < 2 ^ 32
      → count_ones 32 request ≤ items
      → Obeys (reserve {T = T} fuel items bias request) h (Claimed items h)
  unfolding reserve
  reserve-Obeys zero items bias request h fits enough = tt
  reserve-Obeys (suc fuel) items bias request h fits enough = λ w w_fits sees. (
    bit_or-lt 32 w request w_fits fits,
    λ i. rw (slot_bit-or w request i) (May-set (slot_bit w i) (slot_bit request i) (h i)),
    elim (Bool-cases (contains w counterparty_dead)) [
      | inl gone ↦ rw gone tt
      | inr alive ↦ rw alive (elim (Bool-cases (bit_or w all == u32_max)) [
        | inl no_room ↦
            rw no_room
              (full_same items bias w request h w_fits fits enough sees ((==_iff _ _).0 no_room))
        | inr room ↦
            rw room (elim (Bool-cases (ltb 0 (bit_and (complement 32 (bit_or w all)) request))) [
              | inl some_free ↦
                  rw some_free
                    (claim items bias w request h w_fits fits enough sees (ltb→lt _ _ some_free))
              | inr none_free ↦ rw none_free (
                  let next : ℕ =
                    clear_extra_bits (complement 32 (bit_or w all)) items (bias % 2 == 0) in
                  let size = trim_size items bias w request h w_fits fits enough sees in
                  let e : after Loc.send w (bit_or w request) h ≡ h =
                    fun_ext
                      (none_same items bias w request h w_fits fits enough sees (ground arith)) in
                  subst (λ g. Obeys (reserve {T = T} fuel items bias next) g (Claimed items h))
                    (sym e) (reserve-Obeys fuel items bias next h size.1 size.0))
            ])
      ])
    ],
  )
