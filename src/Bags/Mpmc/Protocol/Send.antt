-- ===== src/Bags/Mpmc/Protocol/Send.antt =====
-- `Sender::try_send` of bags/src/mpmc.rs under the protocol.
use lockness.Prelude.{
  ℕ, ◌^◌, ◌<◌, bit_or, ◌≡◌, refl, sym, ap, subst, Bool, true, false, ◌||◌, ◌&&◌, ◌==◌, ltb, arith,
  inl, inr, Bool-cases, some, none, length,
}
use lockness.Word.Bits.{bit_or-lt, complement}
use lockness.Machine.Program.{Loc, Prog, ret, rmw, ◌>>=◌}
use lockness.Machine.Access.{wake_if}
use lockness.Bags.Mpmc.Status.{n, slot_bit, all, u32_max, contains, sleeping}
use lockness.Bags.Mpmc.Status.Cells.{slot_bit-or, slot_bit-all, slot_bit-u32_max, slot_bit-range}
use lockness.Bags.Mpmc.Masks.{compute_request_mask}
use lockness.Bags.Mpmc.Masks.Window.{compute_request_mask-IsWindow}
use lockness.Bags.Mpmc.Buffer.{Buffer, Container, available_items, items_of}
use lockness.Bags.Mpmc.Drain.{drain_mask}
use lockness.Bags.Mpmc.Sender.{
  TrySend, Reservation, reserved, dead, no_room, reserve, fill, commit, publish, give_back,
  after_reserve, try_send,
}
use lockness.Bags.Mpmc.Protocol.Obeys.{
  Hold, Held, nothing, full, May, Sees, step_hold, Obeys, Obeys->>=, Obeys_mono,
}
use lockness.Bags.Mpmc.Protocol.Drain.{Filling, fill-Keeps, drain_mask-Obeys}
use lockness.Bags.Mpmc.Protocol.Reserve.{IsClaim, Claimed, reserve-Obeys}

abbrev pub SameHeld : Held → Held → Type 0
SameHeld h h' = (i : ℕ) → h' i ≡ h i

-- The cells of `c` are held full, and the others as under `h₀`.
pub record IsFilled (c : ℕ) (h₀ h : Held) : Type 0 where
  pub own : (i : ℕ) → slot_bit c i ≡ true → h i ≡ full
  pub others : (i : ℕ) → slot_bit c i ≡ false → h i ≡ h₀ i

May-commit : (b c : Bool) (x : Hold) → (c ≡ true → x ≡ full) → May Loc.recv b (b || c) x
May-commit true c x e = tt
May-commit false true x e = e refl
May-commit false false x e = tt

Sees-clear : (x : Hold) (b : Bool) → Sees Loc.recv x b → x ≡ full → b ≡ false
Sees-clear Hold.nothing b s e = cc
Sees-clear Hold.empty b s e = s
Sees-clear Hold.full b s e = s

given :
    (b c : Bool) (x y : Hold)
    → Sees Loc.recv x b
    → (c ≡ true → (x ≡ full) × (y ≡ nothing))
    → (c ≡ false → x ≡ y)
    → step_hold Loc.recv b (b || c) x ≡ y
given true true x y s p q = cc (Sees-clear x true s (p refl).0)
given false true x y s p q = sym (p refl).1
given true false x y s p q = q refl
given false false x y s p q = q refl

module _ (T : Type 0) (x86 : Bool) (c : ℕ) (h₀ h : Held) (fits : c < 2 ^ 32)
    (fresh : (i : ℕ) → slot_bit c i ≡ true → h₀ i ≡ nothing) (filled : IsFilled c h₀ h) where
  slot_bit-commit :
      (w i : ℕ) → slot_bit (bit_or w (bit_or c all)) i ≡ (slot_bit w i || slot_bit c i)
  slot_bit-commit w i =
      ground (arith, slot_bit-or w (bit_or c all) i, slot_bit-or c all i, slot_bit-all i)

  -- Any write that sets the bits of `c` in `recv`, and no other of a cell, gives the cells back.
  set-Obeys :
      (f : ℕ → ℕ)
      → ((w : ℕ) → w < 2 ^ 32 → f w < 2 ^ 32)
      → ((w i : ℕ) → slot_bit (f w) i ≡ (slot_bit w i || slot_bit c i))
      → let p : Prog T ℕ = rmw Loc.recv f ret in Obeys p h (λ _. SameHeld h₀)
  set-Obeys f f_fits f_bits = λ w w_fits sees. (
    f_fits w w_fits,
    λ i. rw (f_bits w i) (May-commit (slot_bit w i) (slot_bit c i) (h i) (filled.own i)),
    λ i. rw (f_bits w i) (
        given (slot_bit w i) (slot_bit c i) (h i) (h₀ i) (sees i) (λ e. (filled.own i e, fresh i e))
          (filled.others i)),
  )

  commit-lt : bit_or c all < 2 ^ 32
  commit-lt = bit_or-lt 32 c all fits (omega arith)

  all_cells : bit_or c all ≡ u32_max → (i : ℕ) → slot_bit c i ≡ ltb i n
  all_cells e i =
      ground
        (arith, slot_bit-or c all i, slot_bit-all i, slot_bit-u32_max i, ap (λ x. slot_bit x i) e)

  commit-Obeys : Obeys (commit {T = T} x86 c) h (λ _. SameHeld h₀)
  unfolding commit
  commit-Obeys = elim (Bool-cases (x86 && bit_or c all == u32_max)) [
    | inl full_word ↦
        let e : bit_or c all ≡ u32_max = ground arith in
        rw full_word (
          set-Obeys (λ _. bit_or c all) (λ w w_fits. commit-lt)
            (λ w i. ground (
              arith,
              all_cells e i,
              ap (λ x. slot_bit x i) e,
              slot_bit-u32_max i,
              slot_bit-range w i,
            )))
    | inr part_word ↦ rw part_word (
        set-Obeys (λ w. bit_or w (bit_or c all))
          (λ w w_fits. bit_or-lt 32 w (bit_or c all) w_fits commit-lt) slot_bit-commit)
  ]

module _ {T : Type 0} where
  -- What `try_send` leaves to its thread: nothing new, unless the receivers are gone.
  abbrev pub KeepsNothing : Held → TrySend T → Held → Type 0
  KeepsNothing h (TrySend.disconnected data') h' = Unit
  KeepsNothing h _ h' = SameHeld h h'

  pub wake_if-Obeys :
      {A : Type 0} (b : Bool) (l : Loc) (k : ℕ) (p : Prog T A) (h : Held) (Q : A → Held → Type 0)
      → Obeys p h Q
      → Obeys (wake_if b l k >>= λ _. p) h Q
  unfolding ◌>>=◌
  wake_if-Obeys true l k p h Q o = o
  wake_if-Obeys false l k p h Q o = o

  publish-Obeys :
      (x86 : Bool) (d : Container T) (c : ℕ) (h₀ h : Held)
      → IsClaim (length (items_of d)) h₀ c h
      → Obeys (publish x86 d c) h (KeepsNothing h₀)
  unfolding publish
  publish-Obeys x86 d c h₀ h k = Obeys->>= (drain_mask n fill c d) _ h _ (
      Obeys_mono (drain_mask n fill c d) h _ _
        (λ rest h' dr. Obeys->>= (commit x86 c) _ h' _ (
          Obeys_mono (commit x86 c) h' _ _
            (λ prev h'' same.
              wake_if-Obeys (contains (complement 32 prev) sleeping) Loc.recv 1
                (ret (TrySend.sent rest)) h'' (KeepsNothing h₀) same)
            (commit-Obeys T x86 c h₀ h' k.fits k.fresh
              (record { own = λ i e. dr.1.filled i (dr.2 i) e; others = λ i e. dr.1.others i e }))))
        (drain_mask-Obeys fill (Filling c h₀) (fill-Keeps c h₀) c d h (record {
          fits = k.fits;
          enough = k.enough;
          part = λ i e. e;
          left = k.taken;
          filled = λ i e e'. cc;
          others = k.others;
        })))

  give_back-Obeys :
      (error : Buffer T → TrySend T) (d : Container T) (h : Held) (Q : TrySend T → Held → Type 0)
      → 0 < length (items_of d)
      → ((b : Buffer T) → Q (error b) h)
      → Obeys (give_back error d) h Q
  unfolding give_back items_of
  give_back-Obeys error (Container.option none) h Q pos q = absurd (omega arith)
  give_back-Obeys error (Container.option (some v)) h Q pos q = q _
  give_back-Obeys error (Container.vec l) h Q pos q = q _
  give_back-Obeys error (Container.array_vec l) h Q pos q = q _

  after_reserve-Obeys :
      (x86 : Bool) (d : Container T) (h₀ : Held) (r : Reservation) (h : Held)
      → 0 < length (items_of d)
      → Claimed (length (items_of d)) h₀ r h
      → Obeys (after_reserve x86 d r) h (KeepsNothing h₀)
  unfolding after_reserve
  after_reserve-Obeys x86 d h₀ (reserved c) h pos k = publish-Obeys x86 d c h₀ h k
  after_reserve-Obeys x86 d h₀ dead h pos k =
      give_back-Obeys TrySend.disconnected d h (KeepsNothing h₀) pos (λ b. tt)
  after_reserve-Obeys x86 d h₀ no_room h pos k =
      give_back-Obeys TrySend.full d h (KeepsNothing h₀) pos (λ b. k)

  available_items_lem :
      (b : Buffer T) → (available_items b).0 ≡ length (items_of (available_items b).1)
  unfolding available_items items_of
  available_items_lem (Buffer.value v) = refl
  available_items_lem (Buffer.vec l) = refl
  available_items_lem (Buffer.array_vec l) = refl

  -- `try_send`, with a bias below 30, writes only cells that its thread holds empty, publishes only
  -- cells that it holds filled, reaches no undefined behaviour, and unless the receivers are gone
  -- its thread holds afterwards the cells that it held before.
  pub try_send-Obeys :
      (x86 : Bool) (fuel bias : ℕ) (b : Buffer T) (h : Held)
      → bias < n
      → Obeys (try_send x86 fuel bias b) h (KeepsNothing h)
  unfolding try_send
  try_send-Obeys x86 fuel bias b h small = elim (Bool-cases ((available_items b).0 == 0)) [
    | inl zero_items ↦ rw zero_items (λ i. refl)
    | inr some_items ↦
        let items : ℕ = (available_items b).0 in
        let d : Container T = (available_items b).1 in
        let e : items ≡ length (items_of d) = available_items_lem b in
        let pos : 0 < items = ground arith in
        let window = compute_request_mask-IsWindow items bias pos small in
        rw some_items (
          Obeys->>= (reserve fuel items bias (compute_request_mask n items bias)) _ h _ (
            Obeys_mono (reserve fuel items bias (compute_request_mask n items bias)) h _ _
              (λ r h' k.
                after_reserve-Obeys x86 d h r h' (omega arith) (subst (λ m. Claimed m h r h') e k))
              (reserve-Obeys T fuel items bias (compute_request_mask n items bias) h window.fits
                (omega (arith, window.size)))))
  ]
