-- ===== src/Bags/Mpmc/Protocol/Silent.antt =====
-- Accesses that change only status bits, or no bit at all, under the protocol.
use lockness.Prelude.{
  ℕ, ◌^◌, ◌<◌, bit_and, bit_or, ◌≡◌, refl, sym, subst, fun_ext, Bool, true, false, not, ◌&&◌, ltb,
  arith, all_below, all_below_sound, ltb→lt,
}
use lockness.Word.Bits.{bit_and-le, bit_or-lt, complement}
use lockness.Machine.Program.{Loc, Prog, rmw}
use lockness.Bags.Mpmc.Status.{n, slot_bit, sleeping, counterparty_dead}
use lockness.Bags.Mpmc.Status.Cells.{slot_bit-or, slot_bit-and, slot_bit-range}
use lockness.Bags.Mpmc.Protocol.Obeys.{Hold, Held, May, step_hold, after, Obeys}

May-same : (l : Loc) (b : Bool) (x : Hold) → May l b b x
May-same Loc.send true x = tt
May-same Loc.send false x = tt
May-same Loc.recv true x = tt
May-same Loc.recv false x = tt
May-same Loc.num_senders b x = tt
May-same Loc.num_receivers b x = tt

step_same : (l : Loc) (b : Bool) (x : Hold) → step_hold l b b x ≡ x
step_same Loc.send true x = refl
step_same Loc.send false x = refl
step_same Loc.recv true x = refl
step_same Loc.recv false x = refl
step_same Loc.num_senders b x = refl
step_same Loc.num_receivers b x = refl

status_table :
    all_below 30 (λ i.
      not (slot_bit sleeping i)
      && not (slot_bit counterparty_dead i)
      && slot_bit (complement 32 sleeping) i
      && slot_bit (complement 32 counterparty_dead) i)
    ≡ true
unfolding all_below slot_bit complement
status_table = refl

-- A mask of status bits, and one that keeps all others.
abbrev pub IsStatus : ℕ → Type 0
IsStatus m =
    (m < 2 ^ 32)
    × ((w i : ℕ) → slot_bit (bit_or w m) i ≡ slot_bit w i)
    × ((w i : ℕ) → slot_bit (bit_and w (complement 32 m)) i ≡ slot_bit w i)

status_bits :
    (m : ℕ)
    → ((i : ℕ) → ltb i n ≡ true → (slot_bit m i ≡ false) × (slot_bit (complement 32 m) i ≡ true))
    → ((w i : ℕ) → slot_bit (bit_or w m) i ≡ slot_bit w i)
      × ((w i : ℕ) → slot_bit (bit_and w (complement 32 m)) i ≡ slot_bit w i)
status_bits m h = (
  λ w i. ground (arith, slot_bit-or w m i, h i, slot_bit-range m i),
  λ w i. ground (arith, slot_bit-and w (complement 32 m) i, h i, slot_bit-range w i),
)

table_at :
    (i : ℕ)
    → ltb i n ≡ true
    → ((slot_bit sleeping i ≡ false) × (slot_bit (complement 32 sleeping) i ≡ true))
      × ((slot_bit counterparty_dead i ≡ false)
          × (slot_bit (complement 32 counterparty_dead) i ≡ true))
table_at i h =
    let e =
      all_below_sound 30
        (λ i.
          not (slot_bit sleeping i)
          && not (slot_bit counterparty_dead i)
          && slot_bit (complement 32 sleeping) i
          && slot_bit (complement 32 counterparty_dead) i)
        i status_table (ltb→lt i 30 h) in
    ((ground arith, ground arith), (ground arith, ground arith))

pub sleeping-IsStatus : IsStatus sleeping
sleeping-IsStatus =
    let r = status_bits sleeping (λ i h. (table_at i h).0) in (omega arith, r.0, r.1)

pub dead-IsStatus : IsStatus counterparty_dead
dead-IsStatus =
    let r = status_bits counterparty_dead (λ i h. (table_at i h).1) in (omega arith, r.0, r.1)

module _ {T A : Type 0} where
  -- An access that changes no bit of a cell takes nothing and gives nothing back.
  pub silent-Obeys :
      (l : Loc) (f : ℕ → ℕ) (k : ℕ → Prog T A) (h : Held) (Q : A → Held → Type 0)
      → ((w : ℕ) → w < 2 ^ 32 → f w < 2 ^ 32)
      → ((w i : ℕ) → slot_bit (f w) i ≡ slot_bit w i)
      → ((w : ℕ) → Obeys (k w) h Q)
      → Obeys (rmw l f k) h Q
  silent-Obeys l f k h Q fits bits o = λ w w_fits sees.
      let e : after l w (f w) h ≡ h =
        fun_ext λ i. rw (bits w i) (step_same l (slot_bit w i) (h i)) in
      (
        fits w w_fits,
        λ i. rw (bits w i) (May-same l (slot_bit w i) (h i)),
        subst (λ g. Obeys (k w) g Q) (sym e) (o w),
      )

  pub or-Obeys :
      (l : Loc) (m : ℕ) (k : ℕ → Prog T A) (h : Held) (Q : A → Held → Type 0)
      → IsStatus m
      → ((w : ℕ) → Obeys (k w) h Q)
      → Obeys (rmw l (λ w. bit_or w m) k) h Q
  or-Obeys l m k h Q s o =
      silent-Obeys l (λ w. bit_or w m) k h Q (λ w fits. bit_or-lt 32 w m fits s.0) s.1 o

  pub and-Obeys :
      (l : Loc) (m : ℕ) (k : ℕ → Prog T A) (h : Held) (Q : A → Held → Type 0)
      → IsStatus m
      → ((w : ℕ) → Obeys (k w) h Q)
      → Obeys (rmw l (λ w. bit_and w (complement 32 m)) k) h Q
  and-Obeys l m k h Q s o =
      silent-Obeys l (λ w. bit_and w (complement 32 m)) k h Q
        (λ w fits. omega (arith, bit_and-le 32 w (complement 32 m) fits)) s.2 o

  pub load-Obeys :
      (l : Loc) (k : ℕ → Prog T A) (h : Held) (Q : A → Held → Type 0)
      → ((w : ℕ) → Obeys (k w) h Q)
      → Obeys (rmw l (λ w. w) k) h Q
  load-Obeys l k h Q o = silent-Obeys l (λ w. w) k h Q (λ w fits. fits) (λ w i. refl) o
