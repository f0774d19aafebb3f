-- ===== src/Machine/Futex/Rules.antt =====
-- Rules for the accesses of bags/src/mpmc.rs and slot.rs that have to do with sleepers.
use lockness.Prelude.{ℕ, ◌<◌, ◌≡◌, sym, subst, Bool, true, false, inl, inr, Bool-cases}
use lockness.Machine.Program.{Loc, Prog, rmw, wait, same_loc, ◌>>=◌, ◌>>◌}
use lockness.Machine.Access.{wake_if}
use lockness.Machine.Futex.Duty.{Duty, at_ease, Part, partner, owner, Alert, Alert->>=}
use lockness.Machine.Futex.Changed.{same_loc-eq}
use lockness.Machine.Futex.Duties.{
  AtEase, IsReady, IsDue, next_duty, next_duty-silent, next_duty-ready, next_duty-cleared, due_of,
  Waits-elsewhere, after_wait_duty-elsewhere, Waits-shared, Meets-mark,
}

-- Each word has a flag and an alarm of its own; the sleepers on `l` are watched.
module _ (l : Loc) (Valid : Loc → ℕ → Type 0) (flag alarm : Loc → ℕ → Bool) (looked : Loc → ℕ → ℕ)
    (part : Part) where
  module _ {T A : Type 0} where
    abbrev Does : Prog T A → Duty → (A → Duty → Type 0) → Type 0
    Does p d Q = Alert l Valid (flag l) (alarm l) (looked l) part p d Q

    pub silent-Alert :
        (m : Loc) (f : ℕ → ℕ) (k : ℕ → Prog T A) (Q : A → Duty → Type 0)
        → ((w : ℕ) → Valid m w → flag m w ≡ true → flag m (f w) ≡ true)
        → ((w : ℕ) → Valid m w → alarm m (f w) ≡ true → alarm m w ≡ true)
        → ((w : ℕ) → Valid m w → Does (k w) at_ease Q)
        → Does (rmw m f k) at_ease Q
    silent-Alert m f k Q h h' o = (
      tt,
      λ w valid.
          subst (λ d. Does (k w) d Q)
            (sym (next_duty-silent l Valid flag alarm looked part m f w (h w valid) (h' w valid)))
            (o w valid),
    )

    pub wake_if-Alert :
        (b : Bool) (m : Loc) (n : ℕ) (k : Prog T A) (Q : A → Duty → Type 0)
        → Does k at_ease Q
        → Does (wake_if b m n >> k) at_ease Q
    unfolding ◌>>=◌ ◌>>◌
    wake_if-Alert true m n k Q o = (tt, o)
    wake_if-Alert false m n k Q o = o

    pub wake_if-due :
        (b : Bool) (m : Loc) (n w : ℕ) (d : Duty) (k : Prog T A) (Q : A → Duty → Type 0)
        → 0 < n
        → (flag m w ≡ true → b ≡ true)
        → IsDue l Valid flag alarm looked part m w d
        → Does k at_ease Q
        → Does (wake_if b m n >> k) d Q
    unfolding ◌>>=◌ ◌>>◌
    wake_if-due b m n w d k Q pos h (inl ease) o = rw ease (wake_if-Alert b m n k Q o)
    wake_if-due b m n w d k Q pos h (inr (due, set, same)) o = rw (due, h set) ((same, pos), o)

    -- An access that clears the flag.
    pub cleared-Alert :
        (m : Loc) (f : ℕ → ℕ) (k : ℕ → Prog T A) (Q : A → Duty → Type 0)
        → ((w : ℕ) → Valid m w → flag m (f w) ≡ false)
        → ((w : ℕ) → Valid m w → alarm m (f w) ≡ false)
        → ((w : ℕ) (d : Duty)
            → Valid m w
            → IsDue l Valid flag alarm looked part m w d
            → Does (k w) d Q)
        → Does (rmw m f k) at_ease Q
    cleared-Alert m f k Q h h' o = (
      tt,
      λ w valid. o w (next_duty l Valid flag alarm looked part m f w) valid (
          due_of l Valid flag alarm looked part (flag m w) (alarm m w)
            (next_duty l Valid flag alarm looked part m f w) (same_loc m l)
            (next_duty-cleared l Valid flag alarm looked part m f w (h w valid) (h' w valid))),
    )

    -- The same, where a wake follows if the flag was set.
    pub cleared_wake-Alert :
        (b : ℕ → Bool) (m : Loc) (f : ℕ → ℕ) (n : ℕ) (k : ℕ → Prog T A) (Q : A → Duty → Type 0)
        → 0 < n
        → ((w : ℕ) → Valid m w → flag m w ≡ true → b w ≡ true)
        → ((w : ℕ) → Valid m w → flag m (f w) ≡ false)
        → ((w : ℕ) → Valid m w → alarm m (f w) ≡ false)
        → ((w : ℕ) → Valid m w → Does (k w) at_ease Q)
        → Does (rmw m f (λ w. wake_if (b w) m n >> k w)) at_ease Q
    cleared_wake-Alert b m f n k Q pos g h h' o =
        cleared-Alert m f (λ w. wake_if (b w) m n >> k w) Q h h'
          (λ w d valid due. wake_if-due (b w) m n w d (k w) Q pos (g w valid) due (o w valid))

    -- Of the only thread that ever sleeps on `m`.
    pub owner-Alert :
        (m : Loc) (f : ℕ → ℕ) (k : ℕ → Prog T A) (Q : A → Duty → Type 0)
        → (same_loc m l ≡ true → part ≡ owner)
        → ((w : ℕ) → Valid m w → Does (k w) at_ease Q)
        → Does (rmw m f k) at_ease Q
    owner-Alert m f k Q own o = (
      tt,
      λ w valid. elim (Bool-cases (same_loc m l)) [
        | inl same ↦ rw (same, own same) (o w valid)
        | inr other ↦ rw other (o w valid)
      ],
    )

    pub owner_wait-Alert :
        (m : Loc) (e : ℕ → Bool) (k : Prog T A) (Q : A → Duty → Type 0)
        → (same_loc m l ≡ true → part ≡ owner)
        → ((w : ℕ) → e w ≡ true → flag m w ≡ true)
        → Does k at_ease Q
        → Does (wait m e k) at_ease Q
    owner_wait-Alert m e k Q own h o = elim (Bool-cases (same_loc m l)) [
      | inl same ↦
          rw (own same)
            (tt, λ at w valid is. subst (λ x. flag x w ≡ true) (same_loc-eq m l same) (h w is), o)
      | inr other ↦ (
        tt,
        Waits-elsewhere l Valid flag alarm looked part part m e other,
        subst (λ d. Does k d Q)
            (sym (after_wait_duty-elsewhere l Valid flag alarm looked part part m other)) o,
      )
    ]

    -- A sleep while the flag is seen, and the access behind it that sets the flag again.
    pub sleep_mark-Alert :
        (m : Loc) (e : ℕ → Bool) (f : ℕ → ℕ) (again : Prog T A) (Q : A → Duty → Type 0)
        → (same_loc m l ≡ true → part ≡ partner)
        → ((w : ℕ) → Valid m w → e w ≡ true → flag m w ≡ true)
        → ((w : ℕ) → Valid m w → flag m (f w) ≡ true)
        → ((d : Duty) → IsReady l Valid flag alarm looked part m d → Does again d Q)
        → Does (wait m e (rmw m f (λ _. again))) at_ease Q
    sleep_mark-Alert m e f again Q alike h h' o = (
      tt,
      Waits-shared l Valid flag alarm looked part part m e alike h,
      (
        Meets-mark l Valid flag alarm looked part part m f (λ _. again) h',
        λ w valid.
            o (next_duty l Valid flag alarm looked part m f w)
              (elim (next_duty-ready l Valid flag alarm looked part m f w (λ _. h' w valid)) [
                | inl ease ↦ inl ease
                | inr (look, here, rings) ↦ inr (look, (f w, here, rings))
              ]),
      ),
    )

    pub Alert_then :
        {B : Type 0} (p : Prog T B) (g : B → Prog T A) (d : Duty) (Q : A → Duty → Type 0)
        → Alert l Valid (flag l) (alarm l) (looked l) part p d AtEase
        → ((b : B) → Does (g b) at_ease Q)
        → Does (p >>= g) d Q
    Alert_then p g d Q o r =
        Alert->>= l Valid (flag l) (alarm l) (looked l) part p g d AtEase Q o
          (λ b d' e. subst (λ d. Does (g b) d Q) (sym e) (r b))
