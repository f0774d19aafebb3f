-- ===== src/Machine/Futex/Duties.antt =====
-- What an access leaves a thread to do, for each word of bags/src/mpmc.rs and slot.rs.
use lockness.Prelude.{
  ℕ, ◌≡◌, refl, sym, ap, ◌∙◌, subst, Bool, true, false, arith, inl, inr, ◌⊎◌, Bool-cases,
}
use lockness.Machine.Program.{Loc, Prog, rmw, same_loc}
use lockness.Machine.Futex.Duty.{
  Duty, at_ease, must_wake, must_look, Part, partner, owner, stranger, owed, duty, duty_at,
  after_wait_duty, Meets, Waits,
}
use lockness.Machine.Futex.Changed.{same_loc-eq}

abbrev pub AtEase : {A : Type 0} → A → Duty → Type 0
AtEase _ d = d ≡ at_ease

-- Each word has a flag and an alarm of its own; the sleepers on `l` are watched.
module _ (l : Loc) (Valid : Loc → ℕ → Type 0) (flag alarm : Loc → ℕ → Bool) (looked : Loc → ℕ → ℕ)
    (part : Part) where
  -- A thread that may go on to look at `m`.
  abbrev pub IsReady : Loc → Duty → Type 0
  IsReady m d =
      (d ≡ at_ease) ⊎ (d ≡ must_look) × ((w : ℕ) × (alarm m w ≡ true) × (alarm l w ≡ true))

  -- A thread that has just cleared the flag of `m`, where the word was `w`.
  abbrev pub IsDue : Loc → ℕ → Duty → Type 0
  IsDue m w d = (d ≡ at_ease) ⊎ (d ≡ must_wake) × (flag m w ≡ true) × (same_loc m l ≡ true)

  abbrev pub next_duty : Loc → (ℕ → ℕ) → ℕ → Duty
  next_duty m f w = duty_at l Valid (flag l) (alarm l) (looked l) m part f w

  owed-silent :
      (a b c d : Bool) → (a ≡ true → b ≡ true) → (c ≡ true → d ≡ true) → owed a b c d ≡ at_ease
  owed-silent a b c d h h' = ground arith

  owed-ready :
      (a b c d : Bool)
      → (a ≡ true → b ≡ true)
      → (owed a b c d ≡ at_ease) ⊎ (owed a b c d ≡ must_look) × (c ≡ true)
  owed-ready a b c d h = ground arith

  duty-silent :
      (p : Part) (f : ℕ → ℕ) (w : ℕ)
      → (flag l w ≡ true → flag l (f w) ≡ true)
      → (alarm l (f w) ≡ true → alarm l w ≡ true)
      → duty l Valid (flag l) (alarm l) (looked l) p f w ≡ at_ease
  duty-silent partner f w h h' =
      owed-silent (flag l w) (flag l (f w)) (alarm l (f w)) (alarm l w) h h'
  duty-silent stranger f w h h' =
      owed-silent (flag l w) (flag l (f w)) (alarm l (f w)) (alarm l w) h h'
  duty-silent owner f w h h' = refl

  duty-ready :
      (p : Part) (f : ℕ → ℕ) (w : ℕ)
      → (flag l w ≡ true → flag l (f w) ≡ true)
      → (duty l Valid (flag l) (alarm l) (looked l) p f w ≡ at_ease)
        ⊎ (duty l Valid (flag l) (alarm l) (looked l) p f w ≡ must_look) × (alarm l (f w) ≡ true)
  duty-ready partner f w h = owed-ready (flag l w) (flag l (f w)) (alarm l (f w)) (alarm l w) h
  duty-ready stranger f w h = owed-ready (flag l w) (flag l (f w)) (alarm l (f w)) (alarm l w) h
  duty-ready owner f w h = inl refl

  -- An access that keeps the flag and does not raise the alarm.
  pub next_duty-silent :
      (m : Loc) (f : ℕ → ℕ) (w : ℕ)
      → (flag m w ≡ true → flag m (f w) ≡ true)
      → (alarm m (f w) ≡ true → alarm m w ≡ true)
      → next_duty m f w ≡ at_ease
  next_duty-silent m f w h h' = elim (Bool-cases (same_loc m l)) [
    | inl same ↦
        let e : m ≡ l = same_loc-eq m l same in
        rw same (
          duty-silent part f w (subst (λ x. flag x w ≡ true → flag x (f w) ≡ true) e h)
            (subst (λ x. alarm x (f w) ≡ true → alarm x w ≡ true) e h'))
    | inr other ↦ rw other refl
  ]

  -- An access that keeps the flag, and may raise the alarm.
  pub next_duty-ready :
      (m : Loc) (f : ℕ → ℕ) (w : ℕ)
      → (flag m w ≡ true → flag m (f w) ≡ true)
      → (next_duty m f w ≡ at_ease)
        ⊎ (next_duty m f w ≡ must_look) × (alarm m (f w) ≡ true) × (alarm l (f w) ≡ true)
  next_duty-ready m f w h = elim (Bool-cases (same_loc m l)) [
    | inl same ↦
        let e : m ≡ l = same_loc-eq m l same in
        rw same
          (elim (duty-ready part f w (subst (λ x. flag x w ≡ true → flag x (f w) ≡ true) e h)) [
            | inl ease ↦ inl ease
            | inr (look, rings) ↦ inr (look, subst (λ x. alarm x (f w) ≡ true) (sym e) rings, rings)
          ])
    | inr other ↦ rw other (inl refl)
  ]

  duty-cleared :
      (p : Part) (f : ℕ → ℕ) (w : ℕ)
      → flag l (f w) ≡ false
      → alarm l (f w) ≡ false
      → (duty l Valid (flag l) (alarm l) (looked l) p f w ≡ at_ease)
        ⊎ (duty l Valid (flag l) (alarm l) (looked l) p f w
            ≡ owed (flag l w) false false (alarm l w))
  duty-cleared partner f w h h' = inr (rw (h, h') refl)
  duty-cleared stranger f w h h' = inr (rw (h, h') refl)
  duty-cleared owner f w h h' = inl refl

  pub next_duty-cleared :
      (m : Loc) (f : ℕ → ℕ) (w : ℕ)
      → flag m (f w) ≡ false
      → alarm m (f w) ≡ false
      → (next_duty m f w ≡ at_ease)
        ⊎ (next_duty m f w ≡ owed (flag m w) false false (alarm m w)) × (same_loc m l ≡ true)
  next_duty-cleared m f w h h' = elim (Bool-cases (same_loc m l)) [
    | inl same ↦
        let e : m ≡ l = same_loc-eq m l same in
        rw same
          (elim (duty-cleared part f w (subst (λ x. flag x (f w) ≡ false) e h)
            (subst (λ x. alarm x (f w) ≡ false) e h')) [
              | inl ease ↦ inl ease
              | inr owes ↦
                  inr (owes ∙ ap (λ x. owed (flag x w) false false (alarm x w)) (sym e), refl)
            ])
    | inr other ↦ rw other (inl refl)
  ]

  pub due_of :
      (a c : Bool) (d : Duty) (e : Bool)
      → (d ≡ at_ease) ⊎ (d ≡ owed a false false c) × (e ≡ true)
      → (d ≡ at_ease) ⊎ (d ≡ must_wake) × (a ≡ true) × (e ≡ true)
  due_of a c d e (inl ease) = inl ease
  due_of true c d e (inr (is, same)) = inr (is, refl, same)
  due_of false c d e (inr (is, same)) = inl is

  pub Waits-elsewhere :
      (p : Part) (m : Loc) (e : ℕ → Bool)
      → same_loc m l ≡ false
      → Waits l Valid (flag l) (alarm l) (looked l) m p e
  Waits-elsewhere partner m e other = λ same. cc
  Waits-elsewhere owner m e other = λ same. cc
  Waits-elsewhere stranger m e other = other

  pub after_wait_duty-elsewhere :
      (p : Part) (m : Loc)
      → same_loc m l ≡ false
      → after_wait_duty l Valid (flag l) (alarm l) (looked l) m p ≡ at_ease
  after_wait_duty-elsewhere partner m other = rw other refl
  after_wait_duty-elsewhere owner m other = refl
  after_wait_duty-elsewhere stranger m other = refl

  pub Waits-shared :
      (p : Part) (m : Loc) (e : ℕ → Bool)
      → (same_loc m l ≡ true → p ≡ partner)
      → ((w : ℕ) → Valid m w → e w ≡ true → flag m w ≡ true)
      → Waits l Valid (flag l) (alarm l) (looked l) m p e
  Waits-shared partner m e alike h = λ same w valid is.
      let at : m ≡ l = same_loc-eq m l same in
      subst (λ x. flag x w ≡ true) at (h w (subst (λ x. Valid x w) (sym at) valid) is)
  Waits-shared owner m e alike h = λ same. let bad = alike same in cc
  Waits-shared stranger m e alike h = elim (Bool-cases (same_loc m l)) [
    | inl same ↦ let bad = alike same in cc
    | inr other ↦ other
  ]

  module _ {T A : Type 0} where
    pub Meets-mark :
        (p : Part) (m : Loc) (f : ℕ → ℕ) (k : ℕ → Prog T A)
        → ((w : ℕ) → Valid m w → flag m (f w) ≡ true)
        → Meets l Valid
            (flag l)
            (alarm l)
            (looked l)
            (after_wait_duty l Valid (flag l) (alarm l) (looked l) m p)
            (rmw m f k)
    Meets-mark partner m f k h = elim (Bool-cases (same_loc m l)) [
      | inl same ↦
          let at : m ≡ l = same_loc-eq m l same in
          rw same (
            same,
            λ w valid.
                subst (λ x. flag x (f w) ≡ true) at (h w (subst (λ x. Valid x w) (sym at) valid)),
          )
      | inr other ↦ rw other tt
    ]
    Meets-mark owner m f k h = tt
    Meets-mark stranger m f k h = tt
