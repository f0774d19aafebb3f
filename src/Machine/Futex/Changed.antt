-- ===== src/Machine/Futex/Changed.antt =====
-- What one access of a thread that does what it owes leads to.
use lockness.Prelude.{
  ℕ, ◌≡◌, refl, sym, ap, ◌∙◌, subst, Bool, true, false, arith, inl, inr, ◌⊎◌, Bool-cases,
  if◌then◌else◌,
}
use lockness.Machine.Program.{set_word, Loc, Prog, same_loc, Shared, rmw}
use lockness.Machine.Threads.{Event, Move}
use lockness.Machine.Futex.{is_futex}
use lockness.Machine.Futex.Duty.{
  Duty, at_ease, must_wake, must_mark, must_look, Part, partner, owner, stranger, owed, duty, Meets,
  Alert, Alert-Meets,
}

pub same_loc-eq : (m l : Loc) → same_loc m l ≡ true → m ≡ l
same_loc-eq m l h = ground arith

pub same_loc_refl : (l : Loc) → same_loc l l ≡ true
same_loc_refl l = ground arith

set_word-word : {T : Type 0} (m : Shared T) (l : Loc) (x : ℕ) → (set_word m l x).word l ≡ x
set_word-word m l x = rw (same_loc_refl l) refl

set_word-other :
    {T : Type 0} (m : Shared T) (l' l : Loc) (x : ℕ)
    → same_loc l' l ≡ false
    → (set_word m l' x).word l ≡ m.word l
set_word-other m l' l x h = rw h refl

module _ (l : Loc) (Valid : Loc → ℕ → Type 0) (flag alarm : ℕ → Bool) (looked : ℕ → ℕ)
    {T : Type 0} where
  abbrev pub IsAlert : Part → Prog T (Unit {0}) → Type 0
  IsAlert part p = (d : Duty) × Alert l Valid flag alarm looked part p d (λ _ d'. d' ≡ at_ease)

  -- The next access sees to the sleepers.
  abbrev pub IsActing : Prog T (Unit {0}) → Type 0
  IsActing p =
      Meets l Valid flag alarm looked must_wake p ⊎ Meets l Valid flag alarm looked must_mark p

  abbrev pub Looks : Prog T (Unit {0}) → Type 0
  Looks p = Meets l Valid flag alarm looked must_look p

  -- What an access leads to that is no call of the futex.
  pub record Changed (part : Part) (m m' : Shared T) (p p' : Prog T (Unit {0})) : Type 0 where
    pub alert : IsAlert part p'
    pub flagged :
        flag (m.word l) ≡ true
        → (flag (m'.word l) ≡ true) ⊎ Meets l Valid flag alarm looked must_wake p' ⊎ (part ≡ owner)
    pub marked : IsActing p → flag (m'.word l) ≡ true
    pub alarmed :
        alarm (m'.word l) ≡ true
        → (alarm (m.word l) ≡ true) × (¬ Looks p) ⊎ Looks p' ⊎ (part ≡ owner)

  wakes_of :
      (a b c d : Bool) (p : Prog T (Unit {0}))
      → Meets l Valid flag alarm looked (owed a b c d) p
      → a ≡ true
      → (b ≡ true) ⊎ Meets l Valid flag alarm looked must_wake p
  wakes_of true true c d p o h = inl refl
  wakes_of true false c d p o h = inr o
  wakes_of false b c d p o h = cc

  Looks-of :
      (a b c d : Bool) (p : Prog T (Unit {0}))
      → (c ≡ true → b ≡ true)
      → Meets l Valid flag alarm looked (owed a b c d) p
      → c ≡ true
      → (d ≡ true) ⊎ Looks p
  Looks-of a b c true p needs o h = inl refl
  Looks-of true true true false p needs o h = inr o
  Looks-of false true true false p needs o h = inr o
  Looks-of a false true false p needs o h = let e = needs refl in cc
  Looks-of a b false false p needs o h = cc

  duty-flag :
      (part : Part) (f : ℕ → ℕ) (w : ℕ) (p : Prog T (Unit {0}))
      → Meets l Valid flag alarm looked (duty l Valid flag alarm looked part f w) p
      → flag w ≡ true
      → (flag (f w) ≡ true) ⊎ Meets l Valid flag alarm looked must_wake p ⊎ (part ≡ owner)
  duty-flag partner f w p o h =
      elim (wakes_of (flag w) (flag (f w)) (alarm (f w)) (alarm w) p o h) [
        | inl x ↦ inl x
        | inr x ↦ inr (inl x)
      ]
  duty-flag stranger f w p o h =
      elim (wakes_of (flag w) (flag (f w)) (alarm (f w)) (alarm w) p o h) [
        | inl x ↦ inl x
        | inr x ↦ inr (inl x)
      ]
  duty-flag owner f w p o h = inr (inr refl)

  module _ (needs : (w : ℕ) → alarm w ≡ true → flag w ≡ true)
      (quiet : (w : ℕ) → Valid l w → alarm (looked w) ≡ false) where
    duty-alarm :
        (part : Part) (f : ℕ → ℕ) (w : ℕ) (p : Prog T (Unit {0}))
        → Meets l Valid flag alarm looked (duty l Valid flag alarm looked part f w) p
        → alarm (f w) ≡ true
        → (alarm w ≡ true) ⊎ Looks p ⊎ (part ≡ owner)
    duty-alarm partner f w p o h =
        elim (Looks-of (flag w) (flag (f w)) (alarm (f w)) (alarm w) p (needs (f w)) o h) [
          | inl x ↦ inl x
          | inr x ↦ inr (inl x)
        ]
    duty-alarm stranger f w p o h =
        elim (Looks-of (flag w) (flag (f w)) (alarm (f w)) (alarm w) p (needs (f w)) o h) [
          | inl x ↦ inl x
          | inr x ↦ inr (inl x)
        ]
    duty-alarm owner f w p o h = inr (inr refl)

    rmw_here :
        (part : Part) (m : Shared T) (f : ℕ → ℕ) (k : ℕ → Prog T (Unit {0}))
        → Valid l (m.word l)
        → IsAlert part (rmw l f k)
        → Changed part m (set_word m l (f (m.word l))) (rmw l f k) (k (m.word l))
    rmw_here part m f k valid (d, o) =
        let w : ℕ = m.word l in
        let next =
          subst
            (λ b.
              Alert l Valid flag alarm looked part (k w)
                (if b then duty l Valid flag alarm looked part f w else at_ease)
                (λ _ d'. d' ≡ at_ease))
            (same_loc_refl l) (o.1 w valid) in
        let meets =
          Alert-Meets l Valid flag alarm looked part (k w) (duty l Valid flag alarm looked part f w)
            next in
        let is : (set_word m l (f w)).word l ≡ f w = set_word-word m l (f w) in
        record {
          alert = (duty l Valid flag alarm looked part f w, next);
          flagged = λ h. rw is (duty-flag part f w (k w) meets h);
          marked = λ a. rw is (elim a [ inl x ↦ absurd x | inr x ↦ x.1 w valid ]);
          alarmed = λ h.
              let up : alarm (f w) ≡ true = subst (λ x. alarm x ≡ true) is h in
              elim (duty-alarm part f w (k w) meets up) [
                | inl before ↦ inl (
                  before,
                  λ x. let no : alarm (f w) ≡ false = ap alarm (x.1 w valid) ∙ quiet w valid in cc,
                )
                | inr rest ↦ inr rest
              ];
        }

    rmw_elsewhere :
        (part : Part) (m : Shared T) (l' : Loc) (f : ℕ → ℕ) (k : ℕ → Prog T (Unit {0}))
        → same_loc l' l ≡ false
        → Valid l' (m.word l')
        → IsAlert part (rmw l' f k)
        → Changed part m (set_word m l' (f (m.word l'))) (rmw l' f k) (k (m.word l'))
    rmw_elsewhere part m l' f k other valid (d, o) =
        let w : ℕ = m.word l' in
        let next =
          subst
            (λ b.
              Alert l Valid flag alarm looked part (k w)
                (if b then duty l Valid flag alarm looked part f w else at_ease)
                (λ _ d'. d' ≡ at_ease))
            other (o.1 w valid) in
        let is : (set_word m l' (f w)).word l ≡ m.word l = set_word-other m l' l (f w) other in
        record {
          alert = (at_ease, next);
          flagged = λ h. inl (rw is h);
          marked = λ a. elim a [ inl x ↦ absurd x | inr x ↦ cc ];
          alarmed = λ h. inl (subst (λ x. alarm x ≡ true) is h, λ x. let y = x.0 in cc);
        }

    pub Move-Changed :
        {m m' : Shared T} {p p' : Prog T (Unit {0})} {e : Event T} (part : Part)
        → ((k : Loc) → Valid k (m.word k))
        → Move m p m' p' e
        → is_futex p ≡ false
        → IsAlert part p
        → Changed part m m' p p'
    Move-Changed {m} part valid (Move.rmw {l = l'} {f} {k}) h o =
        elim (Bool-cases (same_loc l' l)) [
          | inl here ↦
              let e : l ≡ l' = sym (same_loc-eq l' l here) in
              subst
                (λ x.
                  IsAlert part (rmw x f k)
                  → Changed part m (set_word m x (f (m.word x))) (rmw x f k) (k (m.word x)))
                e (rmw_here part m f k (valid l)) o
          | inr other ↦ rmw_elsewhere part m l' f k other (valid l') o
        ]
    Move-Changed part valid Move.write h (d, o) = record {
      alert = (at_ease, o.1);
      flagged = λ e. inl e;
      marked = λ a. elim a [ inl x ↦ absurd x | inr x ↦ absurd x ];
      alarmed = λ e. inl (e, λ x. x);
    }
    Move-Changed part valid (Move.read c) h (d, o) = record {
      alert = (at_ease, o.1 _);
      flagged = λ e. inl e;
      marked = λ a. elim a [ inl x ↦ absurd x | inr x ↦ absurd x ];
      alarmed = λ e. inl (e, λ x. x);
    }
    Move-Changed part valid Move.wait h o = cc
    Move-Changed part valid Move.wake h o = cc
