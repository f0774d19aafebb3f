-- ===== src/Machine/Futex/Waits.antt =====
-- What the next access of a thread says of it, where that is a call of the futex.
use lockness.Prelude.{
  ℕ, ◌≡◌, refl, subst, Bool, true, false, arith, inl, inr, ltb, ◌&&◌, if◌then◌else◌,
}
use lockness.Machine.Program.{
  Loc, Prog, same_loc, Shared, ret, rmw, write, read, wait, wake, abort, undefined, out_of_fuel,
}
use lockness.Machine.Futex.{waits_on, falls, passes, after_wait}
use lockness.Machine.Futex.Duty.{
  Duty, at_ease, must_mark, Part, partner, owner, stranger, Waits, Alert, Alert-Meets,
  after_wait_duty,
}
use lockness.Machine.Futex.Changed.{IsAlert, IsActing, Looks, same_loc-eq}

module _ {T : Type 0} where
  abbrev pub is_wait : Prog T (Unit {0}) → Bool
  is_wait (wait m e k) = true
  is_wait _ = false

  pub waits_on-is_wait : (l : Loc) (p : Prog T (Unit {0})) → waits_on l p ≡ true → is_wait p ≡ true
  waits_on-is_wait l (wait m e k) h = refl
  waits_on-is_wait l (ret a) h = cc
  waits_on-is_wait l (rmw m f k) h = cc
  waits_on-is_wait l (write i v k) h = cc
  waits_on-is_wait l (read i k) h = cc
  waits_on-is_wait l (wake m n k) h = cc
  waits_on-is_wait l abort h = cc
  waits_on-is_wait l undefined h = cc
  waits_on-is_wait l out_of_fuel h = cc

  pub passes-is_wait : (m : Shared T) (p : Prog T (Unit {0})) → passes m p ≡ true → is_wait p ≡ true
  passes-is_wait m (wait l e k) h = refl
  passes-is_wait m (ret a) h = cc
  passes-is_wait m (rmw l f k) h = cc
  passes-is_wait m (write i v k) h = cc
  passes-is_wait m (read i k) h = cc
  passes-is_wait m (wake l n k) h = cc
  passes-is_wait m abort h = cc
  passes-is_wait m undefined h = cc
  passes-is_wait m out_of_fuel h = cc

module _ (l : Loc) (Valid : Loc → ℕ → Type 0) (flag alarm : ℕ → Bool) (looked : ℕ → ℕ) where
  Waits-flag :
      (part : Part) (m : Loc) (e : ℕ → Bool) (w : ℕ)
      → Waits l Valid flag alarm looked m part e
      → same_loc m l ≡ true
      → Valid l w
      → e w ≡ true
      → flag w ≡ true
  Waits-flag partner m e w o same valid h = o same w valid h
  Waits-flag owner m e w o same valid h = o same w valid h
  Waits-flag stranger m e w o same valid h = cc

module _ (l : Loc) (Valid : Loc → ℕ → Type 0) (flag alarm : ℕ → Bool) (looked : ℕ → ℕ)
    {T : Type 0} where
  pub not-IsActing :
      (p : Prog T (Unit {0})) → is_wait p ≡ true → ¬ IsActing l Valid flag alarm looked p
  not-IsActing (wait m e k) h a = elim a [ inl x ↦ x | inr x ↦ x ]
  not-IsActing (ret x) h a = cc
  not-IsActing (rmw m f k) h a = cc
  not-IsActing (write i v k) h a = cc
  not-IsActing (read i k) h a = cc
  not-IsActing (wake m n k) h a = cc
  not-IsActing abort h a = cc
  not-IsActing undefined h a = cc
  not-IsActing out_of_fuel h a = cc

  pub not-Looks : (p : Prog T (Unit {0})) → is_wait p ≡ true → ¬ Looks l Valid flag alarm looked p
  not-Looks (wait m e k) h a = a
  not-Looks (ret x) h a = cc
  not-Looks (rmw m f k) h a = cc
  not-Looks (write i v k) h a = cc
  not-Looks (read i k) h a = cc
  not-Looks (wake m n k) h a = cc
  not-Looks abort h a = cc
  not-Looks undefined h a = cc
  not-Looks out_of_fuel h a = cc

  -- A wake of nobody, or of those on another word, sees to nobody.
  pub not-IsActing_wake :
      (m : Loc) (n : ℕ) (k : Prog T (Unit {0}))
      → (same_loc m l && ltb 0 n) ≡ false
      → ¬ IsActing l Valid flag alarm looked (wake m n k)
  not-IsActing_wake m n k h a = elim a [
    | inl x ↦ let same = x.0 in let pos = x.1 in ground arith
    | inr x ↦ x
  ]

  pub after_wait-IsAlert :
      (part : Part) (p : Prog T (Unit {0}))
      → is_wait p ≡ true
      → IsAlert l Valid flag alarm looked part p
      → IsAlert l Valid flag alarm looked part (after_wait p)
  after_wait-IsAlert part (wait m e k) h (d, o) =
      (after_wait_duty l Valid flag alarm looked m part, o.2)
  after_wait-IsAlert part (ret a) h o = cc
  after_wait-IsAlert part (rmw m f k) h o = cc
  after_wait-IsAlert part (write i v k) h o = cc
  after_wait-IsAlert part (read i k) h o = cc
  after_wait-IsAlert part (wake m n k) h o = cc
  after_wait-IsAlert part abort h o = cc
  after_wait-IsAlert part undefined h o = cc
  after_wait-IsAlert part out_of_fuel h o = cc

  -- A stranger never sleeps on the word.
  pub stranger-waits_on :
      (p : Prog T (Unit {0}))
      → IsAlert l Valid flag alarm looked stranger p
      → waits_on l p ≡ true
      → ⊥
  stranger-waits_on (wait m e k) (d, o) h = let other = o.1 in cc
  stranger-waits_on (ret a) o h = cc
  stranger-waits_on (rmw m f k) o h = cc
  stranger-waits_on (write i v k) o h = cc
  stranger-waits_on (read i k) o h = cc
  stranger-waits_on (wake m n k) o h = cc
  stranger-waits_on abort o h = cc
  stranger-waits_on undefined o h = cc
  stranger-waits_on out_of_fuel o h = cc

  -- A thread falls asleep only while the flag is set.
  pub falls-flag :
      (part : Part) (m : Shared T) (p : Prog T (Unit {0}))
      → Valid l (m.word l)
      → IsAlert l Valid flag alarm looked part p
      → falls m p ≡ true
      → waits_on l p ≡ true
      → flag (m.word l) ≡ true
  falls-flag part m (wait m' e k) valid (d, o) h on =
      Waits-flag l Valid flag alarm looked part m' e (m.word l) o.1 on valid
        (subst (λ x. e (m.word x) ≡ true) (same_loc-eq m' l on) h)
  falls-flag part m (ret a) valid o h on = cc
  falls-flag part m (rmw m' f k) valid o h on = cc
  falls-flag part m (write i v k) valid o h on = cc
  falls-flag part m (read i k) valid o h on = cc
  falls-flag part m (wake m' n k) valid o h on = cc
  falls-flag part m abort valid o h on = cc
  falls-flag part m undefined valid o h on = cc
  falls-flag part m out_of_fuel valid o h on = cc

  -- One that shares the word with others sets the flag first of all behind its wait.
  pub partner-after_wait :
      (p : Prog T (Unit {0}))
      → IsAlert l Valid flag alarm looked partner p
      → waits_on l p ≡ true
      → IsActing l Valid flag alarm looked (after_wait p)
  partner-after_wait (wait m e k) (d, o) h =
      let ends : Unit {0} → Duty → Type 0 = λ _ d'. d' ≡ at_ease in
      inr (
        Alert-Meets l Valid flag alarm looked partner k must_mark (
          subst
            (λ b. Alert l Valid flag alarm looked partner k (if b then must_mark else at_ease) ends)
            h o.2))
  partner-after_wait (ret a) o h = cc
  partner-after_wait (rmw m f k) o h = cc
  partner-after_wait (write i v k) o h = cc
  partner-after_wait (read i k) o h = cc
  partner-after_wait (wake m n k) o h = cc
  partner-after_wait abort o h = cc
  partner-after_wait undefined o h = cc
  partner-after_wait out_of_fuel o h = cc
