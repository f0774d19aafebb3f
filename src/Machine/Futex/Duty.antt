-- ===== src/Machine/Futex/Duty.antt =====
-- What the threads owe those that sleep on one word: for the waits and wakes of bags/src/mpmc.rs
-- and slot.rs.
use lockness.Prelude.{ℕ, ◌<◌, ◌≡◌, ◌≢◌, refl, Bool, true, false, not, ◌&&◌, if◌then◌else◌}
use lockness.Machine.Program.{
  Loc, Prog, ret, rmw, write, read, wait, wake, abort, undefined, out_of_fuel, same_loc, ◌>>=◌,
}

-- What a thread must do with its next access: nothing particular; wake, since it has cleared the
-- flag of the sleepers; set the flag again, since it may not be the only sleeper that there was;
-- look, since it has let the flag stand beside something to take. `looked` is the access that looks.
pub data Duty : Type 0 where
  at_ease must_wake must_mark must_look : Duty

-- A thread may share the word with other sleepers; or it is the only one that sleeps there, or one
-- that never does.
pub data Part : Type 0 where
  partner owner stranger : Part

-- By the flag before and after an access, and the alarm after and before it.
abbrev pub owed : Bool → Bool → Bool → Bool → Duty
owed a b c d = if a && not b then must_wake else if c && not d then must_look else at_ease

module _ (l : Loc) (Valid : Loc → ℕ → Type 0) (flag alarm : ℕ → Bool) (looked : ℕ → ℕ) where
  abbrev pub duty : Part → (ℕ → ℕ) → ℕ → Duty
  duty owner f w = at_ease
  duty _ f w = owed (flag w) (flag (f w)) (alarm (f w)) (alarm w)

  abbrev pub duty_at : Loc → Part → (ℕ → ℕ) → ℕ → Duty
  duty_at m part f w = if same_loc m l then duty part f w else at_ease

  -- After a wait that may have ended by a wake.
  abbrev pub after_wait_duty : Loc → Part → Duty
  after_wait_duty m partner = if same_loc m l then must_mark else at_ease
  after_wait_duty m _ = at_ease

  -- The next access does what the thread must do. A loop that has run out of fuel would go on to
  -- look.
  abbrev pub Meets : {T A : Type 0} → Duty → Prog T A → Type 0
  Meets at_ease p = Unit
  Meets must_wake (wake m n k) = (same_loc m l ≡ true) × (0 < n)
  Meets must_mark (rmw m f k) = (same_loc m l ≡ true) × ((w : ℕ) → Valid l w → flag (f w) ≡ true)
  Meets must_look (rmw m f k) = (same_loc m l ≡ true) × ((w : ℕ) → Valid l w → f w ≡ looked w)
  Meets must_look out_of_fuel = Unit
  Meets _ p = ⊥

  -- A thread sleeps only while the flag is set.
  abbrev pub Waits : Loc → Part → (ℕ → Bool) → Type 0
  Waits m stranger e = same_loc m l ≡ false
  Waits m _ e = same_loc m l ≡ true → (w : ℕ) → Valid l w → e w ≡ true → flag w ≡ true

  -- `p`, which starts with the duty `d`, fulfils its duties, whatever valid words it reads, and where
  -- it returns, `Q` holds of its result and of the duty that is left.
  abbrev pub Alert : {T A : Type 0} → Part → Prog T A → Duty → (A → Duty → Type 0) → Type 0
  Alert part (ret a) d Q = Q a d
  Alert part (rmw m f k) d Q =
      Meets d (rmw m f k) × ((w : ℕ) → Valid m w → Alert part (k w) (duty_at m part f w) Q)
  Alert part (write i v k) d Q = Meets d (write i v k) × Alert part k at_ease Q
  Alert part (read i k) d Q = Meets d (read i k) × ((v : _) → Alert part (k v) at_ease Q)
  Alert part (wait m e k) d Q =
      Meets d (wait m e k) × Waits m part e × Alert part k (after_wait_duty m part) Q
  Alert part (wake m n k) d Q = Meets d (wake m n k) × Alert part k at_ease Q
  Alert {T} {A} part abort d Q = Meets {T = T} {A = A} d abort
  Alert {T} {A} part undefined d Q = Meets {T = T} {A = A} d undefined
  Alert {T} {A} part out_of_fuel d Q = Meets {T = T} {A = A} d out_of_fuel

  module _ {T A B : Type 0} where
    Meets->>= :
        (d : Duty) (p : Prog T A) (g : A → Prog T B)
        → (((a : A) → p ≢ ret a))
        → Meets d p
        → Meets d (p >>= g)
    unfolding ◌>>=◌
    Meets->>= at_ease p g returns o = tt
    Meets->>= d (ret a) g returns o = absurd (returns a refl)
    Meets->>= must_wake (rmw m f k) g returns o = o
    Meets->>= must_mark (rmw m f k) g returns o = o
    Meets->>= must_look (rmw m f k) g returns o = o
    Meets->>= must_wake (wake m n k) g returns o = o
    Meets->>= must_mark (wake m n k) g returns o = o
    Meets->>= must_look (wake m n k) g returns o = o
    Meets->>= must_wake (wait m n k) g returns o = o
    Meets->>= must_mark (wait m n k) g returns o = o
    Meets->>= must_look (wait m n k) g returns o = o
    Meets->>= must_wake (write m n k) g returns o = o
    Meets->>= must_mark (write m n k) g returns o = o
    Meets->>= must_look (write m n k) g returns o = o
    Meets->>= must_wake (read m k) g returns o = o
    Meets->>= must_mark (read m k) g returns o = o
    Meets->>= must_look (read m k) g returns o = o
    Meets->>= must_wake abort g returns o = o
    Meets->>= must_mark abort g returns o = o
    Meets->>= must_look abort g returns o = o
    Meets->>= must_wake undefined g returns o = o
    Meets->>= must_mark undefined g returns o = o
    Meets->>= must_look undefined g returns o = o
    Meets->>= must_wake out_of_fuel g returns o = o
    Meets->>= must_mark out_of_fuel g returns o = o
    Meets->>= must_look out_of_fuel g returns o = o

    -- The rule for a sequence of two programs.
    pub Alert->>= :
        (part : Part) (p : Prog T A) (g : A → Prog T B) (d : Duty) (Q : A → Duty → Type 0)
        (R : B → Duty → Type 0)
        → Alert part p d Q
        → ((a : A) (d' : Duty) → Q a d' → Alert part (g a) d' R)
        → Alert part (p >>= g) d R
    unfolding ◌>>=◌
    Alert->>= part (ret a) g d Q R o r = r a d o
    Alert->>= part (rmw m f k) g d Q R o r = (
      Meets->>= d (rmw m f k) g (λ a e. cc) o.0,
      λ w v. Alert->>= part (k w) g (duty_at m part f w) Q R (o.1 w v) r,
    )
    Alert->>= part (write i v k) g d Q R o r =
        (Meets->>= d (write i v k) g (λ a e. cc) o.0, Alert->>= part k g at_ease Q R o.1 r)
    Alert->>= part (read i k) g d Q R o r = (
      Meets->>= d (read i k) g (λ a e. cc) o.0,
      λ v. Alert->>= part (k v) g at_ease Q R (o.1 v) r,
    )
    Alert->>= part (wait m e k) g d Q R o r = (
      Meets->>= d (wait m e k) g (λ a e. cc) o.0,
      o.1,
      Alert->>= part k g (after_wait_duty m part) Q R o.2 r,
    )
    Alert->>= part (wake m n k) g d Q R o r =
        (Meets->>= d (wake m n k) g (λ a e. cc) o.0, Alert->>= part k g at_ease Q R o.1 r)
    Alert->>= part abort g d Q R o r = Meets->>= d abort g (λ a e. cc) o
    Alert->>= part undefined g d Q R o r = Meets->>= d undefined g (λ a e. cc) o
    Alert->>= part out_of_fuel g d Q R o r = Meets->>= d out_of_fuel g (λ a e. cc) o

  module _ {T : Type 0} where
    -- A thread does what it owes.
    pub Alert-Meets :
        (part : Part) (p : Prog T (Unit {0})) (d : Duty)
        → Alert part p d (λ _ d'. d' ≡ at_ease)
        → Meets d p
    Alert-Meets part (ret a) d o = rw o tt
    Alert-Meets part (rmw m f k) d o = o.0
    Alert-Meets part (write i v k) d o = o.0
    Alert-Meets part (read i k) d o = o.0
    Alert-Meets part (wait m e k) d o = o.0
    Alert-Meets part (wake m n k) d o = o.0
    Alert-Meets part abort d o = o
    Alert-Meets part undefined d o = o
    Alert-Meets part out_of_fuel d o = o
