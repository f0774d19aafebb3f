-- ===== src/Machine/Waking.antt =====
-- The wake at the end of an operation of bags/src/mpmc.rs and slot.rs, where it runs alone.
use lockness.Prelude.{ℕ, ◌≡◌, refl, Bool, true, false, if◌then◌else◌}
use lockness.Machine.Program.{Loc, ret, ◌>>=◌, ◌>>◌, Shared, add_wake}
use lockness.Machine.Access.{wake_if}
use lockness.Machine.Sequential.{done, run}

module _ {T : Type 0} where
  -- A wake changes no word and no cell.
  abbrev pub woken : Bool → Loc → ℕ → Shared T → Shared T
  woken b l k s = if b then add_wake s l k else s

  pub woken-word :
      (b : Bool) (l : Loc) (k : ℕ) (s : Shared T) (m : Loc) → (woken b l k s).word m ≡ s.word m
  woken-word true l k s m = refl
  woken-word false l k s m = refl

  pub woken-cell :
      (b : Bool) (l : Loc) (k : ℕ) (s : Shared T) (i : ℕ) → (woken b l k s).cell i ≡ s.cell i
  woken-cell true l k s i = refl
  woken-cell false l k s i = refl

  pub run-wake_if :
      {A : Type 0} (b : Bool) (l : Loc) (k : ℕ) (a : A) (s : Shared T)
      → run (wake_if b l k >> ret a) s ≡ done a (woken b l k s)
  unfolding run ◌>>=◌ ◌>>◌
  run-wake_if true l k a s = refl
  run-wake_if false l k a s = refl

  pub run-wake :
      (b : Bool) (l : Loc) (k : ℕ) (s : Shared T) → run (wake_if b l k) s ≡ done tt (woken b l k s)
  unfolding run
  run-wake true l k s = refl
  run-wake false l k s = refl
