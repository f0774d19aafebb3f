-- ===== src/Bags/Slot/Waiting.antt =====
-- `Receiver::recv` of bags/src/slot.rs, alone on an empty slot.
use lockness.Prelude.{
  ℕ, zero, suc, ◌+◌, ◌≤◌, ◌<◌, ◌≡◌, refl, bit_or, ◌==◌, ap, ◌∙◌, Bool, true, false, not, ltb,
  if◌then◌else◌, arith,
}
use native.Mathlib.Decide.{dec_lt}
use lockness.Machine.Program.{Loc, Prog, ret, ◌>>=◌, ◌>>◌, Shared, set_word}
use lockness.Machine.Access.{fetch_or, atomic_sleep}
use lockness.Machine.Sequential.{asleep, exhausted, run}
use lockness.Bags.Mpmc.Status.{contains}
use lockness.Bags.Slot.Status.{recv_sleeping}
use lockness.Bags.Slot.Status.Flags.{recv_word}
use lockness.Bags.Slot.Receiver.{TryRecv, Recv, after_load, try_recv, pause, after_try_recv, recv}
use lockness.Bags.Slot.Contract.Receiving.{loaded, after_load_lem}

module _ {T : Type 0} (x86 : Bool) where
  -- Nothing is there and a sender is alive; the receiver's flag is as given.
  abbrev pub IsIdle : Bool → Shared T → Type 0
  IsIdle flag s = s.word Loc.recv ≡ recv_word false flag false

  idle_load :
      (flag : Bool) → after_load {T = T} x86 (recv_word false flag false) ≡ ret TryRecv.empty
  unfolding contains
  idle_load true = after_load_lem {T = T} x86 false false 2 refl refl
  idle_load false = after_load_lem {T = T} x86 false false 0 refl refl

  run-recv :
      (fuel i : ℕ) (s : Shared T)
      → run (recv (suc fuel) x86 i) s
        ≡ run
            (after_load x86 (s.word Loc.recv) >>= after_try_recv (λ j. recv fuel x86 j) i)
            (loaded s)
  unfolding run recv try_recv ◌>>=◌
  run-recv fuel i s = refl

  idle_round :
      (flag : Bool) (fuel i : ℕ) (s : Shared T)
      → IsIdle flag s
      → run (recv (suc fuel) x86 i) s ≡ run (pause (λ j. recv fuel x86 j) i) (loaded s)
  unfolding ◌>>=◌ after_try_recv
  idle_round flag fuel i s idle =
      run-recv fuel i s
      ∙ ap (λ p. run (p >>= after_try_recv (λ j. recv fuel x86 j) i) (loaded s))
          (ap (after_load x86) idle ∙ idle_load flag)

  pause_on : (again : ℕ → Prog T (Recv T)) (i : ℕ) → ltb i 32 ≡ true → pause again i ≡ again (i + 1)
  unfolding pause
  pause_on again i e = rw e refl

  -- What follows the `fetch_or` of the flag, which gave `w`.
  abbrev after_flag : (ℕ → Prog T (Recv T)) → ℕ → Prog T (Recv T)
  after_flag again w =
      if not (w == 0) then again 0 else (atomic_sleep Loc.recv recv_sleeping >> again 0)

  pause_off :
      (again : ℕ → Prog T (Recv T)) (i : ℕ)
      → ltb i 32 ≡ false
      → pause again i ≡ (fetch_or Loc.recv recv_sleeping >>= after_flag again)
  unfolding pause
  pause_off again i e = rw e refl

  run-flag :
      (again : ℕ → Prog T (Recv T)) (s : Shared T)
      → run (fetch_or Loc.recv recv_sleeping >>= after_flag again) s
        ≡ run
            (after_flag again (s.word Loc.recv))
            (set_word s Loc.recv (bit_or (s.word Loc.recv) recv_sleeping))
  unfolding run ◌>>=◌
  run-flag again s = refl

  run-pause :
      (again : ℕ → Prog T (Recv T)) (flag : Bool) (i : ℕ) (s : Shared T)
      → ltb i 32 ≡ false
      → IsIdle flag s
      → run (pause again i) s
        ≡ run
            (after_flag again (recv_word false flag false))
            (set_word s Loc.recv (bit_or (recv_word false flag false) recv_sleeping))
  run-pause again flag i s e idle =
      ap (λ p. run p s) (pause_off again i e)
      ∙ run-flag again s
      ∙ ap (λ w. run (after_flag again w) (set_word s Loc.recv (bit_or w recv_sleeping))) idle

  run-after_flag :
      (again : ℕ → Prog T (Recv T)) (s : Shared T)
      → run (after_flag again 0) (set_word s Loc.recv 2) ≡ asleep (set_word s Loc.recv 2)
  unfolding run ◌>>=◌ ◌>>◌
  run-after_flag again s = refl

  asleep_after :
      (fuel i : ℕ) (s : Shared T)
      → i ≤ 32
      → 32 < fuel + i
      → IsIdle false s
      → (s' : Shared T) × (run (recv fuel x86 i) s ≡ asleep s') × IsIdle true s'
  asleep_after zero i s le enough idle = absurd (omega arith)
  asleep_after (suc fuel) i s le enough idle = elim (dec_lt i 32) [
    | yes on ↦
        let (s', e, idle') =
          asleep_after fuel (i + 1) (loaded s) (omega arith) (omega arith) idle in
        (
          s',
          idle_round false fuel i s idle
              ∙ ap (λ p. run p (loaded s)) (pause_on (λ j. recv fuel x86 j) i (ground arith))
              ∙ e,
          idle',
        )
    | no off ↦ (
      set_word (loaded s) Loc.recv 2,
      idle_round false fuel i s idle
          ∙ run-pause (λ j. recv fuel x86 j) false i (loaded s) (ground arith) idle
          ∙ run-after_flag (λ j. recv fuel x86 j) (loaded s),
      refl,
    )
  ]

  -- `recv`, alone on a slot that is empty and has a sender, with the flag SLEEPING off, sets the
  -- flag and sleeps within 33 rounds.
  pub recv_sleeps :
      (fuel : ℕ) (s : Shared T)
      → 33 ≤ fuel
      → IsIdle false s
      → (s' : Shared T) × (run (recv fuel x86 0) s ≡ asleep s') × IsIdle true s'
  recv_sleeps fuel s enough idle = asleep_after fuel 0 s (omega arith) (omega arith) idle

  out_of_rounds : (i : ℕ) (s : Shared T) → run (recv zero x86 i) s ≡ exhausted
  unfolding run recv
  out_of_rounds i s = refl

  -- `recv`, alone on a slot that is empty and has a sender, with the flag SLEEPING on, neither
  -- sleeps nor returns: it uses up any number of rounds.
  pub recv_spins : (fuel i : ℕ) (s : Shared T) → IsIdle true s → run (recv fuel x86 i) s ≡ exhausted
  recv_spins zero i s idle = out_of_rounds i s
  recv_spins (suc fuel) i s idle = idle_round true fuel i s idle ∙ elim (dec_lt i 32) [
    | yes on ↦
        ap (λ p. run p (loaded s)) (pause_on (λ j. recv fuel x86 j) i (ground arith))
        ∙ recv_spins fuel (i + 1) (loaded s) idle
    | no off ↦
        run-pause (λ j. recv fuel x86 j) true i (loaded s) (ground arith) idle
        ∙ recv_spins fuel 0 (set_word (loaded s) Loc.recv 2) refl
  ]
