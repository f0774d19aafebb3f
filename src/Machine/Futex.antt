-- ===== src/Machine/Futex.antt =====
-- The threads with the futex of the operating system, for `atomic_sleep` and `atomic_wake` of
-- bags/src/lib.rs: a thread that falls asleep stays so until it is woken or interrupted.
pub mod Refines
pub mod Duty
pub mod Changed
pub mod Duties
pub mod Rules
pub mod Waits
pub mod Watch
pub mod Reached
use lockness.Prelude.{ℕ, zero, suc, ◌≡◌, Bool, true, false, not, []}
use lockness.Machine.Program.{Loc, Prog, same_loc, Shared, add_wake}
use lockness.Machine.Threads.{System, Event, Move, set_thread, puts, gots}

-- The program of a thread that is asleep stands at its `wait`.
pub record World (T : Type 0) : Type 0 where
  pub state : System T
  pub asleep : ℕ → Bool

module _ {T A : Type 0} where
  abbrev pub waits_on : Loc → Prog T A → Bool
  waits_on l (Prog.wait m e k) = same_loc m l
  waits_on l _ = false

  -- A wait sleeps only if the word is as expected.
  abbrev pub falls : Shared T → Prog T A → Bool
  falls s (Prog.wait l e k) = e (s.word l)
  falls s _ = false

  abbrev pub passes : Shared T → Prog T A → Bool
  passes s (Prog.wait l e k) = not (e (s.word l))
  passes s _ = false

  abbrev pub after_wait : Prog T A → Prog T A
  after_wait (Prog.wait l e k) = k
  after_wait p = p

  abbrev pub is_futex : Prog T A → Bool
  is_futex (Prog.wait l e k) = true
  is_futex (Prog.wake l n k) = true
  is_futex _ = false

module _ {T : Type 0} where
  abbrev pub IsAsleepOn : World T → Loc → ℕ → Type 0
  IsAsleepOn s l t = (s.asleep t ≡ true) × (waits_on l (s.state.thread t) ≡ true)

  -- Thread `t` goes on behind its wait.
  abbrev pub rouse : ℕ → World T → World T
  rouse t s = record {
    state = record s.state { thread = set_thread s.state.thread t (after_wait (s.state.thread t)) };
    asleep = set_thread s.asleep t false;
  }

  -- The call of thread `t`, before the sleepers are woken.
  abbrev pub called : ℕ → Loc → ℕ → Prog T (Unit {0}) → World T → World T
  called t l n k s = record s {
    state = record s.state {
      mem = add_wake s.state.mem l n;
      thread = set_thread s.state.thread t k;
    };
  }

  -- `n` of the threads that sleep on `l` are woken, or all if there are no more than `n`.
  pub data Wakes (l : Loc) : ℕ → World T → World T → Type 0 where
    enough : {s : World T} → Wakes l zero s s
    nobody : {n : ℕ} {s : World T} → ((t : ℕ) → ¬ IsAsleepOn s l t) → Wakes l n s s
    one :
        {n : ℕ} {s u : World T} (t : ℕ)
        → IsAsleepOn s l t
        → Wakes l n (rouse t s) u
        → Wakes l (suc n) s u

  pub data Step (s : World T) : World T → Type 0 where
    act :
        (t : ℕ) {m : Shared T} {p : Prog T (Unit {0})} {e : Event T}
        → s.asleep t ≡ false
        → is_futex (s.state.thread t) ≡ false
        → Move s.state.mem (s.state.thread t) m p e
        → Step s (record s {
          state = record {
            mem = m;
            thread = set_thread s.state.thread t p;
            written = puts e s.state.written;
            taken = gots e s.state.taken;
          };
        })
    fall :
        (t : ℕ)
        → s.asleep t ≡ false
        → falls s.state.mem (s.state.thread t) ≡ true
        → Step s (record s { asleep = set_thread s.asleep t true })
    -- The word has changed meanwhile.
    pass :
        (t : ℕ)
        → s.asleep t ≡ false
        → passes s.state.mem (s.state.thread t) ≡ true
        → Step s (rouse t s)
    wake :
        (t : ℕ) {l : Loc} {n : ℕ} {k : Prog T (Unit {0})} {u : World T}
        → s.asleep t ≡ false
        → s.state.thread t ≡ Prog.wake l n k
        → Wakes l n (called t l n k s) u
        → Step s u
    -- A futex wait may also end without a wake.
    interrupt : (t : ℕ) (l : Loc) → IsAsleepOn s l t → Step s (rouse t s)

  -- All threads start awake.
  pub data Reach (first : Shared T) (p : ℕ → Prog T (Unit {0})) : World T → Type 0 where
    start : Reach first p (record {
      state = record { mem = first; thread = p; written = []; taken = [] };
      asleep = λ t. false;
    })
    later : {s u : World T} → Reach first p s → Step s u → Reach first p u
