-- ===== src/Bags/Mpmc/Sleepers/Clients.antt =====
-- Sleepers of one channel of bags/src/mpmc.rs, however its clients interleave.
use lockness.Prelude.{ℕ, bit_and, ◌≡◌, refl, true, false, ltb, arith, inl, inr, ◌⊎◌, Bool-cases}
use lockness.Word.Bits.{complement}
use lockness.Machine.Program.{Loc, Prog, ◌>>=◌}
use lockness.Machine.Futex.{World, IsAsleepOn}
use lockness.Machine.Futex
use lockness.Machine.Futex.Duty.{at_ease, partner, Alert->>=}
use lockness.Machine.Futex.Changed.{IsActing, Looks}
use lockness.Machine.Futex.Duties.{AtEase}
use lockness.Machine.Futex.Rules.{Alert_then}
use lockness.Machine.Futex.Watch.{Inv}
use lockness.Machine.Futex.Reached.{Reach-Inv}
use lockness.Bags.Mpmc.Status.{sleeping, all, contains}
use lockness.Bags.Mpmc.Handles.{mpmc}
use lockness.Bags.Mpmc.System.Clients.{
  IsClient, stop, try_send, send, try_recv, recv, clone_sender, clone_receiver, drop_sender,
  drop_receiver,
}
use lockness.Bags.Mpmc.System.Invariant
use lockness.Bags.Mpmc.Sleepers.{IsWord, flag, alarm, looked}
use lockness.Bags.Mpmc.Sleepers.Words.{claim-alarm-recv}
use lockness.Bags.Mpmc.Sleepers.Sending.{Does, try_send-Alert}
use lockness.Bags.Mpmc.Sleepers.Receiving.{
  try_recv-Alert, clone_sender-Alert, clone_receiver-Alert, drop_sender-Alert, drop_receiver-Alert,
}
use lockness.Bags.Mpmc.Sleepers.Blocking.{send-Alert, recv-Alert}

module _ (l : Loc) {T : Type 0} where
  call :
      {A : Type 0} (p : Prog T A) (k : A → Prog T (Unit {0}))
      → Does l p at_ease AtEase
      → ((a : A) → Does l (k a) at_ease AtEase)
      → Does l (p >>= k) at_ease AtEase
  call p k o r = Alert_then l IsWord flag alarm looked partner p k at_ease AtEase o r

  -- A client owes nothing between its calls.
  IsClient-Alert : {p : Prog T (Unit {0})} → IsClient p → Does l p at_ease AtEase
  IsClient-Alert stop = refl
  IsClient-Alert (try_send x86 fuel bias b k small next) =
      call _ k (try_send-Alert l x86 fuel bias b small) (λ r. IsClient-Alert (next r))
  IsClient-Alert (send fuel x86 tries bias b k small next) =
      call _ k (send-Alert l T fuel x86 tries bias b small) (λ r. IsClient-Alert (next r))
  IsClient-Alert (try_recv x86 k next) =
      call _ k (try_recv-Alert l T x86 at_ease (inl refl)) (λ r. IsClient-Alert (next r))
  IsClient-Alert (recv fuel x86 k next) =
      call _ k (recv-Alert l T fuel x86 at_ease (inl refl)) (λ r. IsClient-Alert (next r))
  IsClient-Alert (clone_sender k next) =
      Alert->>= l IsWord (flag l) (alarm l) (looked l) partner _ k at_ease _ AtEase
        (clone_sender-Alert l T) (λ bias d q. rw q.1 (IsClient-Alert (next bias q.0)))
  IsClient-Alert (clone_receiver k next) =
      call _ k (clone_receiver-Alert l T) (λ r. IsClient-Alert next)
  IsClient-Alert (drop_sender k next) = call _ k (drop_sender-Alert l T) (λ r. IsClient-Alert next)
  IsClient-Alert (drop_receiver k next) =
      call _ k (drop_receiver-Alert l T) (λ r. IsClient-Alert next)

first_silent : (T : Type 0) (l : Loc) → alarm l ((mpmc {T = T}).word l) ≡ false
unfolding mpmc contains complement
first_silent T Loc.send = refl
first_silent T Loc.recv = refl
first_silent T Loc.num_senders = refl
first_silent T Loc.num_receivers = refl

alarm-flag : (l : Loc) (w : ℕ) → alarm l w ≡ true → flag l w ≡ true
alarm-flag Loc.send w h = cc
alarm-flag Loc.recv w h = ground arith
alarm-flag Loc.num_senders w h = cc
alarm-flag Loc.num_receivers w h = cc

looked-silent : (l : Loc) (w : ℕ) → IsWord l w → alarm l (looked l w) ≡ false
looked-silent Loc.send w fits = refl
looked-silent Loc.recv w fits = claim-alarm-recv w fits
looked-silent Loc.num_senders w fits = refl
looked-silent Loc.num_receivers w fits = refl

module _ {T : Type 0} {thread : ℕ → Prog T (Unit {0})} {s : World T}
    (clients : (t : ℕ) → IsClient (thread t)) (r : Futex.Reach mpmc thread s) where
  watched : (l : Loc) → Inv l IsWord (flag l) (alarm l) (looked l) (λ _. partner) s
  watched l =
      Reach-Inv l IsWord (flag l) (alarm l) (looked l) (λ _. partner) (alarm-flag l)
        (looked-silent l) (λ t e. cc) (λ s r l. (Invariant.Reach-Inv clients r).shown.words l)
        (λ t. (at_ease, IsClient-Alert l (clients t))) (first_silent T l) r

  -- However the calls of threads that are clients of one channel interleave, and whichever sleepers
  -- a wake picks: while a thread sleeps in `send`, the flag SLEEPING is set in the word `send`,
  -- or a thread is about to wake a sleeper on that word or to set the flag.
  pub sleeping_sender :
      (u : ℕ)
      → IsAsleepOn s Loc.send u
      → (contains (s.state.mem.word Loc.send) sleeping ≡ true)
        ⊎ ((t : ℕ) × IsActing Loc.send IsWord
              (flag Loc.send)
              (alarm Loc.send)
              (looked Loc.send)
              (s.state.thread t))
  sleeping_sender u on = (watched Loc.send).seen u on

  -- However the calls of threads that are clients of one channel interleave, and whichever sleepers
  -- a wake picks: while a thread sleeps in `recv`, the flag SLEEPING is set in the word `recv` and
  -- no cell is committed, or a thread is about to wake a sleeper on that word, to set the flag, or
  -- to claim all committed cells (an access that does to the word what that of `try_recv` does), or
  -- has run out of the fuel of the model behind its sleep.
  pub sleeping_receiver :
      (u : ℕ)
      → IsAsleepOn s Loc.recv u
      → (contains (complement 32 (s.state.mem.word Loc.recv)) sleeping ≡ true)
          × (bit_and (s.state.mem.word Loc.recv) (complement 32 all) ≡ 0)
        ⊎ ((t : ℕ) × (IsActing Loc.recv IsWord
                (flag Loc.recv)
                (alarm Loc.recv)
                (looked Loc.recv)
                (s.state.thread t)
              ⊎ Looks Loc.recv IsWord
                  (flag Loc.recv)
                  (alarm Loc.recv)
                  (looked Loc.recv)
                  (s.state.thread t)))
  sleeping_receiver u on =
      let inv = watched Loc.recv in
      let w : ℕ = s.state.mem.word Loc.recv in
      elim (inv.seen u on) [
        | inr (t, acts) ↦ inr (t, inl acts)
        | inl set ↦ elim (Bool-cases (ltb 0 (bit_and w (complement 32 all)))) [
          | inl some_there ↦
              let (t, looks) = inv.heard (rw (set, some_there) refl) in inr (t, inr looks)
          | inr nothing_there ↦ inl (set, ground arith)
        ]
      ]
