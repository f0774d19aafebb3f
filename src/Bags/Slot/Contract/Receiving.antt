-- ===== src/Bags/Slot/Contract/Receiving.antt =====
-- `Receiver::try_recv` of bags/src/slot.rs against the contract.
use lockness.Prelude.{
  ℕ, ◌≡◌, refl, ap, ◌∙◌, bit_and, Bool, true, false, not, ◌==◌, Option, none, some, if◌then◌else◌,
  arith,
}
use lockness.Machine.Program.{Loc, ret, ◌>>=◌, Shared, set_word, set_cell}
use lockness.Machine.Sequential.{done, run}
use lockness.Bags.Mpmc.Status.{contains}
use lockness.Bags.Slot.Status.{send_sleeping, committed, sender_dead, slot}
use lockness.Bags.Slot.Status.Recv.{contains-committed, contains-sender_dead, and-sender_dead}
use lockness.Bags.Slot.Status.Flags.{empty_word}
use lockness.Bags.Slot.Receiver.{TryRecv, take_message, after_load, try_recv}
use lockness.Bags.Slot.Contract.{Slot, is_there, answer, recv_result, after_recv, Implements}
use lockness.Machine.Waking.{woken, woken-word, woken-cell, run-wake_if}

module _ {T : Type 0} where
  -- The memory after the message is out.
  abbrev emptied : Bool → Shared T → Shared T
  emptied x86 s = woken (contains (s.word Loc.send) (send_sleeping x86)) Loc.send 1 (
      set_word (set_cell (set_word s Loc.recv (bit_and (s.word Loc.recv) sender_dead)) slot none)
        Loc.send 0)

  run-take_message :
      (x86 : Bool) (s : Shared T) (v : T)
      → s.cell slot ≡ some v
      → run (take_message x86) s ≡ done (TryRecv.received v) (emptied x86 s)
  unfolding run take_message ◌>>=◌
  run-take_message x86 s v e = rw e (
      run-wake_if (contains (s.word Loc.send) (send_sleeping x86)) Loc.send 1 (TryRecv.received v)
        _)

  -- The memory after the load, which is the same.
  abbrev pub loaded : Shared T → Shared T
  loaded s = set_word s Loc.recv (s.word Loc.recv)

  run-try_recv :
      (x86 : Bool) (s : Shared T)
      → run (try_recv x86) s ≡ run (after_load x86 (s.word Loc.recv)) (loaded s)
  unfolding run try_recv ◌>>=◌
  run-try_recv x86 s = refl

  pub after_load_lem :
      (x86 there dead : Bool) (w : ℕ)
      → contains w committed ≡ there
      → contains w sender_dead ≡ dead
      → after_load x86 w ≡ (
          if not there
          then (if dead then ret TryRecv.disconnected else ret TryRecv.empty)
          else take_message {T = T} x86)
  unfolding after_load
  after_load_lem x86 there dead w e d = rw (e, d) refl

  module _ (x86 : Bool) (calls : ℕ) (a : Slot T) (s : Shared T) (i : Implements x86 calls a s) where
    run-loaded :
        run (try_recv x86) s
        ≡ run
            (if not (is_there a.content)
              then (if a.senders == 0 then ret TryRecv.disconnected else ret TryRecv.empty)
              else take_message x86)
            (loaded s)
    run-loaded =
        run-try_recv x86 s
        ∙ ap (λ p. run p (loaded s))
            (after_load_lem x86 (is_there a.content) (a.senders == 0) (s.word Loc.recv)
              (ap (λ w. contains w committed) i.is_recv
                ∙ contains-committed (is_there a.content) i.recv_asleep (a.senders == 0))
              (ap (λ w. contains w sender_dead) i.is_recv
                ∙ contains-sender_dead (is_there a.content) i.recv_asleep (a.senders == 0)))

    loaded-Implements : Implements x86 calls a (loaded s)
    loaded-Implements = record {
      asleep = i.asleep;
      count = i.count;
      fits = i.fits;
      few = i.few;
      is_send = i.is_send;
      reserved = i.reserved;
      recv_asleep = i.recv_asleep;
      is_recv = i.is_recv;
      is_senders = i.is_senders;
      senders_fit = i.senders_fit;
      is_content = i.is_content;
    }

  run-nothing :
      (dead : Bool) (s : Shared T)
      → run (if dead then ret TryRecv.disconnected else ret TryRecv.empty) s
        ≡ done (answer {T = T} none dead) s
  unfolding run
  run-nothing true s = refl
  run-nothing false s = refl

  try_recv_cases :
      (x86 : Bool) (calls : ℕ) (o : Option T) (n : ℕ) (s : Shared T)
      → Implements x86 calls (record { content = o; senders = n; receiver_gone = false }) s
      → (s' : Shared T) × (run (try_recv x86) s ≡ done (answer o (n == 0)) s')
        × Implements x86
            (if is_there o then 0 else calls)
            (record { content = none; senders = n; receiver_gone = false })
            s'
  try_recv_cases x86 calls none n s i = (
    loaded s,
    run-loaded x86 calls _ s i ∙ run-nothing (n == 0) (loaded s),
    loaded-Implements x86 calls _ s i,
  )
  try_recv_cases x86 calls (some v) n s i =
      let b : Bool = contains (s.word Loc.send) (send_sleeping x86) in
      let m : Shared T =
        set_word
          (set_cell (set_word (loaded s) Loc.recv (bit_and (s.word Loc.recv) sender_dead)) slot
            none)
          Loc.send 0 in
      (
        emptied x86 (loaded s),
        run-loaded x86 calls _ s i ∙ run-take_message x86 (loaded s) v i.is_content,
        record {
          asleep = false;
          count = 0;
          fits = ground arith;
          few = λ e. omega arith;
          is_send = woken-word b Loc.send 1 m Loc.send ∙ empty_word x86;
          reserved = λ e. refl;
          recv_asleep = false;
          is_recv =
              woken-word b Loc.send 1 m Loc.recv
              ∙ ap (λ w. bit_and w sender_dead) i.is_recv
              ∙ and-sender_dead true i.recv_asleep (n == 0);
          is_senders = woken-word b Loc.send 1 m Loc.num_senders ∙ i.is_senders;
          senders_fit = i.senders_fit;
          is_content = woken-cell b Loc.send 1 m slot;
        },
      )

  with_receiver :
      (x86 : Bool) (calls : ℕ) (o : Option T) (n : ℕ) (g : Bool) (s : Shared T)
      → Implements x86 calls (record { content = o; senders = n; receiver_gone = g }) s
      → g ≡ false
      → (s' : Shared T) × (run (try_recv x86) s ≡ done (answer o (n == 0)) s')
        × Implements x86
            (if is_there o then 0 else calls)
            (record { content = none; senders = n; receiver_gone = g })
            s'
  with_receiver x86 calls o n false s i e = try_recv_cases x86 calls o n s i
  with_receiver x86 calls o n true s i e = cc

  -- On a memory that stands for a slot with its receiver, `try_recv` returns what the slot promises,
  -- and leaves a memory that stands for the slot without a message; where a message came out the
  -- count of reservations starts again.
  pub try_recv_lem :
      (x86 : Bool) (calls : ℕ) (a : Slot T) (s : Shared T)
      → Implements x86 calls a s
      → a.receiver_gone ≡ false
      → (s' : Shared T) × (run (try_recv x86) s ≡ done (recv_result a) s')
        × Implements x86 (if is_there a.content then 0 else calls) (after_recv a) s'
  try_recv_lem x86 calls a s i here =
      with_receiver x86 calls a.content a.senders a.receiver_gone s i here
