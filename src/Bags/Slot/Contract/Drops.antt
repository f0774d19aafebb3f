-- ===== src/Bags/Slot/Contract/Drops.antt =====
-- The drop of the receiver and of the channel of bags/src/slot.rs against the contract.
use lockness.Prelude.{
  ℕ, ◌≡◌, refl, ap, ◌∙◌, Bool, true, false, ◌==◌, Option, none, some, [], ◌∷◌, if◌then◌else◌, arith,
}
use lockness.Machine.Program.{Loc, ret, read, ◌>>=◌, Shared, set_word, set_cell}
use lockness.Machine.Sequential.{done, run}
use lockness.Bags.Mpmc.Status.{contains, u32_max}
use lockness.Bags.Slot.Status.{receiver_dead, send_sleeping, committed, slot}
use lockness.Bags.Slot.Status.Recv.{contains-committed}
use lockness.Bags.Slot.Status.Flags.{dead_word}
use lockness.Bags.Slot.Handles.{drop_receiver, drop_inner}
use lockness.Bags.Slot.Contract.{Slot, Implements}
use lockness.Machine.Threads.{left_over}
use lockness.Machine.Waking.{woken, woken-word, woken-cell, run-wake}

module _ {T : Type 0} where
  run-drop_inner :
      (s : Shared T)
      → run drop_inner s
        ≡ run
            (if contains (s.word Loc.recv) committed then read slot (λ v. ret (v ∷ [])) else ret [])
            (set_word s Loc.recv (s.word Loc.recv))
  unfolding run drop_inner ◌>>=◌
  run-drop_inner s = refl

  module _ (x86 : Bool) (calls : ℕ) (a : Slot T) (s : Shared T) (i : Implements x86 calls a s) where
    -- The memory when the receiver is gone.
    abbrev receiver_left : Shared T
    receiver_left =
        woken (contains (s.word Loc.send) (send_sleeping x86)) Loc.send u32_max
          (set_word s Loc.send (receiver_dead x86))

    -- The drop of the receiver leaves a memory that stands for the slot without it; a message stays.
    pub drop_receiver_lem :
        (s' : Shared T) × (run (drop_receiver x86) s ≡ done tt s')
        × Implements x86 calls (record a { receiver_gone = true }) s'
    unfolding run drop_receiver ◌>>=◌
    drop_receiver_lem =
        let b : Bool = contains (s.word Loc.send) (send_sleeping x86) in
        let m : Shared T = set_word s Loc.send (receiver_dead x86) in
        (
          receiver_left,
          run-wake b Loc.send u32_max m,
          record {
            asleep = false;
            count = 0;
            fits = ground arith;
            few = λ e. omega arith;
            is_send = woken-word b Loc.send u32_max m Loc.send ∙ dead_word x86;
            reserved = λ e. cc;
            recv_asleep = i.recv_asleep;
            is_recv = woken-word b Loc.send u32_max m Loc.recv ∙ i.is_recv;
            is_senders = woken-word b Loc.send u32_max m Loc.num_senders ∙ i.is_senders;
            senders_fit = i.senders_fit;
            is_content = woken-cell b Loc.send u32_max m slot ∙ i.is_content;
          },
        )

  drop_inner_cases :
      (x86 : Bool) (calls : ℕ) (o : Option T) (n : ℕ) (g : Bool) (s : Shared T)
      → Implements x86 calls (record { content = o; senders = n; receiver_gone = g }) s
      → (s' : Shared T) × (run drop_inner s ≡ done (left_over o) s')
  unfolding run
  drop_inner_cases x86 calls none n g s i =
      let there : contains (s.word Loc.recv) committed ≡ false =
        ap (λ w. contains w committed) i.is_recv
        ∙ contains-committed false i.recv_asleep (n == 0) in
      (set_word s Loc.recv (s.word Loc.recv), run-drop_inner s ∙ rw there refl)
  drop_inner_cases x86 calls (some v) n g s i =
      let there : contains (s.word Loc.recv) committed ≡ true =
        ap (λ w. contains w committed) i.is_recv ∙ contains-committed true i.recv_asleep (n == 0) in
      (
        set_cell (set_word s Loc.recv (s.word Loc.recv)) slot none,
        run-drop_inner s ∙ rw there (rw i.is_content refl),
      )

  -- On a memory that stands for a slot, the drop of the channel drops the message, if there is one,
  -- and nothing else.
  pub drop_inner_lem :
      (x86 : Bool) (calls : ℕ) (a : Slot T) (s : Shared T)
      → Implements x86 calls a s
      → (s' : Shared T) × (run drop_inner s ≡ done (left_over a.content) s')
  drop_inner_lem x86 calls a s i =
      drop_inner_cases x86 calls a.content a.senders a.receiver_gone s i
