-- ===== src/Bags/Slot/Contract/Life.antt =====
-- The construction, the clones and the drops of senders of bags/src/slot.rs against the contract.
use lockness.Prelude.{
  ℕ, ◌+◌, ◌-◌, ◌/◌, ◌%◌, ◌^◌, ◌≤◌, ◌<◌, ◌≡◌, refl, ap, ◌∙◌, bit_or, Bool, true, false, ◌==◌, ltb,
  none, if◌then◌else◌, arith,
}
use native.Mathlib.Decide.{dec_lt}
use lockness.Machine.Program.{Loc, Prog, ret, rmw, abort, ◌>>=◌, Shared, set_word}
use lockness.Machine.Access.{wake_if}
use lockness.Machine.Sequential.{done, run}
use lockness.Bags.Mpmc.Status.{contains, u32_max}
use lockness.Bags.Slot.Status.{recv_sleeping, sender_dead, slot}
use lockness.Bags.Slot.Status.Recv.{or-sender_dead}
use lockness.Bags.Slot.Status.Flags.{send_word, recv_word}
use lockness.Bags.Slot.Handles.{mpsc, clone_sender, drop_sender}
use lockness.Bags.Slot.Contract.{Slot, is_there, Implements}
use lockness.Machine.Waking.{woken, woken-word, woken-cell, run-wake}

module _ {T : Type 0} where
  run-clone_sender :
      (s : Shared T)
      → run clone_sender s
        ≡ run
            (if ltb (u32_max / 2) (s.word Loc.num_senders) then abort else ret tt)
            (set_word s Loc.num_senders ((s.word Loc.num_senders + 1) % 2 ^ 32))
  unfolding run clone_sender ◌>>=◌
  run-clone_sender s = refl

  abbrev last_drop : Prog T (Unit {0})
  last_drop =
      rmw Loc.recv (λ w. bit_or w sender_dead)
        (λ old. wake_if (contains old recv_sleeping) Loc.recv u32_max)

  run-drop_sender :
      (s : Shared T)
      → run drop_sender s
        ≡ run
            (if ltb 1 (s.word Loc.num_senders) then ret tt else last_drop)
            (set_word s Loc.num_senders ((s.word Loc.num_senders + 2 ^ 32 - 1) % 2 ^ 32))
  unfolding run drop_sender ◌>>=◌
  run-drop_sender s = refl

  -- A program that is chosen by a test, from a memory with a computed number of senders.
  run-chosen :
      (s : Shared T) (n n' : ℕ) (b b' : Bool) (p q : Prog T (Unit {0}))
      → n ≡ n'
      → b ≡ b'
      → run (if b then p else q) (set_word s Loc.num_senders n)
        ≡ run (if b' then p else q) (set_word s Loc.num_senders n')
  run-chosen s n n' b b' p q e d = rw (e, d) refl

  -- A new slot is empty, has one sender and its receiver.
  pub mpsc_lem :
      (x86 : Bool)
      → Implements x86 0
          (record { content = none; senders = 1; receiver_gone = false })
          (mpsc {T = T})
  unfolding mpsc
  mpsc_lem x86 = record {
    asleep = false;
    count = 0;
    fits = ground arith;
    few = λ e. omega arith;
    is_send = elim x86 as (λ b. 0 ≡ send_word b false false 0) [ true ↦ refl | false ↦ refl ];
    reserved = λ e. refl;
    recv_asleep = false;
    is_recv = refl;
    is_senders = refl;
    senders_fit = omega arith;
    is_content = refl;
  }

  module _ (x86 : Bool) (calls : ℕ) (a : Slot T) (s : Shared T) (i : Implements x86 calls a s) where
    -- A memory that differs in the number of senders, and whether there are any in the same way.
    abbrev with_senders : ℕ → Shared T
    with_senders n = set_word s Loc.num_senders n

    with_senders-Implements :
        (n : ℕ)
        → 0 < n
        → 0 < a.senders
        → n < 2 ^ 32
        → Implements x86 calls (record a { senders = n }) (with_senders n)
    with_senders-Implements n pos was fits = record {
      asleep = i.asleep;
      count = i.count;
      fits = i.fits;
      few = i.few;
      is_send = i.is_send;
      reserved = i.reserved;
      recv_asleep = i.recv_asleep;
      is_recv =
          let same : (a.senders == 0) ≡ (n == 0) = ground arith in
          i.is_recv ∙ ap (recv_word (is_there a.content) i.recv_asleep) same;
      is_senders = refl;
      senders_fit = fits;
      is_content = i.is_content;
    }

    -- While there are senders, and at most half of `u32::MAX`, a clone leaves a memory that stands
    -- for the slot with one sender more.
    pub clone_sender_lem :
        0 < a.senders
        → a.senders ≤ u32_max / 2
        → (s' : Shared T) × (run clone_sender s ≡ done tt s')
          × Implements x86 calls (record a { senders = a.senders + 1 }) s'
    unfolding run
    clone_sender_lem pos few =
        let e : (s.word Loc.num_senders + 1) % 2 ^ 32 ≡ a.senders + 1 =
          omega (arith, i.is_senders) in
        let room : ltb (u32_max / 2) (s.word Loc.num_senders) ≡ false =
          ground (arith, i.is_senders) in
        (
          with_senders (a.senders + 1),
          run-clone_sender s ∙ run-chosen s _ _ _ _ abort (ret tt) e room,
          with_senders-Implements (a.senders + 1) (omega arith) pos (omega arith),
        )

    -- The memory when the last sender is gone.
    abbrev last_gone : Shared T
    last_gone =
        woken (contains (s.word Loc.recv) recv_sleeping) Loc.recv u32_max
          (set_word (with_senders 0) Loc.recv (bit_or (s.word Loc.recv) sender_dead))

    last_gone-Implements : Implements x86 calls (record a { senders = 0 }) last_gone
    last_gone-Implements =
        let b : Bool = contains (s.word Loc.recv) recv_sleeping in
        let m : Shared T =
          set_word (with_senders 0) Loc.recv (bit_or (s.word Loc.recv) sender_dead) in
        record {
          asleep = i.asleep;
          count = i.count;
          fits = i.fits;
          few = i.few;
          is_send = woken-word b Loc.recv u32_max m Loc.send ∙ i.is_send;
          reserved = i.reserved;
          recv_asleep = i.recv_asleep;
          is_recv =
              woken-word b Loc.recv u32_max m Loc.recv
              ∙ ap (λ w. bit_or w sender_dead) i.is_recv
              ∙ or-sender_dead (is_there a.content) i.recv_asleep (a.senders == 0);
          is_senders = woken-word b Loc.recv u32_max m Loc.num_senders;
          senders_fit = omega arith;
          is_content = woken-cell b Loc.recv u32_max m slot ∙ i.is_content;
        }

    -- The drop of one of the senders leaves a memory that stands for the slot with one less, also
    -- if it is the last; a message stays.
    pub drop_sender_lem :
        0 < a.senders
        → (s' : Shared T) × (run drop_sender s ≡ done tt s')
          × Implements x86 calls (record a { senders = a.senders - 1 }) s'
    unfolding run
    drop_sender_lem pos =
        let e : (s.word Loc.num_senders + 2 ^ 32 - 1) % 2 ^ 32 ≡ a.senders - 1 =
          omega (arith, i.is_senders, i.senders_fit) in
        elim (dec_lt 1 a.senders) [
          | yes more ↦
              let many : ltb 1 (s.word Loc.num_senders) ≡ true = ground (arith, i.is_senders) in
              (
                with_senders (a.senders - 1),
                run-drop_sender s ∙ run-chosen s _ _ _ _ (ret tt) last_drop e many,
                with_senders-Implements (a.senders - 1) (omega arith) pos
                    (omega (arith, i.senders_fit)),
              )
          | no one ↦
              let few : ltb 1 (s.word Loc.num_senders) ≡ false = ground (arith, i.is_senders) in
              let none_left : a.senders - 1 ≡ 0 = omega arith in
              (
                last_gone,
                run-drop_sender s
                    ∙ run-chosen s _ 0 _ _ (ret tt) last_drop (e ∙ none_left) few
                    ∙ run-wake (contains (s.word Loc.recv) recv_sleeping) Loc.recv u32_max _,
                rw none_left last_gone-Implements,
              )
        ]
