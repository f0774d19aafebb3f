-- ===== src/Bags/Slot/Contract/Sending.antt =====
-- `Sender::try_send` of bags/src/slot.rs against the contract.
use lockness.Prelude.{
  ◌^◌, ℕ, suc, ◌≤◌, ◌<◌, ◌≡◌, refl, ap, ◌∙◌, Bool, true, false, ◌&&◌, ltb, Option, none, some,
  if◌then◌else◌, arith, inl, inr, ◌⊎◌,
}
use lockness.Machine.Program.{Loc, ret, ◌>>=◌, Shared, set_word, set_cell}
use lockness.Machine.Sequential.{done, run}
use lockness.Machine.Waking.{woken, woken-word, woken-cell, run-wake_if}
use lockness.Bags.Mpmc.Status.{contains}
use lockness.Bags.Slot.Status.{
  receiver_dead, reservations, abort_limit, committed, recv_sleeping, slot,
}
use lockness.Bags.Slot.Status.Flags.{
  abort_limit-eq, send_word, reservations-send_word, contains-receiver_dead, reserved, next_count,
  reserved-send_word, next_count-lt, next_count-pos,
}
use lockness.Bags.Slot.Sender.{TrySend, reserve, fill, after_reserve, try_send}
use lockness.Bags.Slot.Contract.{Slot, is_there, offer, kept, send_result, after_send, Implements}

module _ {T : Type 0} where
  abbrev filled : T → Shared T → Shared T
  filled v s =
      woken (contains (s.word Loc.recv) recv_sleeping) Loc.recv 1
        (set_word (set_cell s slot (some v)) Loc.recv committed)

  run-fill : (v : T) (s : Shared T) → run (fill v) s ≡ done TrySend.sent (filled v s)
  unfolding run fill ◌>>=◌
  run-fill v s = run-wake_if (contains (s.word Loc.recv) recv_sleeping) Loc.recv 1 TrySend.sent _

  run-try_send :
      (x86 : Bool) (v : T) (s : Shared T)
      → run (try_send x86 v) s
        ≡ run
            (after_reserve x86 v (s.word Loc.send))
            (set_word s Loc.send (reserved x86 (s.word Loc.send)))
  unfolding run try_send reserve ◌>>=◌
  run-try_send true v s = refl
  run-try_send false v s = refl

  module _ (x86 : Bool) (calls : ℕ) (a : Slot T) (v : T) (s : Shared T)
      (i : Implements x86 calls a s) (small : calls ≤ abort_limit) where
    few_enough : x86 ≡ true → i.count ≤ abort_limit
    few_enough e = omega (arith, i.few e)

    room_left : x86 ≡ true → suc i.count < 2 ^ 62
    room_left e = omega (arith, few_enough e, abort_limit-eq)

    counted : reservations x86 (s.word Loc.send) ≡ i.count
    counted =
        ap (reservations x86) i.is_send
        ∙ reservations-send_word x86 a.receiver_gone i.asleep i.count i.fits

    gone : contains (s.word Loc.send) (receiver_dead x86) ≡ a.receiver_gone
    gone =
        ap (λ w. contains w (receiver_dead x86)) i.is_send
        ∙ contains-receiver_dead x86 a.receiver_gone i.asleep i.count i.fits

    no_abort : (x86 && ltb abort_limit i.count) ≡ false
    no_abort = ground (arith, few_enough)

    after_reserve_lem : after_reserve x86 v (s.word Loc.send) ≡ (
        if a.receiver_gone
        then ret (TrySend.disconnected v)
        else if ltb 0 i.count
        then ret (TrySend.full v)
        else fill v)
    unfolding after_reserve
    after_reserve_lem = rw (counted, no_abort, gone) refl

    -- The memory after the reservation.
    abbrev counted_up : Shared T
    counted_up = set_word s Loc.send (reserved x86 (s.word Loc.send))

    send_up :
        reserved x86 (s.word Loc.send)
        ≡ send_word x86 a.receiver_gone i.asleep (next_count x86 i.count)
    send_up =
        ap (reserved x86) i.is_send
        ∙ reserved-send_word x86 a.receiver_gone i.asleep i.count i.fits room_left

    few_up : x86 ≡ true → next_count x86 i.count ≤ suc calls
    few_up e = rw e (omega (arith, i.few e))

    run_lem :
        run (try_send x86 v) s
        ≡ run
            (if a.receiver_gone
              then ret (TrySend.disconnected v)
              else if ltb 0 i.count
              then ret (TrySend.full v)
              else fill v)
            counted_up
    run_lem = run-try_send x86 v s ∙ ap (λ p. run p counted_up) after_reserve_lem

    -- The reservation of a full slot, or of one without a receiver, changes nothing.
    unchanged :
        (is_there a.content ≡ true) ⊎ (a.receiver_gone ≡ true)
        → Implements x86 (suc calls) a counted_up
    unchanged c = record {
      asleep = i.asleep;
      count = next_count x86 i.count;
      fits = next_count-lt x86 i.count i.fits room_left;
      few = few_up;
      is_send = send_up;
      reserved = λ e. ground (arith, next_count-pos x86 i.count);
      recv_asleep = i.recv_asleep;
      is_recv = i.is_recv;
      is_senders = i.is_senders;
      senders_fit = i.senders_fit;
      is_content = i.is_content;
    }

  free-Implements :
      (x86 : Bool) (calls : ℕ) (n : ℕ) (v : T) (s : Shared T)
      (i : Implements x86 calls (record { content = none; senders = n; receiver_gone = false }) s)
      (small : calls ≤ abort_limit)
      → 0 < n
      → Implements x86
          (suc calls)
          (record { content = some v; senders = n; receiver_gone = false })
          (filled v (counted_up x86 calls _ v s i small))
  free-Implements x86 calls n v s i small alive =
      let b : Bool = contains (s.word Loc.recv) recv_sleeping in
      let m : Shared T =
        set_word (set_cell (counted_up x86 calls _ v s i small) slot (some v)) Loc.recv committed in
      record {
        asleep = i.asleep;
        count = next_count x86 i.count;
        fits = next_count-lt x86 i.count i.fits (room_left x86 calls _ v s i small);
        few = few_up x86 calls _ v s i small;
        is_send = woken-word b Loc.recv 1 m Loc.send ∙ send_up x86 calls _ v s i small;
        reserved = λ e. ground (arith, next_count-pos x86 i.count);
        recv_asleep = false;
        is_recv = woken-word b Loc.recv 1 m Loc.recv ∙ ground arith;
        is_senders = woken-word b Loc.recv 1 m Loc.num_senders ∙ i.is_senders;
        senders_fit = i.senders_fit;
        is_content = woken-cell b Loc.recv 1 m slot;
      }

  try_send_cases :
      (x86 : Bool) (calls : ℕ) (o : Option T) (n : ℕ) (g : Bool) (v : T) (s : Shared T)
      → Implements x86 calls (record { content = o; senders = n; receiver_gone = g }) s
      → calls ≤ abort_limit
      → 0 < n
      → (s' : Shared T) × (run (try_send x86 v) s
          ≡ done (if g then TrySend.disconnected v else offer o v) s')
        × Implements x86
            (suc calls)
            (record { content = if g then o else kept o v; senders = n; receiver_gone = g })
            s'
  unfolding run
  try_send_cases x86 calls o n true v s i small alive = (
    counted_up x86 calls _ v s i small,
    run_lem x86 calls _ v s i small,
    unchanged x86 calls _ v s i small (inr refl),
  )
  try_send_cases x86 calls (some u) n false v s i small alive = (
    counted_up x86 calls _ v s i small,
    run_lem x86 calls _ v s i small
        ∙ (let pos : ltb 0 i.count ≡ true = ground (arith, i.reserved refl) in rw pos refl),
    unchanged x86 calls _ v s i small (inl refl),
  )
  try_send_cases x86 calls none n false v s i small alive = (
    filled v (counted_up x86 calls _ v s i small),
    run_lem x86 calls _ v s i small
        ∙ (let none_yet : ltb 0 i.count ≡ false = ground (arith, i.reserved refl) in
            rw none_yet (run-fill v _)),
    free-Implements x86 calls n v s i small alive,
  )

  -- On a memory that stands for a slot with a sender, with at most as many reservations as do not
  -- abort, `try_send` returns what the slot promises and leaves a memory that stands for what it
  -- promises, with at most one reservation more.
  pub try_send_lem :
      (x86 : Bool) (calls : ℕ) (a : Slot T) (v : T) (s : Shared T)
      → Implements x86 calls a s
      → calls ≤ abort_limit
      → 0 < a.senders
      → (s' : Shared T) × (run (try_send x86 v) s ≡ done (send_result a v) s')
        × Implements x86 (suc calls) (after_send a v) s'
  try_send_lem x86 calls a v s i small alive =
      try_send_cases x86 calls a.content a.senders a.receiver_gone v s i small alive
