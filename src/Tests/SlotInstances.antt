-- ===== src/Tests/SlotInstances.antt =====
-- The theorems about bags/src/slot.rs at concrete inputs.
use lockness.Prelude.{ℕ, ◌≡◌, refl, Bool, true, false, none, some, [], ◌∷◌, ◌++◌, List, arith}
use lockness.Machine.Program.{Loc, Shared}
use lockness.Machine.Sequential.{done, asleep, exhausted, run}
use lockness.Bags.Slot.Sender.{TrySend, try_send}
use lockness.Bags.Slot.Receiver.{TryRecv, try_recv, recv}
use lockness.Bags.Slot.Handles.{mpsc}
use lockness.Bags.Slot.Status.Flags.{send_word}
use lockness.Bags.Slot.Contract.{Slot, Implements}
use lockness.Bags.Slot.Contract.Sending.{try_send_lem}
use lockness.Bags.Slot.Contract.Receiving.{try_recv_lem}
use lockness.Bags.Slot.Contract.Calls.{
  Call, sending, receiving, cloning, sender_dropped, receiver_dropped, of_send, of_recv, no_answer,
  life, answers, accepted, taken, new_slot,
}
use lockness.Bags.Slot.Contract.History.{slot_life}
use lockness.Bags.Slot.Contract.Life.{mpsc_lem}
use lockness.Machine.Threads.{IsDefined, left_over}
use lockness.Bags.Slot.Status.{slot}
use lockness.Bags.Slot.System.Safety.{slot-IsDefined, one_at_slot}
use lockness.Bags.Slot.System.Order.{slot_order}
use lockness.Tests.Schedule.{run_all}
use lockness.Tests.SlotRuns.{pair, pair-AreClients, filling, refilled}
use lockness.Bags.Slot.Waiting.{IsIdle, recv_sleeps, recv_spins}

abbrev fresh : Slot ℕ
fresh = record { content = none; senders = 1; receiver_gone = false }

abbrev holding : Slot ℕ
holding = record { content = some 7; senders = 1; receiver_gone = false }

-- The words of a slot with a message; nobody sleeps.
abbrev held_word : Loc → ℕ
held_word Loc.send = 1
held_word Loc.recv = 1
held_word Loc.num_senders = 1
held_word Loc.num_receivers = 0

abbrev held : Shared ℕ
held = record { word = held_word; cell = λ i. some 7; wakes = [] }

held-Implements : (x86 : Bool) → Implements x86 1 holding held
held-Implements x86 = record {
  asleep = false;
  count = 1;
  fits = ground arith;
  few = λ e. omega arith;
  is_send = elim x86 as (λ b. 1 ≡ send_word b false false 1) [ true ↦ refl | false ↦ refl ];
  reserved = λ e. refl;
  recv_asleep = false;
  is_recv = refl;
  is_senders = refl;
  senders_fit = omega arith;
  is_content = refl;
}

-- Two sends, of which the second finds the slot full; a receive, a clone and a third send; then all
-- handles are dropped.
abbrev some_calls : List (Call ℕ)
some_calls =
    sending 7
    ∷ sending 8
    ∷ receiving
    ∷ cloning
    ∷ sending 9
    ∷ sender_dropped
    ∷ sender_dropped
    ∷ receiver_dropped
    ∷ []

slot_life_example :
    (rest : List ℕ) × (s : Shared ℕ) × (run (life true some_calls) mpsc
      ≡ done (answers new_slot some_calls, rest) s)
    × (accepted some_calls (answers new_slot some_calls)
        ≡ taken (answers new_slot some_calls) ++ rest)
slot_life_example =
    slot_life true some_calls
      (
        omega arith,
        (
          omega arith,
          (
            refl,
            ((omega arith, omega arith), (omega arith, (omega arith, (omega arith, (refl, tt))))),
          ),
        ),
      )
      (omega arith)

some_answers :
    (answers new_slot some_calls
      ≡ of_send TrySend.sent
        ∷ of_send (TrySend.full 8)
        ∷ of_recv (TryRecv.received 7)
        ∷ no_answer
        ∷ of_send TrySend.sent
        ∷ no_answer
        ∷ no_answer
        ∷ no_answer
        ∷ [])
    × (accepted some_calls (answers new_slot some_calls) ≡ 7 ∷ 9 ∷ [])
some_answers = (refl, refl)

try_send_lem_example :
    (s : Shared ℕ) × (run (try_send true 7) mpsc ≡ done TrySend.sent s)
    × Implements true 1 holding s
try_send_lem_example = try_send_lem true 0 fresh 7 mpsc (mpsc_lem true) (omega arith) (omega arith)

try_recv_lem_example :
    (s : Shared ℕ) × (run (try_recv false) held ≡ done (TryRecv.received 7) s)
    × Implements false 0 fresh s
try_recv_lem_example = try_recv_lem false 1 holding held (held-Implements false) refl

recv_sleeps_example :
    (s : Shared ℕ) × (run (recv 40 true 0) mpsc ≡ asleep s) × IsIdle {T = ℕ} true true s
unfolding mpsc
recv_sleeps_example = recv_sleeps true 40 mpsc (omega arith) refl

-- The receiver has been woken without a message.
abbrev woken_word : Loc → ℕ
woken_word Loc.send = 0
woken_word Loc.recv = 2
woken_word Loc.num_senders = 1
woken_word Loc.num_receivers = 0

abbrev woken_idle : Shared ℕ
woken_idle = record { word = woken_word; cell = λ i. none; wakes = [] }

recv_spins_example : run (recv {T = ℕ} 1000 true 0) woken_idle ≡ exhausted
recv_spins_example = recv_spins true 1000 0 woken_idle refl

slot-IsDefined_example : IsDefined filling.last.mem (filling.last.thread 1)
slot-IsDefined_example = slot-IsDefined pair-AreClients filling.reach 1

one_at_slot_example : (◌≡◌ {A = ℕ} 1 1) × (◌≡◌ {A = ℕ} 0 slot)
unfolding run_all pair mpsc
one_at_slot_example = one_at_slot pair-AreClients filling.reach 1 1 0 0 refl refl

slot_order_example :
    refilled.last.written ≡ left_over (refilled.last.mem.cell slot) ++ refilled.last.taken
slot_order_example = slot_order pair-AreClients refilled.reach
