-- ===== src/Bags/Slot/Contract/Calls.antt =====
-- Calls of the handles of bags/src/slot.rs, one after the other, and what a slot promises of them.
use lockness.Prelude.{◌+◌, ◌-◌, ◌/◌, ◌≤◌, ◌<◌, ◌≡◌, Bool, true, false, none, List, [], ◌∷◌}
use lockness.Machine.Program.{Prog, ret, ◌>>=◌}
use lockness.Bags.Mpmc.Status.{u32_max}
use lockness.Bags.Slot.Sender.{TrySend, try_send}
use lockness.Bags.Slot.Receiver.{TryRecv, try_recv}
use lockness.Bags.Slot.Handles.{clone_sender, drop_sender, drop_receiver, drop_inner}
use lockness.Bags.Slot.Contract.{Slot, send_result, after_send, recv_result, after_recv}

-- A call of one of the handles.
pub data Call (T : Type 0) : Type 0 where
  sending : T → Call T
  receiving cloning sender_dropped receiver_dropped : Call T

pub data Answer (T : Type 0) : Type 0 where
  of_send : TrySend T → Answer T
  of_recv : TryRecv T → Answer T
  no_answer : Answer T

module _ {T : Type 0} where
  unfoldable pub perform : Bool → Call T → Prog T (Answer T)
  unfolding ◌>>=◌
  perform x86 (sending v) = try_send x86 v >>= λ r. ret (of_send r)
  perform x86 receiving = try_recv x86 >>= λ r. ret (of_recv r)
  perform x86 cloning = clone_sender >>= λ _. ret no_answer
  perform x86 sender_dropped = drop_sender >>= λ _. ret no_answer
  perform x86 receiver_dropped = drop_receiver x86 >>= λ _. ret no_answer

  -- The answers to some calls, and what the drop of the slot after them drops.
  unfoldable pub life : Bool → List (Call T) → Prog T (List (Answer T) × List T)
  unfolding ◌>>=◌ perform
  life x86 [] = drop_inner >>= λ rest. ret ([], rest)
  life x86 (c ∷ cs) = perform x86 c >>= λ r. (life x86 cs >>= λ rest. ret (r ∷ rest.0, rest.1))

  -- Only a handle that is there can be called; `clone` aborts at too many senders.
  abbrev pub IsAllowed : Slot T → Call T → Type 0
  IsAllowed a (sending v) = 0 < a.senders
  IsAllowed a receiving = a.receiver_gone ≡ false
  IsAllowed a cloning = (0 < a.senders) × (a.senders ≤ u32_max / 2)
  IsAllowed a sender_dropped = 0 < a.senders
  IsAllowed a receiver_dropped = a.receiver_gone ≡ false

  abbrev pub answer_to : Slot T → Call T → Answer T
  answer_to a (sending v) = of_send (send_result a v)
  answer_to a receiving = of_recv (recv_result a)
  answer_to a _ = no_answer

  abbrev pub after_call : Slot T → Call T → Slot T
  after_call a (sending v) = after_send a v
  after_call a receiving = after_recv a
  after_call a cloning = record a { senders = a.senders + 1 }
  after_call a sender_dropped = record a { senders = a.senders - 1 }
  after_call a receiver_dropped = record a { receiver_gone = true }

  abbrev pub AreAllowed : Slot T → List (Call T) → Type 0
  AreAllowed a [] = Unit
  AreAllowed a (c ∷ cs) = IsAllowed a c × AreAllowed (after_call a c) cs

  abbrev pub answers : Slot T → List (Call T) → List (Answer T)
  answers a [] = []
  answers a (c ∷ cs) = answer_to a c ∷ answers (after_call a c) cs

  abbrev pub after_calls : Slot T → List (Call T) → Slot T
  after_calls a [] = a
  after_calls a (c ∷ cs) = after_calls (after_call a c) cs

  -- The messages that went in, and those that came out.
  abbrev pub accepted_with : Call T → Answer T → List T → List T
  accepted_with (sending v) (of_send TrySend.sent) vs = v ∷ vs
  accepted_with _ _ vs = vs

  abbrev pub accepted : List (Call T) → List (Answer T) → List T
  accepted (c ∷ cs) (r ∷ rs) = accepted_with c r (accepted cs rs)
  accepted _ _ = []

  abbrev pub taken : List (Answer T) → List T
  taken [] = []
  taken (of_recv (TryRecv.received v) ∷ rs) = v ∷ taken rs
  taken (_ ∷ rs) = taken rs

  abbrev pub new_slot : Slot T
  new_slot = record { content = none; senders = 1; receiver_gone = false }
