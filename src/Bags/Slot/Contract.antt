-- ===== src/Bags/Slot/Contract.antt =====
-- What bags/src/slot.rs promises of a slot, operation by operation, and which memories stand for
-- which slot.
pub mod Sending
pub mod Receiving
pub mod Life
pub mod Drops
pub mod Calls
pub mod History
use lockness.Prelude.{
  ℕ, suc, ◌+◌, ◌-◌, ◌^◌, ◌≤◌, ◌<◌, ◌≡◌, Bool, true, false, ◌==◌, Option, none, some, if◌then◌else◌,
}
use lockness.Machine.Program.{Loc, Shared}
use lockness.Bags.Slot.Status.{slot}
use lockness.Bags.Slot.Status.Flags.{room, send_word, recv_word}
use lockness.Bags.Slot.Sender.{TrySend}
use lockness.Bags.Slot.Receiver.{TryRecv}

-- The message, the number of senders, and whether the receiver is gone.
pub record Slot (T : Type 0) : Type 0 where
  pub content : Option T
  pub senders : ℕ
  pub receiver_gone : Bool

abbrev pub is_there : {T : Type 0} → Option T → Bool
is_there none = false
is_there (some v) = true

module _ {T : Type 0} where
  -- A message goes into an empty slot whose receiver is there.
  abbrev pub offer : Option T → T → TrySend T
  offer none v = TrySend.sent
  offer (some u) v = TrySend.full v

  abbrev pub kept : Option T → T → Option T
  kept none v = some v
  kept (some u) v = some u

  abbrev pub send_result : Slot T → T → TrySend T
  send_result a v = if a.receiver_gone then TrySend.disconnected v else offer a.content v

  abbrev pub after_send : Slot T → T → Slot T
  after_send a v = record a { content = if a.receiver_gone then a.content else kept a.content v }

  -- The message comes out, also when the senders are gone.
  abbrev pub answer : Option T → Bool → TryRecv T
  answer none dead = if dead then TryRecv.disconnected else TryRecv.empty
  answer (some v) dead = TryRecv.received v

  abbrev pub recv_result : Slot T → TryRecv T
  recv_result a = answer a.content (a.senders == 0)

  abbrev pub after_recv : Slot T → Slot T
  after_recv a = record a { content = none }

-- The memory between two calls; `calls` bounds the reservations since the slot was last emptied.
pub record Implements {T : Type 0} (x86 : Bool) (calls : ℕ) (a : Slot T) (s : Shared T)
    : Type 0 where
  pub asleep : Bool
  pub count : ℕ
  pub fits : count < 2 ^ room x86
  pub few : x86 ≡ true → count ≤ calls
  pub is_send : s.word Loc.send ≡ send_word x86 a.receiver_gone asleep count
  -- A slot is reserved as long as it is full; what a gone receiver has left is nobody's.
  pub reserved :
      a.receiver_gone ≡ false → (count == 0) ≡ (if is_there a.content then false else true)
  pub recv_asleep : Bool
  pub is_recv : s.word Loc.recv ≡ recv_word (is_there a.content) recv_asleep (a.senders == 0)
  pub is_senders : s.word Loc.num_senders ≡ a.senders
  pub senders_fit : a.senders < 2 ^ 32
  pub is_content : s.cell slot ≡ a.content
