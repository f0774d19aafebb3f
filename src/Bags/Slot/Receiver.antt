-- ===== src/Bags/Slot/Receiver.antt =====
-- The receiving half of bags/src/slot.rs. `fuel` bounds the rounds of the loop of `recv`.
use lockness.Prelude.{ℕ, zero, suc, ◌+◌, Bool, not, ◌==◌, ltb, if◌then◌else◌}
use lockness.Machine.Program.{Loc, Prog, ret, read, out_of_fuel, ◌>>=◌, ◌>>◌}
use lockness.Machine.Access.{load, swap, fetch_or, fetch_and, wake_if, atomic_sleep}
use lockness.Bags.Mpmc.Status.{contains}
use lockness.Bags.Slot.Status.{send_sleeping, committed, recv_sleeping, sender_dead, slot}

-- `Result<T, TryRecvError>` and `Result<T, RecvError>`.
pub data TryRecv (T : Type 0) : Type 0 where
  received : T → TryRecv T
  disconnected empty : TryRecv T

pub data Recv (T : Type 0) : Type 0 where
  received : T → Recv T
  disconnected : Recv T

module _ {T : Type 0} where
  -- Takes the message out, and lets the senders in again.
  unfoldable pub take_message : Bool → Prog T (TryRecv T)
  unfolding ◌>>=◌ ◌>>◌ contains
  take_message x86 = fetch_and Loc.recv sender_dead >>= λ _. read slot λ value.
      swap Loc.send 0 >>= λ prev.
      wake_if (contains prev (send_sleeping x86)) Loc.send 1 >> ret (TryRecv.received value)

  -- What `try_recv` does with the value of `recv`.
  unfoldable pub after_load : Bool → ℕ → Prog T (TryRecv T)
  unfolding take_message contains
  after_load x86 recv =
      if not (contains recv committed)
      then (if contains recv sender_dead then ret TryRecv.disconnected else ret TryRecv.empty)
      else take_message x86

  unfoldable pub try_recv : Bool → Prog T (TryRecv T)
  unfolding ◌>>=◌ after_load
  try_recv x86 = load Loc.recv >>= after_load x86

  -- After 32 empty rounds the receiver sleeps; `again` is the next round, from a count.
  unfoldable pub pause : (ℕ → Prog T (Recv T)) → ℕ → Prog T (Recv T)
  unfolding ◌>>=◌ ◌>>◌
  pause again i =
      if ltb i 32
      then again (i + 1)
      else (fetch_or Loc.recv recv_sleeping >>= λ prev.
          if not (prev == 0) then again 0 else (atomic_sleep Loc.recv recv_sleeping >> again 0))

  unfoldable pub after_try_recv : (ℕ → Prog T (Recv T)) → ℕ → TryRecv T → Prog T (Recv T)
  unfolding pause
  after_try_recv again i (TryRecv.received v) = ret (Recv.received v)
  after_try_recv again i TryRecv.disconnected = ret Recv.disconnected
  after_try_recv again i TryRecv.empty = pause again i

  -- `i` counts the empty rounds since the last sleep; a call starts at 0.
  unfoldable pub recv : ℕ → Bool → ℕ → Prog T (Recv T)
  unfolding ◌>>=◌ try_recv after_try_recv
  recv zero x86 i = out_of_fuel
  recv (suc fuel) x86 i = try_recv x86 >>= after_try_recv (λ j. recv fuel x86 j) i
