-- ===== src/Tests/SlotRuns.antt =====
-- Runs of two threads over a slot of bags/src/slot.rs.
use lockness.Prelude.{ℕ, zero, suc, ◌≤◌, ◌≡◌, ◌≢◌, refl, true, false, some, none, [], ◌∷◌, arith}
use lockness.Machine.Program.{Prog, ret, ◌>>=◌, ◌>>◌}
use lockness.Machine.Threads.{access}
use lockness.Bags.Mpmc.Status.{contains}
use lockness.Bags.Slot.Status.{reservations}
use lockness.Bags.Slot.Handles.{mpsc}
use lockness.Bags.Slot.Sender.{try_send, reserve, after_reserve, fill}
use lockness.Bags.Slot.Receiver.{try_recv, after_load, take_message}
use lockness.Bags.Slot.System.Clients.{IsClient}
use lockness.Bags.Slot.System.Invariant.{AreClients}
use lockness.Tests.Schedule.{Run, run_all}

-- Thread 0 receives twice, thread 1 sends 7 and then 8, and there are no others.
unfoldable pub pair : ℕ → Prog ℕ (Unit {0})
unfolding ◌>>=◌ ◌>>◌ try_send reserve after_reserve fill try_recv after_load take_message contains
    reservations
pair zero = try_recv true >>= λ _. try_recv true >>= λ _. ret tt
pair (suc zero) = try_send true 7 >>= λ _. try_send true 8 >>= λ _. ret tt
pair (suc (suc t)) = ret tt

pub pair-AreClients : AreClients true 2 pair
unfolding pair
pair-AreClients = record {
  receiver =
      IsClient.try_recv (λ _. try_recv true >>= λ _. ret tt)
        (λ _. IsClient.try_recv (λ _. ret tt) (λ _. IsClient.stop));
  senders = sender;
  ended = ended;
  few = omega arith;
}
  where
    sender : (t : ℕ) → t ≢ 0 → IsClient true false (pair t)
    sender zero ne = absurd (ne refl)
    sender (suc zero) ne =
        IsClient.try_send 7 (λ _. try_send true 8 >>= λ _. ret tt)
          (λ _. IsClient.try_send 8 (λ _. ret tt) (λ _. IsClient.stop))
    sender (suc (suc t)) ne = IsClient.stop

    ended : (t : ℕ) → 2 ≤ t → pair t ≡ ret tt
    ended zero le = absurd (omega arith)
    ended (suc zero) le = absurd (omega arith)
    ended (suc (suc t)) le = refl

-- The first message is taken, and the sender is about to fill the slot again.
abbrev pub filling : Run ℕ mpsc pair
filling = run_all ℕ mpsc pair (1 ∷ 1 ∷ 1 ∷ 0 ∷ 0 ∷ 0 ∷ 0 ∷ 1 ∷ [])

-- Both messages are written, and the second is in the slot.
abbrev pub refilled : Run ℕ mpsc pair
refilled = run_all ℕ mpsc pair (1 ∷ 1 ∷ 1 ∷ 0 ∷ 0 ∷ 0 ∷ 0 ∷ 1 ∷ 1 ∷ [])

filling_state :
    (access (filling.last.thread 1) ≡ some 0)
    × (filling.last.mem.cell 0 ≡ none)
    × (filling.last.taken ≡ 7 ∷ [])
unfolding run_all pair mpsc
filling_state = (refl, refl, refl)

refilled_state :
    (refilled.last.written ≡ 8 ∷ 7 ∷ [])
    × (refilled.last.mem.cell 0 ≡ some 8)
    × (refilled.last.taken ≡ 7 ∷ [])
unfolding run_all pair mpsc
refilled_state = (refl, refl, refl)
