-- ===== src/Tests/SlotNights.antt =====
-- Runs in which threads sleep on a slot of bags/src/slot.rs.
use lockness.Prelude.{ℕ, zero, suc, ◌≤◌, ◌≡◌, ◌≢◌, refl, true, false, [], ◌∷◌, arith}
use lockness.Machine.Program.{Loc, Prog, ret, ◌>>=◌, ◌>>◌}
use lockness.Machine.Futex.{IsAsleepOn}
use lockness.Bags.Mpmc.Status.{contains}
use lockness.Bags.Slot.Status.{reservations, receiver_dead}
use lockness.Bags.Slot.Handles.{mpsc, drop_receiver}
use lockness.Bags.Slot.Sender.{
  send, try_send, reserve, after_reserve, fill, check_send, spin_send, after_spin_send,
  after_try_send,
}
use lockness.Bags.Slot.Receiver.{try_recv, after_load, take_message, recv, after_try_recv, pause}
use lockness.Bags.Slot.System.Clients.{IsClient}
use lockness.Bags.Slot.System.Invariant.{AreClients}
use lockness.Tests.Dozing.{Night, run_night, times}

-- Thread 0 receives once and drops the receiver; thread 1 fills the slot, and then it and thread 2
-- wait for room.
unfoldable pub trio : ℕ → Prog ℕ (Unit {0})
unfolding ◌>>=◌ ◌>>◌ contains reservations drop_receiver send try_send reserve after_reserve fill
    check_send spin_send after_spin_send after_try_send try_recv after_load take_message
trio zero = try_recv true >>= λ _. drop_receiver true >>= λ _. ret tt
trio (suc zero) = try_send true 7 >>= λ _. send 3 true 8 >>= λ _. ret tt
trio (suc (suc zero)) = send 3 true 9 >>= λ _. ret tt
trio (suc (suc (suc t))) = ret tt

pub trio-AreClients : AreClients true 3 trio
unfolding trio
trio-AreClients = record {
  receiver =
      IsClient.try_recv (λ _. drop_receiver true >>= λ _. ret tt)
        (λ _. IsClient.drop_receiver (λ _. ret tt) IsClient.stop);
  senders = sender;
  ended = ended;
  few = omega arith;
}
  where
    sender : (t : ℕ) → t ≢ 0 → IsClient true false (trio t)
    sender zero ne = absurd (ne refl)
    sender (suc zero) ne =
        IsClient.try_send 7 (λ _. send 3 true 8 >>= λ _. ret tt)
          (λ _. IsClient.send 3 8 (λ _. ret tt) (λ _. IsClient.stop))
    sender (suc (suc zero)) ne = IsClient.send 3 9 (λ _. ret tt) (λ _. IsClient.stop)
    sender (suc (suc (suc t))) ne = IsClient.stop

    ended : (t : ℕ) → 3 ≤ t → trio t ≡ ret tt
    ended zero le = absurd (omega arith)
    ended (suc zero) le = absurd (omega arith)
    ended (suc (suc zero)) le = absurd (omega arith)
    ended (suc (suc (suc t))) le = refl

-- Threads 1 and 2 are asleep.
abbrev pub waiting : Night ℕ mpsc trio
waiting = run_night ℕ mpsc trio (times 38 1 (times 36 2 []))

pub waiting_state : IsAsleepOn waiting.last Loc.send 1 × IsAsleepOn waiting.last Loc.send 2
unfolding run_night times trio mpsc
waiting_state = ((refl, refl), (refl, refl))

-- The receiver takes the message and wakes thread 1, and is dropped before that thread has set the
-- flag SLEEPING again.
abbrev pub dropped : Night ℕ mpsc trio
dropped =
    run_night ℕ mpsc trio
      (times 38 1 (times 36 2 (times 4 0 ((0, 1 ∷ []) ∷ times 1 0 (times 3 1 [])))))

-- All threads have ended but thread 2, which sleeps with the receiver gone.
lost_wake :
    (dropped.last.state.thread 0 ≡ ret tt)
    × (dropped.last.state.thread 1 ≡ ret tt)
    × IsAsleepOn dropped.last Loc.send 2
    × (contains (dropped.last.state.mem.word Loc.send) (receiver_dead true) ≡ true)
unfolding run_night times trio mpsc
lost_wake = (refl, refl, (refl, refl), refl)

-- Thread 0 waits for a message of thread 1, and thread 2 for room.
unfoldable pub guests : ℕ → Prog ℕ (Unit {0})
unfolding ◌>>=◌ ◌>>◌ contains reservations send try_send reserve after_reserve fill check_send
    spin_send after_spin_send after_try_send recv after_try_recv pause try_recv after_load
    take_message
guests zero = recv 40 true 0 >>= λ _. ret tt
guests (suc zero) = try_send true 7 >>= λ _. ret tt
guests (suc (suc zero)) = send 3 true 8 >>= λ _. ret tt
guests (suc (suc (suc t))) = ret tt

pub guests-AreClients : AreClients true 3 guests
unfolding guests
guests-AreClients = record {
  receiver = IsClient.recv 40 (λ _. ret tt) (λ _. IsClient.stop);
  senders = sender;
  ended = ended;
  few = omega arith;
}
  where
    sender : (t : ℕ) → t ≢ 0 → IsClient true false (guests t)
    sender zero ne = absurd (ne refl)
    sender (suc zero) ne = IsClient.try_send 7 (λ _. ret tt) (λ _. IsClient.stop)
    sender (suc (suc zero)) ne = IsClient.send 3 8 (λ _. ret tt) (λ _. IsClient.stop)
    sender (suc (suc (suc t))) ne = IsClient.stop

    ended : (t : ℕ) → 3 ≤ t → guests t ≡ ret tt
    ended zero le = absurd (omega arith)
    ended (suc zero) le = absurd (omega arith)
    ended (suc (suc zero)) le = absurd (omega arith)
    ended (suc (suc (suc t))) le = refl

-- Threads 0 and 2 sleep, and thread 1 is about to commit the message.
abbrev pub both_wait : Night ℕ mpsc guests
both_wait = run_night ℕ mpsc guests (times 40 0 (times 2 1 (times 36 2 [])))

pub both_wait_state : IsAsleepOn both_wait.last Loc.recv 0 × IsAsleepOn both_wait.last Loc.send 2
unfolding run_night times guests mpsc
both_wait_state = ((refl, refl), (refl, refl))

-- The message is there, and thread 1 is about to wake the receiver.
abbrev pub about_to_wake : Night ℕ mpsc guests
about_to_wake = run_night ℕ mpsc guests (times 40 0 (times 3 1 []))

pub receiver_asleep : IsAsleepOn about_to_wake.last Loc.recv 0
unfolding run_night times guests mpsc
receiver_asleep = (refl, refl)

woken_state :
    let r = run_night ℕ mpsc guests (times 40 0 (times 3 1 ((1, 0 ∷ []) ∷ times 6 0 []))) in
    (r.last.state.thread 0 ≡ ret tt) × (r.last.state.taken ≡ 7 ∷ [])
unfolding run_night times guests mpsc
woken_state = (refl, refl)
