-- ===== src/Tests/MpmcNights.antt =====
-- Runs in which threads sleep on a channel of bags/src/mpmc.rs.
use lockness.Prelude.{ℕ, zero, suc, ◌≡◌, refl, true, [], ◌∷◌, List, arith}
use lockness.Word.Bits.{test_bit, complement}
use lockness.Machine.Program.{Loc, Prog, ret, ◌>>=◌}
use lockness.Machine.Futex.{IsAsleepOn}
use lockness.Bags.Mpmc.Status.{contains, counterparty_dead}
use lockness.Bags.Mpmc.Handles.{mpmc, drop_sender}
use lockness.Bags.Mpmc.Buffer.{Buffer}
use lockness.Bags.Mpmc.Sender.{try_send}
use lockness.Bags.Mpmc.Blocking.{send, recv}
use lockness.Bags.Mpmc.System.Clients.{IsClient}
use lockness.Tests.Dozing.{Night, run_night, times}

-- Threads 0 and 1 receive; thread 2 sends 7 and drops the only sender.
unfoldable pub hall : ℕ → Prog ℕ (Unit {0})
unfolding ◌>>=◌ try_send recv test_bit drop_sender
hall zero = recv 3 true >>= λ _. ret tt
hall (suc zero) = recv 3 true >>= λ _. ret tt
hall (suc (suc zero)) = try_send true 3 0 (Buffer.value 7) >>= λ _. drop_sender >>= λ _. ret tt
hall (suc (suc (suc t))) = ret tt

pub hall-IsClient : (t : ℕ) → IsClient (hall t)
unfolding hall
hall-IsClient zero = IsClient.recv 3 true (λ _. ret tt) (λ _. IsClient.stop)
hall-IsClient (suc zero) = IsClient.recv 3 true (λ _. ret tt) (λ _. IsClient.stop)
hall-IsClient (suc (suc zero)) =
    IsClient.try_send true 3 0 (Buffer.value 7) (λ _. drop_sender >>= λ _. ret tt) (omega arith)
      (λ _. IsClient.drop_sender (λ _. ret tt) IsClient.stop)
hall-IsClient (suc (suc (suc t))) = IsClient.stop

-- Both receivers sleep.
abbrev pub listening : Night ℕ mpmc hall
listening = run_night ℕ mpmc hall (times 38 0 (times 38 1 []))

pub listening_state : IsAsleepOn listening.last Loc.recv 0 × IsAsleepOn listening.last Loc.recv 1
unfolding run_night times hall mpmc
listening_state = ((refl, refl), (refl, refl))

-- Thread 2 sends, wakes thread 0, and drops the sender before thread 0 has set the flag SLEEPING
-- again; thread 0 then takes the message and ends.
abbrev pub deserted : Night ℕ mpmc hall
deserted =
    run_night ℕ mpmc hall
      (times 38 0 (times 38 1 (times 3 2 ((2, 0 ∷ []) ∷ times 2 2 (times 10 0 [])))))

-- All threads have ended but thread 1, which sleeps with all senders gone.
lost_wake :
    (deserted.last.state.thread 0 ≡ ret tt)
    × (deserted.last.state.thread 2 ≡ ret tt)
    × (deserted.last.state.taken ≡ 7 ∷ [])
    × IsAsleepOn deserted.last Loc.recv 1
    × (contains (complement 32 (deserted.last.state.mem.word Loc.recv)) counterparty_dead ≡ true)
unfolding run_night times hall mpmc contains complement
lost_wake = (refl, refl, refl, (refl, refl), refl)

-- Thread 0 fills all cells, and threads 0 and 1 wait for room.
abbrev thirty : List ℕ
thirty =
    0 ∷ 1 ∷ 2 ∷ 3 ∷ 4 ∷ 5 ∷ 6 ∷ 7 ∷ 8 ∷ 9 ∷ 10 ∷ 11 ∷ 12 ∷ 13 ∷ 14 ∷ 15 ∷ 16 ∷ 17 ∷ 18 ∷ 19 ∷ 20
    ∷ 21 ∷ 22 ∷ 23 ∷ 24 ∷ 25 ∷ 26 ∷ 27 ∷ 28 ∷ 29 ∷ []

unfoldable pub crowd : ℕ → Prog ℕ (Unit {0})
unfolding ◌>>=◌ try_send send test_bit
crowd zero =
    try_send true 3 0 (Buffer.vec thirty) >>= λ _. send 3 true 3 0 (Buffer.value 30) >>= λ _. ret tt
crowd (suc zero) = send 3 true 3 7 (Buffer.value 31) >>= λ _. ret tt
crowd (suc (suc t)) = ret tt

pub crowd-IsClient : (t : ℕ) → IsClient (crowd t)
unfolding crowd
crowd-IsClient zero =
    IsClient.try_send true 3 0 (Buffer.vec thirty)
      (λ _. send 3 true 3 0 (Buffer.value 30) >>= λ _. ret tt) (omega arith)
      (λ _.
        IsClient.send 3 true 3 0 (Buffer.value 30) (λ _. ret tt) (omega arith) (λ _. IsClient.stop))
crowd-IsClient (suc zero) =
    IsClient.send 3 true 3 7 (Buffer.value 31) (λ _. ret tt) (omega arith) (λ _. IsClient.stop)
crowd-IsClient (suc (suc t)) = IsClient.stop

abbrev pub crowded : Night ℕ mpmc crowd
crowded = run_night ℕ mpmc crowd (times 80 0 (times 40 1 []))

pub crowded_state : IsAsleepOn crowded.last Loc.send 0 × IsAsleepOn crowded.last Loc.send 1
unfolding run_night times crowd mpmc
crowded_state = ((refl, refl), (refl, refl))
