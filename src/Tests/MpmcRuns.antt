-- ===== src/Tests/MpmcRuns.antt =====
-- A sender and a receiver over one channel.
use lockness.Prelude.{ℕ, zero, suc, ◌≡◌, refl, none, some, [], ◌∷◌, true, arith}
use lockness.Word.Bits.{test_bit}
use lockness.Machine.Program.{Prog, ret, ◌>>=◌}
use lockness.Bags.Mpmc.Handles.{mpmc}
use lockness.Bags.Mpmc.Buffer.{Buffer}
use lockness.Bags.Mpmc.Sender.{try_send}
use lockness.Bags.Mpmc.Receiver.{try_recv}
use lockness.Bags.Mpmc.System.Clients.{IsClient}
use lockness.Machine.Threads.{access}
use lockness.Tests.Schedule.{Run, run_all}

-- Thread 0 sends 7, thread 1 receives, and there are no others.
unfoldable pub pair : ℕ → Prog ℕ (Unit {0})
unfolding ◌>>=◌ try_send try_recv test_bit
pair zero = try_send true 3 0 (Buffer.value 7) >>= λ _. ret tt
pair (suc zero) = try_recv true >>= λ _. ret tt
pair (suc (suc t)) = ret tt

pub pair-IsClient : (t : ℕ) → IsClient (pair t)
unfolding pair
pair-IsClient zero =
    IsClient.try_send true 3 0 (Buffer.value 7) (λ _. ret tt) (omega arith) (λ _. IsClient.stop)
pair-IsClient (suc zero) = IsClient.try_recv true (λ _. ret tt) (λ _. IsClient.stop)
pair-IsClient (suc (suc t)) = IsClient.stop

-- The sender has reserved its cell.
abbrev pub reserving : Run ℕ mpmc pair
reserving = run_all ℕ mpmc pair (0 ∷ [])

-- The sender has published, and the receiver has claimed the cell.
abbrev pub claiming : Run ℕ mpmc pair
claiming = run_all ℕ mpmc pair (0 ∷ 0 ∷ 0 ∷ 1 ∷ [])

abbrev pub finished : Run ℕ mpmc pair
finished = run_all ℕ mpmc pair (0 ∷ 0 ∷ 0 ∷ 1 ∷ 1 ∷ 1 ∷ 1 ∷ [])

reserving_state : (access (reserving.last.thread 0) ≡ some 0) × (reserving.last.written ≡ [])
unfolding run_all pair mpmc
reserving_state = (refl, refl)

claiming_state :
    (access (claiming.last.thread 1) ≡ some 0)
    × (claiming.last.written ≡ 7 ∷ [])
    × (claiming.last.mem.cell 0 ≡ some 7)
unfolding run_all pair mpmc
claiming_state = (refl, refl, refl)

finished_state :
    (finished.last.taken ≡ 7 ∷ [])
    × (finished.last.mem.cell 0 ≡ none)
    × (finished.last.thread 1 ≡ ret tt)
unfolding run_all pair mpmc
finished_state = (refl, refl, refl)
