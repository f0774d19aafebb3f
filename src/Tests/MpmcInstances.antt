-- ===== src/Tests/MpmcInstances.antt =====
-- The theorems about bags/src/mpmc.rs at concrete inputs.
use lockness.Prelude.{none, ℕ, ◌+◌, ◌≡◌, refl, [], ◌∷◌, min, true, false, arith}
use lockness.Word.Count.{count_ones}
use lockness.Bags.Mpmc.Status.{n}
use lockness.Bags.Mpmc.Handles.{mpmc}
use lockness.Bags.Mpmc.Buffer.{Buffer}
use lockness.Bags.Mpmc.Sender.{try_send, reserve}
use lockness.Bags.Mpmc.Receiver.{try_recv}
use lockness.Bags.Mpmc.Blocking.{send, recv}
use lockness.Machine.Program.{Shared}
use lockness.Machine.Sequential.{run}
use lockness.Bags.Mpmc.Alone.{Returns, reserve_alone}
use lockness.Bags.Mpmc.Rounds.Steps.{IsWithin, try_recv-IsWithin}
use lockness.Bags.Mpmc.Masks.{compute_request_mask, clear_extra_bits}
use lockness.Bags.Mpmc.Masks.Window.{IsWindow, compute_request_mask-IsWindow}
use lockness.Bags.Mpmc.Masks.Trim.{Trimmed, clear_extra_bits-Trimmed}
use lockness.Bags.Mpmc.Protocol.Obeys.{Held, nothing, Obeys}
use lockness.Bags.Mpmc.Protocol.Send.{KeepsNothing, SameHeld, try_send-Obeys}
use lockness.Bags.Mpmc.Protocol.Recv.{try_recv-Obeys}
use lockness.Bags.Mpmc.Protocol.Waiting.{KeepsNothingSent, send-Obeys, recv-Obeys}
use lockness.Machine.Threads.{IsDefined}
use lockness.Bags.Mpmc.System.Safety.{no_data_race, Reach-IsDefined}
use lockness.Bags.Mpmc.System.Conservation.{total, cells_weight, conserved}
use lockness.Tests.Schedule.{run_all}
use lockness.Tests.MpmcRuns.{pair, pair-IsClient, claiming}

no_data_race_example : ◌≡◌ {A = ℕ} 1 1
unfolding run_all pair mpmc
no_data_race_example = no_data_race pair-IsClient claiming.reach 1 1 0 refl refl

Reach-IsDefined_example : IsDefined claiming.last.mem (claiming.last.thread 1)
Reach-IsDefined_example = Reach-IsDefined pair-IsClient claiming.reach 1

conserved_example :
    total (λ v. v) claiming.last.written
    ≡ total (λ v. v) claiming.last.taken + cells_weight (λ v. v) n claiming.last.mem.cell
conserved_example = conserved (λ v. v) pair-IsClient claiming.reach

abbrev nothing_held : Held
nothing_held i = nothing

abbrev two_items : Buffer ℕ
two_items = Buffer.vec (4 ∷ 5 ∷ [])

abbrev one_item : Buffer ℕ
one_item = Buffer.value 4

try_send-Obeys_example :
    Obeys (try_send true 3 7 two_items) nothing_held (KeepsNothing nothing_held)
try_send-Obeys_example = try_send-Obeys {T = ℕ} true 3 7 two_items nothing_held (omega arith)

try_recv-Obeys_example : Obeys (try_recv {T = ℕ} false) nothing_held (λ _. SameHeld nothing_held)
try_recv-Obeys_example = try_recv-Obeys ℕ false nothing_held

send-Obeys_example : Obeys (send 2 true 3 0 one_item) nothing_held (KeepsNothingSent nothing_held)
send-Obeys_example = send-Obeys {T = ℕ} 2 true 3 0 one_item nothing_held (omega arith)

recv-Obeys_example : Obeys (recv {T = ℕ} 2 true) nothing_held (λ _. SameHeld nothing_held)
recv-Obeys_example = recv-Obeys ℕ 2 true nothing_held

compute_request_mask-IsWindow_example : IsWindow (min 7 30) 27 (compute_request_mask 30 7 27)
compute_request_mask-IsWindow_example =
    compute_request_mask-IsWindow 7 27 (omega arith) (omega arith)

clear_extra_bits-Trimmed_example :
    Trimmed true (min (count_ones 32 0xf0) 2) 0xf0 (clear_extra_bits 0xf0 2 true)
clear_extra_bits-Trimmed_example = clear_extra_bits-Trimmed 0xf0 2 true (omega arith)

try_recv-IsWithin_example : IsWithin 33 (try_recv {T = ℕ} true)
try_recv-IsWithin_example = try_recv-IsWithin ℕ true

-- All cells but the last are taken, and the request is for taken ones.
abbrev nearly_full : Shared ℕ
nearly_full = record { word = λ l. 0xffff_fff8; cell = λ i. none; wakes = [] }

reserve_alone_example : Returns (run (reserve 3 2 0 0xc000_0000) nearly_full)
reserve_alone_example =
    reserve_alone 1 2 0 0xc000_0000 nearly_full (omega arith) (omega arith) (omega arith)
