-- ===== src/Tests/BatchInstances.antt =====
-- The theorems about whole batches of bags/src/mpmc.rs, and about padding, at concrete inputs.
use lockness.Prelude.{
  ℕ, ◌+◌, ◌*◌, ◌/◌, ◌^◌, ◌<◌, bit_and, ◌≡◌, refl, ◌==◌, if◌then◌else◌, true, false, none, some, [],
  ◌∷◌, arith,
}
use lockness.Word.Bits.{complement, test_bit}
use lockness.Machine.Program.{Loc, Shared}
use lockness.Machine.Sequential.{done, run}
use lockness.Vecs.Layout.{TypeLayout, next_multiple_of}
use lockness.Bags.CachePadded.{x86_64, log_repr, cache_padded}
use lockness.Bags.CachePadded.Lines.{separate_lines}
use lockness.Bags.Mpmc.Status.{n, all, slot_bit}
use lockness.Bags.Mpmc.Buffer.{Buffer, Container, available_items, items_of}
use lockness.Bags.Mpmc.Sender.{TrySend, try_send}
use lockness.Bags.Mpmc.Receiver.{received, collect, try_recv}
use lockness.Bags.Mpmc.Handles.{mpmc, drop_inner}
use lockness.Bags.Mpmc.Drain.{drain_mask}
use lockness.Bags.Mpmc.Drain.Order.{cells_from, set_cells, for_each, drain_mask-for_each}
use lockness.Bags.Mpmc.Batch.Memory.{in_list}
use lockness.Bags.Mpmc.Batch.Receiving.{cells_of, new_send, drop_inner-Filled, try_recv-Filled}
use lockness.Bags.Mpmc.Batch.Sending.{IsIdle}
use lockness.Bags.Mpmc.Batch.RoundTrip.{try_recv-try_send}

-- The cells 0 and 2.
drain_mask-for_each_example :
    drain_mask n (collect {T = ℕ}) (2 ^ 31 + 2 ^ 29) [] ≡ for_each collect (0 ∷ 2 ∷ []) []
unfolding cells_from slot_bit test_bit
drain_mask-for_each_example = drain_mask-for_each collect (2 ^ 31 + 2 ^ 29) []

-- The cell 0 holds 7 and is committed.
abbrev one_word : Loc → ℕ
one_word Loc.send = 2 ^ 31
one_word Loc.recv = 2 ^ 31 + 3
one_word Loc.num_senders = 1
one_word Loc.num_receivers = 1

abbrev one_cell : Shared ℕ
one_cell = record { word = one_word; cell = λ i. if i == 0 then some 7 else none; wakes = [] }

drop_inner-Filled_example : (m' : Shared ℕ) × (run drop_inner one_cell ≡ done (7 ∷ []) m')
unfolding cells_from slot_bit test_bit complement
drop_inner-Filled_example = drop_inner-Filled one_cell (7 ∷ []) (refl, tt)

try_recv-Filled_example :
    (m' : Shared ℕ) × (run (try_recv true) one_cell ≡ done (received (7 ∷ [])) m')
    × (m'.word Loc.recv ≡ bit_and (one_cell.word Loc.recv) all)
    × (m'.word Loc.send
        ≡ new_send true (cells_of (one_cell.word Loc.recv)) (one_cell.word Loc.send))
    × ((j : ℕ)
        → (in_list j (set_cells (cells_of (one_cell.word Loc.recv))) ≡ false
            → one_cell.cell j ≡ none)
        → m'.cell j ≡ none)
unfolding cells_from slot_bit test_bit complement
try_recv-Filled_example = try_recv-Filled true one_cell (7 ∷ []) refl (refl, tt)

mpmc-IsIdle : IsIdle (mpmc {T = ℕ})
unfolding mpmc
mpmc-IsIdle = record { send_word = refl; recv_word = refl; cells = λ i. refl }

-- From the bias 29 on, the two items lie in the last cell and the first.
try_recv-try_send_example :
    (d : Container ℕ) × (m₁ : Shared ℕ) × (m₂ : Shared ℕ) × (run
        (try_send true 1 29 (Buffer.vec (4 ∷ 5 ∷ [])))
        mpmc
      ≡ done (TrySend.sent d) m₁)
    × (items_of d ≡ [])
    × (run (try_recv true) m₁ ≡ done (received (4 ∷ 5 ∷ [])) m₂)
    × IsIdle m₂
unfolding items_of available_items
try_recv-try_send_example =
    try_recv-try_send true 0 29 (Buffer.vec (4 ∷ 5 ∷ [])) (4 ∷ 5 ∷ []) [] mpmc mpmc-IsIdle
      (omega arith) refl (omega arith) refl

abbrev atomic_u32 : TypeLayout
atomic_u32 = record { size = 4; log_align = 2 }

separate_lines_example : (256 + 0 * 128 + 127) / 128 < (256 + 1 * 128 + 0) / 128
unfolding cache_padded log_repr next_multiple_of
separate_lines_example =
    separate_lines x86_64 atomic_u32 256 0 1 127 0 refl (omega arith) (omega arith)
