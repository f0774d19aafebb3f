-- ===== src/Bags/Mpmc/Batch/RoundTrip.antt =====
-- A batch of bags/src/mpmc.rs from `try_send` to `try_recv`, where no other thread takes a step.
use lockness.Prelude.{
  ℕ, suc, ◌<◌, bit_and, min, ◌≡◌, sym, ap, ◌∙◌, subst, Bool, false, ◌==◌, List, ◌++◌, length, arith,
}
use lockness.Machine.Program.{Loc, Shared}
use lockness.Machine.Sequential.{done, run}
use lockness.Bags.Mpmc.Status.{n, all}
use lockness.Bags.Mpmc.Buffer.{Buffer, Container, available_items, items_of}
use lockness.Bags.Mpmc.Sender.{TrySend, try_send}
use lockness.Bags.Mpmc.Receiver.{received, try_recv}
use lockness.Bags.Mpmc.Drain.Order.{set_cells}
use lockness.Bags.Mpmc.Batch.Memory.{Filled, in_list}
use lockness.Bags.Mpmc.Batch.Receiving.{cells_of, new_send, try_recv-Filled}
use lockness.Bags.Mpmc.Batch.Request.{IsRequest, compute_request_mask-IsRequest}
use lockness.Bags.Mpmc.Batch.Sending.{IsIdle, Sent, try_send-IsIdle}

module _ {T : Type 0} where
  receive-Sent :
      (x86 : Bool) (k r : ℕ) (vs : List T) (m : Shared T)
      → IsRequest k r
      → Sent r vs m
      → (m' : Shared T) × (run (try_recv x86) m ≡ done (received vs) m') × IsIdle m'
  receive-Sent x86 k r vs m is sent =
      let cells : cells_of (m.word Loc.recv) ≡ r = ap cells_of sent.recv_word ∙ is.receiving in
      let some_cells : (cells_of (m.word Loc.recv) == 0) ≡ false =
        ap (λ c. c == 0) cells ∙ (let pos = is.positive in ground arith) in
      let (m', ran, recv_is, send_is, left) =
        try_recv-Filled x86 m vs some_cells
          (subst (λ c. Filled (set_cells c) vs m.cell) (sym cells) sent.filled) in
      (
        m',
        ran,
        record {
          send_word =
              send_is
              ∙ ap (λ c. new_send x86 c (m.word Loc.send)) cells
              ∙ ap (λ w. new_send x86 r w) sent.send_word
              ∙ is.giving_back x86;
          recv_word = recv_is ∙ ap (λ w. bit_and w all) sent.recv_word ∙ is.keeping;
          cells = λ j.
              left j (λ out. sent.others j (ap (λ c. in_list j (set_cells c)) (sym cells) ∙ out));
        },
      )

  -- On an empty channel, `try_send` and then `try_recv`, with no other thread in between, hand the
  -- items over in the order in which the buffer gives them: `vs`, which are all items or the first
  -- 30 of more. The rest stays with the sender, and the channel is empty again.
  pub try_recv-try_send :
      (x86 : Bool) (fuel bias : ℕ) (b : Buffer T) (vs rest : List T) (m : Shared T)
      → IsIdle m
      → bias < n
      → items_of (available_items b).1 ≡ vs ++ rest
      → 0 < length vs
      → length vs ≡ min (available_items b).0 n
      → (d : Container T) × (m₁ : Shared T) × (m₂ : Shared T) × (run
            (try_send x86 (suc fuel) bias b)
            m
          ≡ done (TrySend.sent d) m₁)
        × (items_of d ≡ rest)
        × (run (try_recv x86) m₁ ≡ done (received vs) m₂)
        × IsIdle m₂
  try_recv-try_send x86 fuel bias b vs rest m idle small e pos size =
      let (d, m₁, sent, left, state) =
        try_send-IsIdle x86 fuel bias b vs rest m idle small e pos size in
      let (m₂, taken, empty) =
        receive-Sent x86 _ _ vs m₁
          (compute_request_mask-IsRequest (available_items b).0 bias (omega arith) small) state in
      (d, m₁, m₂, sent, left, taken, empty)
