-- ===== src/Bags/Mpmc/Batch/Sending.antt =====
-- `try_send` of bags/src/mpmc.rs on an empty channel, where no other thread takes a step.
use lockness.Prelude.{
  ℕ, suc, ◌<◌, bit_or, min, ◌≡◌, refl, sym, ap, ◌∙◌, subst, fun_ext, Bool, false, ◌==◌, none, List,
  ◌++◌, length, arith,
}
use lockness.Word.Bits.{complement}
use lockness.Machine.Program.{Loc, Shared, set_word}
use lockness.Machine.Sequential.{Outcome, done, run, continue_with, run->>=}
use lockness.Machine.Waking.{woken-word, woken-cell}
use lockness.Bags.Mpmc.Status.{n, all, sleeping, contains}
use lockness.Bags.Mpmc.Masks.{compute_request_mask}
use lockness.Bags.Mpmc.Buffer.{Buffer, Container, available_items, items_of}
use lockness.Bags.Mpmc.Sender.{
  Reservation, reserved, TrySend, reserve, publish, after_reserve, try_send,
}
use lockness.Bags.Mpmc.Drain.Order.{set_cells}
use lockness.Bags.Mpmc.Batch.Memory.{
  Filled, in_list, fill_all, fill_all-word, fill_all-outside, fill_all-Filled, cells_from-Ascending,
}
use lockness.Bags.Mpmc.Batch.Publishing.{woken_by, run-reserve_idle, run-publish}
use lockness.Bags.Mpmc.Batch.Request.{IsRequest, compute_request_mask-IsRequest}

pub length-available_items :
    {T : Type 0} (b : Buffer T) → (available_items b).0 ≡ length (items_of (available_items b).1)
unfolding available_items items_of
length-available_items (Buffer.value v) = refl
length-available_items (Buffer.vec l) = refl
length-available_items (Buffer.array_vec l) = refl

module _ {T : Type 0} where
  -- Nothing is in the channel, both sides are alive and nobody sleeps.
  pub record IsIdle (m : Shared T) : Type 0 where
    pub send_word : m.word Loc.send ≡ 0
    pub recv_word : m.word Loc.recv ≡ all
    pub cells : (i : ℕ) → m.cell i ≡ none

  run-try_send :
      (x86 : Bool) (fuel bias : ℕ) (b : Buffer T) (m : Shared T)
      → ((available_items b).0 == 0) ≡ false
      → run (try_send x86 fuel bias b) m
        ≡ continue_with
            (run
              (reserve fuel
                (available_items b).0
                bias
                (compute_request_mask n (available_items b).0 bias))
              m)
            (λ r s. run (after_reserve x86 (available_items b).1 r) s)
  unfolding try_send
  run-try_send x86 fuel bias b m some_items = rw some_items (
      run->>=
        (reserve fuel (available_items b).0 bias
          (compute_request_mask n (available_items b).0 bias))
        (after_reserve x86 (available_items b).1) m)

  -- What `try_send` leaves: the cells of the request hold `vs` and are committed, the others are empty.
  pub record Sent (r : ℕ) (vs : List T) (m : Shared T) : Type 0 where
    pub send_word : m.word Loc.send ≡ r
    pub recv_word : m.word Loc.recv ≡ bit_or r all
    pub filled : Filled (set_cells r) vs m.cell
    pub others : (i : ℕ) → in_list i (set_cells r) ≡ false → m.cell i ≡ none

  after_reserved :
      {o : Outcome T Reservation} (x86 : Bool) (data' : Container T) (r : ℕ) (m : Shared T)
      → o ≡ done (reserved r) m
      → continue_with o (λ q s. run (after_reserve x86 data' q) s) ≡ run (publish x86 data' r) m
  unfolding continue_with after_reserve
  after_reserved x86 data' r m e =
      ap (λ o. continue_with o (λ q s. run (after_reserve x86 data' q) s)) e

  -- `try_send`, alone on an empty channel with items, sends as many of them as there is room for.
  pub try_send-IsIdle :
      (x86 : Bool) (fuel bias : ℕ) (b : Buffer T) (vs rest : List T) (m : Shared T)
      → IsIdle m
      → bias < n
      → items_of (available_items b).1 ≡ vs ++ rest
      → 0 < length vs
      → length vs ≡ min (available_items b).0 n
      → (d : Container T) × (m' : Shared T) × (run (try_send x86 (suc fuel) bias b) m
          ≡ done (TrySend.sent d) m')
        × (items_of d ≡ rest)
        × Sent (compute_request_mask n (available_items b).0 bias) vs m'
  try_send-IsIdle x86 fuel bias b vs rest m idle small e pos size =
      let items : ℕ = (available_items b).0 in
      let data' = (available_items b).1 in
      let r : ℕ = compute_request_mask n items bias in
      let is : IsRequest (min items 30) r =
        compute_request_mask-IsRequest items bias (omega arith) small in
      let m₁ = set_word m Loc.send (bit_or (m.word Loc.send) r) in
      let m₂ = fill_all (set_cells r) vs m₁ in
      let m₃ = set_word m₂ Loc.recv (bit_or r all) in
      let (d, ran, left) =
        run-publish x86 (min items 30) r vs rest data' m₁ idle.recv_word is size e in
      let wakes : Bool = contains (complement 32 (m₂.word Loc.recv)) sleeping in
      let cells : (woken_by (m₂.word Loc.recv) m₃).cell ≡ m₂.cell =
        fun_ext (λ i. woken-cell wakes Loc.recv 1 m₃ i) in
      (
        d,
        woken_by (m₂.word Loc.recv) m₃,
        run-try_send x86 (suc fuel) bias b m (ground arith)
            ∙ after_reserved x86 data' r m₁
                (run-reserve_idle fuel items bias (min items 30) r m idle.send_word is)
            ∙ ran,
        left,
        record {
          send_word =
              woken-word wakes Loc.recv 1 m₃ Loc.send
              ∙ ap (λ w. w Loc.send) (fill_all-word (set_cells r) vs m₁)
              ∙ ap (λ w. bit_or w r) idle.send_word
              ∙ is.reserving;
          recv_word = woken-word wakes Loc.recv 1 m₃ Loc.recv;
          filled =
              subst (λ c. Filled (set_cells r) vs c) (sym cells)
                (fill_all-Filled 0 (set_cells r) vs m₁ (cells_from-Ascending n 0 r)
                  (size ∙ sym is.size));
          others = λ i out.
              ap (λ c. c i) cells ∙ fill_all-outside (set_cells r) vs m₁ i out ∙ idle.cells i;
        },
      )
