-- ===== src/Bags/Mpmc/Batch/Publishing.antt =====
-- The reservation and the publication of cells of bags/src/mpmc.rs on an empty channel, where no other
-- thread takes a step.
use lockness.Prelude.{
  ℕ, suc, ◌%◌, bit_and, bit_or, ◌≡◌, refl, sym, ap, ◌∙◌, subst, Bool, true, false, ◌&&◌, ltb, ◌==◌,
  if◌then◌else◌, List, ◌++◌, length,
}
use lockness.Word.Bits.{complement}
use lockness.Machine.Program.{Loc, Prog, ret, ◌>>=◌, ◌>>◌, Shared, set_word}
use lockness.Machine.Access.{swap, fetch_or, wake_if}
use lockness.Machine.Sequential.{done, run}
use lockness.Machine.Waking.{woken, run-wake_if}
use lockness.Bags.Mpmc.Status.{n, u32_max, counterparty_dead, all, sleeping, contains}
use lockness.Bags.Mpmc.Masks.{clear_extra_bits}
use lockness.Bags.Mpmc.Buffer.{Container, items_of}
use lockness.Bags.Mpmc.Sender.{
  Reservation, reserved, dead, no_room, TrySend, reserve, fill, commit, publish,
}
use lockness.Bags.Mpmc.Drain.{drain_mask}
use lockness.Bags.Mpmc.Drain.Order.{set_cells, drain_mask-for_each}
use lockness.Bags.Mpmc.Alone.{run-reserve}
use lockness.Bags.Mpmc.Batch.Memory.{fill_all, fill_all-word}
use lockness.Bags.Mpmc.Batch.Cells.{run-fill}
use lockness.Bags.Mpmc.Batch.Receiving.{drain-run}
use lockness.Bags.Mpmc.Batch.Request.{IsRequest}

module _ {T : Type 0} where
  -- The tests of a round of `reserve`, where `w` was in the word and `p` follows.
  abbrev round_of : ℕ → ℕ → Prog T Reservation → Prog T Reservation
  round_of w r p =
      if contains w counterparty_dead
      then ret dead
      else if bit_or w all == u32_max
      then ret no_room
      else if ltb 0 (bit_and (complement 32 (bit_or w all)) r)
      then ret (reserved (bit_and (complement 32 (bit_or w all)) r))
      else p

  run-round_of :
      (k r : ℕ)
      → IsRequest k r
      → (p : Prog T Reservation) (s : Shared T) → run (round_of 0 r p) s ≡ done (reserved r) s
  unfolding contains run
  run-round_of k r is p s = rw (is.claiming, is.positive) refl

  pub run-reserve_idle :
      (fuel items bias k r : ℕ) (m : Shared T)
      → m.word Loc.send ≡ 0
      → IsRequest k r
      → run (reserve (suc fuel) items bias r) m
        ≡ done (reserved r) (set_word m Loc.send (bit_or (m.word Loc.send) r))
  run-reserve_idle fuel items bias k r m idle is =
      run-reserve fuel items bias r m
      ∙ subst
          (λ w.
            (p : Prog T Reservation) (s : Shared T) → run (round_of w r p) s ≡ done (reserved r) s)
          (sym idle) (run-round_of k r is)
          (reserve fuel items bias
            (clear_extra_bits (complement 32 (bit_or (m.word Loc.send) all)) items (bias % 2 == 0)))
          (set_word m Loc.send (bit_or (m.word Loc.send) r))

  -- The end of `publish`, with what is left of the items.
  abbrev commit_rest : Bool → ℕ → Container T → Prog T (TrySend T)
  commit_rest x86 claimed rest = commit x86 claimed >>= λ prev.
      wake_if (contains (complement 32 prev) sleeping) Loc.recv 1 >> ret (TrySend.sent rest)

  publish-eq :
      (x86 : Bool) (data' : Container T) (claimed : ℕ)
      → publish x86 data' claimed ≡ (drain_mask n fill claimed data' >>= commit_rest x86 claimed)
  unfolding publish
  publish-eq x86 data' claimed = refl

  run-commit :
      {A : Type 0} (x86 : Bool) (k r : ℕ) (g : ℕ → Prog T A) (m : Shared T)
      → m.word Loc.recv ≡ all
      → IsRequest k r
      → run (commit x86 r >>= g) m ≡ run (g (m.word Loc.recv)) (set_word m Loc.recv (bit_or r all))
  unfolding commit ◌>>=◌ run
  run-commit x86 k r g m idle is = by_swap (x86 && bit_or r all == u32_max)
    where
      by_swap :
          (b : Bool)
          → run
              ((if b then swap Loc.recv (bit_or r all) else fetch_or Loc.recv (bit_or r all)) >>= g)
              m
            ≡ run (g (m.word Loc.recv)) (set_word m Loc.recv (bit_or r all))
      by_swap true = refl
      by_swap false =
          ap (λ w. run (g (m.word Loc.recv)) (set_word m Loc.recv w))
            (ap (λ w. bit_or w (bit_or r all)) idle ∙ is.committing)

  abbrev pub woken_by : ℕ → Shared T → Shared T
  woken_by w m = woken (contains (complement 32 w) sleeping) Loc.recv 1 m

  run-commit_rest :
      (x86 : Bool) (k r : ℕ) (rest : Container T) (m : Shared T)
      → m.word Loc.recv ≡ all
      → IsRequest k r
      → run (commit_rest x86 r rest) m
        ≡ done (TrySend.sent rest) (woken_by (m.word Loc.recv) (set_word m Loc.recv (bit_or r all)))
  run-commit_rest x86 k r rest m idle is =
      run-commit x86 k r
        (λ prev.
          wake_if (contains (complement 32 prev) sleeping) Loc.recv 1 >> ret (TrySend.sent rest))
        m idle is
      ∙ run-wake_if (contains (complement 32 (m.word Loc.recv)) sleeping) Loc.recv 1
          (TrySend.sent rest) (set_word m Loc.recv (bit_or r all))

  pub run-publish :
      (x86 : Bool) (k r : ℕ) (vs rest : List T) (data' : Container T) (m : Shared T)
      → m.word Loc.recv ≡ all
      → IsRequest k r
      → length vs ≡ k
      → items_of data' ≡ vs ++ rest
      → let m' = fill_all (set_cells r) vs m in
        (d : Container T) × (run (publish x86 data' r) m
          ≡ done
              (TrySend.sent d)
              (woken_by (m'.word Loc.recv) (set_word m' Loc.recv (bit_or r all))))
        × (items_of d ≡ rest)
  run-publish x86 k r vs rest data' m idle is size e =
      let (d, filled, left) = run-fill (set_cells r) vs rest data' m (size ∙ sym is.size) e in
      let m' = fill_all (set_cells r) vs m in
      (
        d,
        ap (λ p. run p m) (publish-eq x86 data' r)
            ∙ drain-run fill r data' d m m' (commit_rest x86 r)
                (ap (λ p. run p m) (drain_mask-for_each fill r data') ∙ filled)
            ∙ run-commit_rest x86 k r d m'
                (ap (λ w. w Loc.recv) (fill_all-word (set_cells r) vs m) ∙ idle) is,
        left,
      )
