-- ===== src/Bags/Mpmc/Handles.antt =====
-- The life of a channel: bags/src/mpmc.rs, `mpmc`, `Clone` and `Drop` of both halves, and the
-- `Drop` of `Inner`, which runs when the last handle of either kind is gone.
use lockness.Prelude.{ℕ, ◌*◌, ◌/◌, ◌%◌, ◌^◌, bit_and, List, [], ◌∷◌, ◌++◌, none, ltb, if◌then◌else◌}
use lockness.Word.Bits.{complement}
use lockness.Machine.Program.{Loc, Prog, ret, read, abort, ◌>>=◌, Shared}
use lockness.Machine.Access.{load, fetch_or, fetch_and, fetch_add, fetch_sub, wake_if}
use lockness.Bags.Mpmc.Status.{n, u32_max, counterparty_dead, sleeping, all, contains}
use lockness.Bags.Mpmc.Drain.{drain_mask}

-- The words of a new channel. In `recv` the status bits are inverted: 1 means off.
abbrev pub first_word : Loc → ℕ
first_word Loc.send = 0
first_word Loc.recv = all
first_word Loc.num_senders = 1
first_word Loc.num_receivers = 1

module _ {T : Type 0} where
  -- The memory that `mpmc` makes; its first sender has the bias 0.
  unfoldable pub mpmc : Shared T
  mpmc = record { word = first_word; cell = λ i. none; wakes = [] }

  -- The bias of the new sender.
  unfoldable pub clone_sender : Prog T ℕ
  unfolding ◌>>=◌
  clone_sender = fetch_add Loc.num_senders 1 >>= λ prev_senders.
      if ltb (u32_max / 2) prev_senders then abort else ret (prev_senders * 7 % 2 ^ 32 % n)

  unfoldable pub drop_sender : Prog T (Unit {0})
  unfolding ◌>>=◌ contains complement
  drop_sender = fetch_sub Loc.num_senders 1 >>= λ prev.
      let last = fetch_and Loc.recv (complement 32 counterparty_dead) >>= λ old.
      wake_if (contains (complement 32 old) sleeping) Loc.recv u32_max in
      if ltb 1 prev then ret tt else last

  unfoldable pub clone_receiver : Prog T (Unit {0})
  unfolding ◌>>=◌
  clone_receiver =
      fetch_add Loc.num_receivers 1 >>= λ prev. if ltb (u32_max / 2) prev then abort else ret tt

  unfoldable pub drop_receiver : Prog T (Unit {0})
  unfolding ◌>>=◌ contains
  drop_receiver = fetch_sub Loc.num_receivers 1 >>= λ prev.
      let last = fetch_or Loc.send counterparty_dead >>= λ old.
      wake_if (contains old sleeping) Loc.send u32_max in
      if ltb 1 prev then ret tt else last

  -- The closure that drops one cell's value. The state lists the values dropped so far.
  unfoldable pub drop_cell : ℕ → List T → Prog T (List T)
  drop_cell i dropped = read i λ v. ret (dropped ++ v ∷ [])

  unfoldable pub drop_inner : Prog T (List T)
  unfolding ◌>>=◌ drain_mask drop_cell complement
  drop_inner =
      load Loc.recv >>= λ word. drain_mask n drop_cell (bit_and word (complement 32 all)) []
