-- ===== src/Bags/Slot/Handles.antt =====
-- The life of a slot: `mpsc`, `Clone` and `Drop` of the halves and `Drop` of `Inner` in
-- bags/src/slot.rs.
use lockness.Prelude.{ℕ, ◌/◌, List, [], ◌∷◌, none, ltb, if◌then◌else◌, Bool}
use lockness.Machine.Program.{Loc, Prog, ret, read, abort, ◌>>=◌, Shared}
use lockness.Machine.Access.{load, swap, fetch_or, fetch_add, fetch_sub, wake_if}
use lockness.Bags.Mpmc.Status.{contains, u32_max}
use lockness.Bags.Slot.Status.{
  receiver_dead, send_sleeping, committed, recv_sleeping, sender_dead, slot,
}

-- There is no word `num_receivers`.
abbrev pub first_word : Loc → ℕ
first_word Loc.num_senders = 1
first_word _ = 0

module _ {T : Type 0} where
  unfoldable pub mpsc : Shared T
  mpsc = record { word = first_word; cell = λ i. none; wakes = [] }

  unfoldable pub clone_sender : Prog T (Unit {0})
  unfolding ◌>>=◌
  clone_sender =
      fetch_add Loc.num_senders 1 >>= λ prev. if ltb (u32_max / 2) prev then abort else ret tt

  unfoldable pub drop_sender : Prog T (Unit {0})
  unfolding ◌>>=◌ contains
  drop_sender = fetch_sub Loc.num_senders 1 >>= λ prev.
      let last = fetch_or Loc.recv sender_dead >>= λ old.
      wake_if (contains old recv_sleeping) Loc.recv u32_max in
      if ltb 1 prev then ret tt else last

  unfoldable pub drop_receiver : Bool → Prog T (Unit {0})
  unfolding ◌>>=◌ contains
  drop_receiver x86 = swap Loc.send (receiver_dead x86) >>= λ prev.
      wake_if (contains prev (send_sleeping x86)) Loc.send u32_max

  -- The values that are dropped with the channel.
  unfoldable pub drop_inner : Prog T (List T)
  unfolding ◌>>=◌ contains
  drop_inner = load Loc.recv >>= λ word.
      if contains word committed then read slot (λ v. ret (v ∷ [])) else ret []
