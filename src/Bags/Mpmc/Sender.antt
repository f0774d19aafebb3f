-- ===== src/Bags/Mpmc/Sender.antt =====
-- The sending half: bags/src/mpmc.rs, `Sender::try_send`, `send`, `clone` and `drop`.
-- `x86` is `cfg!(target_arch = "x86_64")`; `fuel` bounds the rounds of a loop that other threads
-- can prolong.
use lockness.Prelude.{
  ℕ, zero, suc, ◌%◌, bit_and, bit_or, Bool, ◌&&◌, none, some, ◌==◌, ltb, if◌then◌else◌,
}
use lockness.Word.Bits.{complement}
use lockness.Machine.Program.{Loc, Prog, ret, write, undefined, out_of_fuel, ◌>>=◌, ◌>>◌}
use lockness.Machine.Access.{swap, fetch_or, wake_if}
use lockness.Bags.Mpmc.Status.{n, u32_max, counterparty_dead, sleeping, all, contains}
use lockness.Bags.Mpmc.Masks.{compute_request_mask, clear_extra_bits}
use lockness.Bags.Mpmc.Buffer.{Buffer, Container, available_items, take, remit}
use lockness.Bags.Mpmc.Drain.{drain_mask}

-- How the loop of `try_send` that reserves cells ends.
pub data Reservation : Type 0 where
  reserved : ℕ → Reservation
  dead : Reservation
  no_room : Reservation

-- `Result<(), TrySendError>`; a success shows what a vector keeps.
pub data TrySend (T : Type 0) : Type 0 where
  sent : Container T → TrySend T
  disconnected : Buffer T → TrySend T
  full : Buffer T → TrySend T

module _ {T : Type 0} where
  unfoldable pub reserve : ℕ → ℕ → ℕ → ℕ → Prog T Reservation
  unfolding ◌>>=◌ contains complement clear_extra_bits
  reserve zero items bias request = out_of_fuel
  reserve (suc fuel) items bias request = fetch_or Loc.send request >>= λ prev.
      let slots = bit_or prev all in
      let claimed = bit_and (complement 32 slots) request in
      let again =
        reserve fuel items bias (clear_extra_bits (complement 32 slots) items (bias % 2 == 0)) in
      if contains prev counterparty_dead
      then ret dead
      else if slots == u32_max
      then ret no_room
      else if ltb 0 claimed
      then ret (reserved claimed)
      else again

  -- The closure that fills one cell.
  unfoldable pub fill : ℕ → Container T → Prog T (Container T)
  unfolding take
  fill i data' = elim (take data') [ none ↦ undefined | some (v, rest) ↦ write i v (ret rest) ]

  unfoldable pub give_back : (Buffer T → TrySend T) → Container T → Prog T (TrySend T)
  unfolding remit
  give_back error data' = elim (remit data') [ none ↦ undefined | some b ↦ ret (error b) ]

  -- Publishes the filled cells; gives the previous value of `recv`.
  unfoldable pub commit : Bool → ℕ → Prog T ℕ
  commit x86 claimed =
      let commit_mask = bit_or claimed all in
      if x86 && commit_mask == u32_max
      then swap Loc.recv commit_mask
      else fetch_or Loc.recv commit_mask

  unfoldable pub publish : Bool → Container T → ℕ → Prog T (TrySend T)
  unfolding ◌>>=◌ ◌>>◌ fill commit drain_mask contains complement
  publish x86 data' claimed = do
    rest ← drain_mask n fill claimed data'
    prev ← commit x86 claimed
    wake_if (contains (complement 32 prev) sleeping) Loc.recv 1
    ret (TrySend.sent rest)

  unfoldable pub after_reserve : Bool → Container T → Reservation → Prog T (TrySend T)
  unfolding publish give_back
  after_reserve x86 data' (reserved claimed) = publish x86 data' claimed
  after_reserve x86 data' dead = give_back TrySend.disconnected data'
  after_reserve x86 data' no_room = give_back TrySend.full data'

  unfoldable pub try_send : Bool → ℕ → ℕ → Buffer T → Prog T (TrySend T)
  unfolding ◌>>=◌ available_items compute_request_mask reserve after_reserve
  try_send x86 fuel bias buffer =
      let (items, data') = available_items buffer in
      if items == 0
      then ret (TrySend.sent data')
      else (reserve fuel items bias (compute_request_mask n items bias) >>= after_reserve x86 data')
