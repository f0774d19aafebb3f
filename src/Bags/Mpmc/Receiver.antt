-- ===== src/Bags/Mpmc/Receiver.antt =====
-- The receiving half: bags/src/mpmc.rs, `Receiver::try_recv`.
use lockness.Prelude.{ℕ, bit_and, Bool, ◌&&◌, List, [], ◌∷◌, ◌++◌, ◌==◌, ltb, if◌then◌else◌, length}
use lockness.Word.Bits.{complement}
use lockness.Machine.Program.{Loc, Prog, ret, read, undefined, ◌>>=◌, ◌>>◌}
use lockness.Machine.Access.{swap, fetch_and, wake_if}
use lockness.Bags.Mpmc.Status.{n, counterparty_dead, sleeping, all, contains}
use lockness.Bags.Mpmc.Drain.{drain_mask}

-- `Result<ArrayVec<T, N>, TryRecvError>`.
pub data TryRecv (T : Type 0) : Type 0 where
  received : List T → TryRecv T
  disconnected : TryRecv T
  empty : TryRecv T

module _ {T : Type 0} where
  -- The closure that empties one cell; `push_unchecked` on a full `ArrayVec` is undefined.
  unfoldable pub collect : ℕ → List T → Prog T (List T)
  collect i values = read i λ v. if ltb (length values) n then ret (values ++ v ∷ []) else undefined

  -- Gives the cells back; gives the previous value of `send`.
  unfoldable pub release : Bool → ℕ → Prog T ℕ
  release x86 claimed =
      let commit_mask = bit_and (complement 32 claimed) (complement 32 all) in
      if x86 && commit_mask == 0 then swap Loc.send commit_mask else fetch_and Loc.send commit_mask

  unfoldable pub take_claimed : Bool → ℕ → Prog T (TryRecv T)
  unfolding ◌>>=◌ ◌>>◌ collect release drain_mask contains complement
  take_claimed x86 claimed = do
    values ← drain_mask n collect claimed []
    prev ← release x86 claimed
    wake_if (contains prev sleeping) Loc.send 1
    ret (received values)

  -- What `try_recv` does with the previous value of `recv`.
  unfoldable pub after_claim : Bool → ℕ → Prog T (TryRecv T)
  unfolding take_claimed
  after_claim x86 prev =
      let claimed = bit_and prev (complement 32 all) in
      if claimed == 0
      then (if contains (complement 32 prev) counterparty_dead then ret disconnected else ret empty)
      else take_claimed x86 claimed

  unfoldable pub try_recv : Bool → Prog T (TryRecv T)
  unfolding ◌>>=◌ after_claim
  try_recv x86 = fetch_and Loc.recv all >>= after_claim x86
