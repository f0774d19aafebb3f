-- ===== src/Bags/Slot/Sender.antt =====
-- The sending half of bags/src/slot.rs. `x86` says whether the target is x86_64; `fuel` bounds the
-- rounds of the outer loop of `send`.
use lockness.Prelude.{
  ℕ, zero, suc, ◌+◌, ◌/◌, ◌%◌, ◌^◌, bit_or, Bool, ◌&&◌, ◌==◌, ltb, if◌then◌else◌,
}
use lockness.Machine.Program.{Loc, Prog, ret, rmw, write, abort, out_of_fuel, ◌>>=◌, ◌>>◌}
use lockness.Machine.Access.{load, swap, fetch_or, wake_if, atomic_sleep, atomic_sleep_high}
use lockness.Bags.Mpmc.Status.{contains}
use lockness.Bags.Slot.Status.{
  receiver_dead, send_sleeping, abort_limit, reservations, committed, recv_sleeping, slot,
}

-- `Result<(), TrySendError<T>>` and `Result<(), SendError<T>>`.
pub data TrySend (T : Type 0) : Type 0 where
  sent : TrySend T
  disconnected full : T → TrySend T

pub data Send (T : Type 0) : Type 0 where
  sent : Send T
  disconnected : T → Send T

-- How the spin loop of `send` ends: `continue 'outer`, the error, or sleep on the value seen.
pub data Spin : Type 0 where
  retry gone : Spin
  sleep_on : ℕ → Spin

module _ {T : Type 0} where
  -- A reservation; the previous value of `send`.
  unfoldable pub reserve : Bool → Prog T ℕ
  reserve x86 = if x86 then rmw Loc.send (λ w. (w + 1) % 2 ^ 64) ret else fetch_or Loc.send 1

  unfoldable pub fill : T → Prog T (TrySend T)
  unfolding ◌>>=◌ ◌>>◌ contains
  fill data' = write slot data' (
      swap Loc.recv committed >>= λ prev.
      wake_if (contains prev recv_sleeping) Loc.recv 1 >> ret TrySend.sent)

  -- What `try_send` does with the previous value of `send`.
  unfoldable pub after_reserve : Bool → T → ℕ → Prog T (TrySend T)
  unfolding fill contains reservations
  after_reserve x86 data' prev =
      if x86 && ltb abort_limit (reservations x86 prev)
      then abort
      else if contains prev (receiver_dead x86)
      then ret (TrySend.disconnected data')
      else if ltb 0 (reservations x86 prev)
      then ret (TrySend.full data')
      else fill data'

  unfoldable pub try_send : Bool → T → Prog T (TrySend T)
  unfolding ◌>>=◌ reserve after_reserve
  try_send x86 data' = reserve x86 >>= after_reserve x86 data'

  -- The tests of one round of the spin loop; `next` is the following round.
  unfoldable pub check_send : Bool → ℕ → Prog T Spin → Prog T Spin
  unfolding contains reservations
  check_send x86 send next =
      if reservations x86 send == 0
      then ret retry
      else if contains send (receiver_dead x86)
      then ret gone
      else if contains send (send_sleeping x86)
      then ret (sleep_on send)
      else next

  -- `spin` falls from 32; at 0 the bit is set that ends the loop, so there is no next round.
  unfoldable pub spin_send : Bool → ℕ → Prog T Spin
  unfolding ◌>>=◌ check_send
  spin_send x86 zero = fetch_or Loc.send (send_sleeping x86) >>= λ prev.
      check_send x86 (bit_or prev (send_sleeping x86)) out_of_fuel
  spin_send x86 (suc spin) = load Loc.send >>= λ send. check_send x86 send (spin_send x86 spin)

  abbrev pub sleep_send : Bool → ℕ → Prog T (Unit {0})
  sleep_send x86 expected =
      if x86 then atomic_sleep_high Loc.send (expected / 2 ^ 32) else atomic_sleep Loc.send expected

  unfoldable pub after_spin_send : Bool → T → Prog T (Send T) → Spin → Prog T (Send T)
  unfolding ◌>>=◌ ◌>>◌
  after_spin_send x86 data' again retry = again
  after_spin_send x86 data' again gone = ret (Send.disconnected data')
  after_spin_send x86 data' again (sleep_on expected) = do
    sleep_send x86 expected
    _ ← fetch_or Loc.send (send_sleeping x86)
    again

  unfoldable pub after_try_send : Bool → (T → Prog T (Send T)) → TrySend T → Prog T (Send T)
  unfolding ◌>>=◌ spin_send after_spin_send
  after_try_send x86 again TrySend.sent = ret Send.sent
  after_try_send x86 again (TrySend.disconnected data') = ret (Send.disconnected data')
  after_try_send x86 again (TrySend.full restored) =
      spin_send x86 32 >>= after_spin_send x86 restored (again restored)

  unfoldable pub send : ℕ → Bool → T → Prog T (Send T)
  unfolding ◌>>=◌ try_send after_try_send
  send zero x86 data' = out_of_fuel
  send (suc fuel) x86 data' = try_send x86 data' >>= after_try_send x86 (λ d. send fuel x86 d)
