-- ===== src/Bags/Mpmc/Blocking.antt =====
-- The calls that wait: bags/src/mpmc.rs, `Sender::send` and `Receiver::recv`.
-- `fuel` bounds the rounds of the outer loops, each of which may sleep once.
use lockness.Prelude.{ℕ, zero, suc, bit_and, bit_or, Bool, List, ltb, if◌then◌else◌}
use lockness.Word.Bits.{complement}
use lockness.Machine.Program.{Loc, Prog, ret, out_of_fuel, ◌>>=◌, ◌>>◌}
use lockness.Machine.Access.{load, fetch_or, fetch_and, atomic_sleep}
use lockness.Bags.Mpmc.Status.{u32_max, counterparty_dead, sleeping, all, contains}
use lockness.Bags.Mpmc.Buffer.{Buffer, Container}
use lockness.Bags.Mpmc.Sender.{TrySend, try_send}
use lockness.Bags.Mpmc.Receiver.{TryRecv, try_recv}

-- How a spin loop ends: `continue 'outer`, the error, or sleep on the value that was seen.
pub data Spin : Type 0 where
  retry : Spin
  gone : Spin
  sleep_on : ℕ → Spin

-- `Result<(), SendError>`; a success shows what a vector keeps.
pub data Send (T : Type 0) : Type 0 where
  sent : Container T → Send T
  disconnected : Buffer T → Send T

-- `Result<ArrayVec<T, N>, RecvError>`.
pub data Recv (T : Type 0) : Type 0 where
  received : List T → Recv T
  disconnected : Recv T

module _ {T : Type 0} where
  -- The tests of one round of the spin loop of `send`; `next` is the following round.
  unfoldable pub check_send : ℕ → Prog T Spin → Prog T Spin
  unfolding contains
  check_send word next =
      if ltb (bit_or word all) u32_max
      then ret retry
      else if contains word counterparty_dead
      then ret gone
      else if contains word sleeping
      then ret (sleep_on word)
      else next

  -- `spin` falls from 32; at 0 the bit is set that ends the loop, so there is no next round.
  unfoldable pub spin_send : ℕ → Prog T Spin
  unfolding ◌>>=◌ check_send
  spin_send zero =
      fetch_or Loc.send sleeping >>= λ prev. check_send (bit_or prev sleeping) out_of_fuel
  spin_send (suc spin) = load Loc.send >>= λ word. check_send word (spin_send spin)

  unfoldable pub after_spin_send : Buffer T → Prog T (Send T) → Spin → Prog T (Send T)
  unfolding ◌>>=◌ ◌>>◌
  after_spin_send data' again retry = again
  after_spin_send data' again gone = ret (Send.disconnected data')
  after_spin_send data' again (sleep_on expected) = do
    atomic_sleep Loc.send expected
    _ ← fetch_or Loc.send sleeping
    again

  unfoldable pub after_try_send : (Buffer T → Prog T (Send T)) → TrySend T → Prog T (Send T)
  unfolding ◌>>=◌ spin_send after_spin_send
  after_try_send again (TrySend.sent rest) = ret (Send.sent rest)
  after_try_send again (TrySend.disconnected data') = ret (Send.disconnected data')
  after_try_send again (TrySend.full restored) =
      spin_send 32 >>= after_spin_send restored (again restored)

  unfoldable pub send : ℕ → Bool → ℕ → ℕ → Buffer T → Prog T (Send T)
  unfolding ◌>>=◌ try_send after_try_send
  send zero x86 tries bias data' = out_of_fuel
  send (suc fuel) x86 tries bias data' =
      try_send x86 tries bias data' >>= after_try_send (λ d. send fuel x86 tries bias d)

  unfoldable pub check_recv : ℕ → Prog T Spin → Prog T Spin
  unfolding contains complement
  check_recv word next =
      let status = complement 32 word in
      if ltb 0 (bit_and word (complement 32 all))
      then ret retry
      else if contains status counterparty_dead
      then ret gone
      else if contains status sleeping
      then ret (sleep_on word)
      else next

  unfoldable pub spin_recv : ℕ → Prog T Spin
  unfolding ◌>>=◌ check_recv
  spin_recv zero = fetch_and Loc.recv (complement 32 sleeping) >>= λ prev.
      check_recv (bit_and prev (complement 32 sleeping)) out_of_fuel
  spin_recv (suc spin) = load Loc.recv >>= λ word. check_recv word (spin_recv spin)

  unfoldable pub after_spin_recv : Prog T (Recv T) → Spin → Prog T (Recv T)
  unfolding ◌>>=◌ ◌>>◌ complement
  after_spin_recv again retry = again
  after_spin_recv again gone = ret Recv.disconnected
  after_spin_recv again (sleep_on expected) = do
    atomic_sleep Loc.recv expected
    _ ← fetch_and Loc.recv (complement 32 sleeping)
    again

  unfoldable pub after_try_recv : Prog T (Recv T) → TryRecv T → Prog T (Recv T)
  unfolding ◌>>=◌ spin_recv after_spin_recv
  after_try_recv again (TryRecv.received values) = ret (Recv.received values)
  after_try_recv again TryRecv.disconnected = ret Recv.disconnected
  after_try_recv again TryRecv.empty = spin_recv 32 >>= after_spin_recv again

  unfoldable pub recv : ℕ → Bool → Prog T (Recv T)
  unfolding ◌>>=◌ try_recv after_try_recv
  recv zero x86 = out_of_fuel
  recv (suc fuel) x86 = let again = recv fuel x86 in try_recv x86 >>= after_try_recv again
