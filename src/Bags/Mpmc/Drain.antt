-- ===== src/Bags/Mpmc/Drain.antt =====
-- `drain_mask` of bags/src/mpmc.rs: a call for each set bit of a mask, from the highest.
pub mod Order
use lockness.Prelude.{ℕ, zero, suc, ◌-◌, ◌^◌, bit_and, leb, if◌then◌else◌}
use lockness.Word.Bits.{complement}
use lockness.Word.LeadingZeros.{leading_zeros}
use lockness.Machine.Program.{Prog, ret, out_of_fuel, ◌>>=◌}

-- `mask & !(1 << (u32::BITS - i - 1))`.
unfoldable pub clear_bit : ℕ → ℕ → ℕ
clear_bit mask i = bit_and mask (complement 32 (2 ^ (32 - i - 1)))

-- The closure's captured state is `S`; `bag[i]` is the cell `i`. A loop over `n` cells takes at
-- most `n + 1` rounds, so the callers give that much fuel.
module _ {T S : Type 0} (n : ℕ) (f : ℕ → S → Prog T S) where
  unfoldable pub drain_loop : ℕ → ℕ → S → Prog T S
  unfolding ◌>>=◌ clear_bit leading_zeros
  drain_loop zero mask s = out_of_fuel
  drain_loop (suc fuel) mask s =
      let i = leading_zeros 32 mask in
      let rest = f i s >>= λ s'. drain_loop fuel (clear_bit mask i) s' in
      if leb n i then ret s else rest

  unfoldable pub drain_mask : ℕ → S → Prog T S
  unfolding drain_loop
  drain_mask mask s = drain_loop (suc n) mask s
