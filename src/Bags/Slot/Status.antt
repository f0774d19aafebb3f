-- ===== src/Bags/Slot/Status.antt =====
-- The words of bags/src/slot.rs: `SendStatus` and `RecvStatus`.
pub mod Words
pub mod Flags
pub mod Recv
use lockness.Prelude.{ℕ, ◌+◌, ◌-◌, ◌/◌, ◌%◌, ◌^◌, bit_and, bit_or, Bool, true, if◌then◌else◌}
use lockness.Word.Bits.{complement}

-- `SendStatusU` is `u64` on x86_64 and `u32` elsewhere.
abbrev pub width : Bool → ℕ
width x86 = if x86 then 64 else 32

-- The two highest bits of `send`; the others count the reservations.
abbrev pub receiver_dead : Bool → ℕ
receiver_dead x86 = 2 ^ (width x86 - 1)

abbrev pub send_sleeping : Bool → ℕ
send_sleeping x86 = 2 ^ (width x86 - 2)

abbrev pub all_send : Bool → ℕ
all_send x86 = bit_or (receiver_dead x86) (send_sleeping x86)

-- `(all & (!all + 1)) >> 1`, on x86_64 only.
abbrev pub abort_limit : ℕ
abort_limit = bit_and (all_send true) ((complement 64 (all_send true) + 1) % 2 ^ 64) / 2

unfoldable pub reservations : Bool → ℕ → ℕ
unfolding complement
reservations x86 send = bit_and send (complement (width x86) (all_send x86))

abbrev pub committed : ℕ
committed = 1

abbrev pub recv_sleeping : ℕ
recv_sleeping = 2

abbrev pub sender_dead : ℕ
sender_dead = 4

-- The index of the one cell.
abbrev pub slot : ℕ
slot = 0
