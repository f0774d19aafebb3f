-- ===== src/Bags/Mpmc/Masks.antt =====
-- The request masks of a sender: bags/src/mpmc.rs, `compute_request_mask`, `clear_extra_bits`.
pub mod Window
pub mod Trim
pub mod Tests
use lockness.Prelude.{
  ℕ, zero, suc, ◌+◌, ◌-◌, ◌*◌, ◌/◌, ◌%◌, ◌^◌, min, bit_and, bit_or, Bool, ◌==◌, ltb, leb,
  if◌then◌else◌,
}
use lockness.Word.Bits.{test_bit}
use lockness.Word.Count.{count_ones, reverse_bits, clear_lowest}

-- `1i32 << 31` as a bit pattern.
abbrev pub high_bit : ℕ
high_bit = 2 ^ 31

-- `>>` on an i32, which copies the sign, on bit patterns.
unfoldable pub shift_right_i32 : ℕ → ℕ → ℕ
shift_right_i32 x k = if leb (2 ^ 31) x then x / 2 ^ k + (2 ^ 32 - 2 ^ (32 - k)) else x / 2 ^ k

-- `u32::rotate_right`.
unfoldable pub rotate_right : ℕ → ℕ → ℕ
rotate_right x k = bit_or (x / 2 ^ (k % 32)) (x * 2 ^ (32 - k % 32) % 2 ^ 32)

-- `<<` on a u32.
unfoldable pub shift_left : ℕ → ℕ → ℕ
shift_left x k = x * 2 ^ k % 2 ^ 32

unfoldable pub compute_request_mask : ℕ → ℕ → ℕ → ℕ
unfolding shift_right_i32 rotate_right shift_left
compute_request_mask n available_items bias =
    let available = min available_items n in
    let mask = shift_right_i32 high_bit (available - 1) in
    let num_status_bits : ℕ = 2 in
    let overstepped = rotate_right mask (bias + num_status_bits) in
    if bias == 0
    then mask
    else bit_or (bit_and overstepped (shift_right_i32 high_bit (bias - 1)))
        (shift_left overstepped num_status_bits)

-- The `while` of `clear_extra_bits`; each round takes one from `set_bits`.
unfoldable pub clear_loop : ℕ → ℕ → ℕ → ℕ
unfolding clear_lowest
clear_loop zero max mask = mask
clear_loop (suc left) max mask =
    let rest = clear_loop left max (clear_lowest mask) in if ltb max (suc left) then rest else mask

unfoldable pub clear_extra_bits : ℕ → ℕ → Bool → ℕ
unfolding clear_loop count_ones reverse_bits
clear_extra_bits mask max direction =
    let set_bits = count_ones 32 mask in
    let turned = if direction then reverse_bits 32 mask else mask in
    let cleared = clear_loop set_bits max turned in
    if direction then reverse_bits 32 cleared else cleared
