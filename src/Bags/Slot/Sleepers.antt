-- ===== src/Bags/Slot/Sleepers.antt =====
-- Who sleeps on the words `send` and `recv` of bags/src/slot.rs, and who sees to them.
pub mod Words
pub mod Sending
pub mod Receiving
pub mod Blocking
pub mod Clients
pub mod Marks
pub mod Seen
pub mod Deadlock
use lockness.Prelude.{ℕ, suc, ◌^◌, ◌<◌, ◌≡◌, Bool, true, false, ◌&&◌, ◌==◌}
use lockness.Machine.Program.{Loc}
use lockness.Bags.Mpmc.Status.{contains}
use lockness.Bags.Slot.Status.{send_sleeping, recv_sleeping, reservations}
use lockness.Bags.Slot.Status.Flags.{room, send_word, recv_word, reserved}

-- The words that the threads of a slot reach.
abbrev pub IsWord : Bool → Loc → ℕ → Type 0
IsWord x86 Loc.send w =
    (dead : Bool) × (asleep : Bool) × (count : ℕ) × (w ≡ send_word x86 dead asleep count)
    × (count < 2 ^ room x86)
    × (x86 ≡ true → suc count < 2 ^ 62)
IsWord x86 Loc.recv w =
    (there : Bool) × (asleep : Bool) × (dead : Bool) × (w ≡ recv_word there asleep dead)
IsWord x86 _ w = Unit

-- SLEEPING in `send`; in `recv`, SLEEPING and nothing else.
abbrev pub flag : Bool → Loc → ℕ → Bool
flag x86 Loc.send w = contains w (send_sleeping x86)
flag x86 Loc.recv w = w == recv_sleeping
flag x86 _ w = false

-- A sender is said to sleep although nobody has the slot.
abbrev pub alarm : Bool → Loc → ℕ → Bool
alarm x86 Loc.send w = flag x86 Loc.send w && reservations x86 w == 0
alarm x86 _ w = false

-- The reservation of `try_send`, which sees to the alarm.
abbrev pub looked : Bool → Loc → ℕ → ℕ
looked x86 Loc.send w = reserved x86 w
looked x86 _ w = w
