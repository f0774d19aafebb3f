-- ===== src/Bags/Mpmc/Sleepers.antt =====
-- Who sleeps on the words `send` and `recv` of bags/src/mpmc.rs, and who sees to them.
pub mod Words
pub mod Sending
pub mod Receiving
pub mod Blocking
pub mod Clients
use lockness.Prelude.{ℕ, ◌^◌, ◌<◌, bit_and, Bool, false, ◌&&◌, ltb}
use lockness.Word.Bits.{complement}
use lockness.Machine.Program.{Loc}
use lockness.Bags.Mpmc.Status.{sleeping, all, contains}

abbrev pub IsWord : Loc → ℕ → Type 0
IsWord _ w = w < 2 ^ 32

-- The flag SLEEPING, which is inverted in `recv`.
abbrev pub flag : Loc → ℕ → Bool
flag Loc.send w = contains w sleeping
flag Loc.recv w = contains (complement 32 w) sleeping
flag _ w = false

-- A receiver is said to sleep although a cell is committed.
abbrev pub alarm : Loc → ℕ → Bool
alarm Loc.recv w = flag Loc.recv w && ltb 0 (bit_and w (complement 32 all))
alarm _ w = false

-- The claim of `try_recv`, which sees to the alarm: all committed cells are taken out of the word.
abbrev pub looked : Loc → ℕ → ℕ
looked Loc.recv w = bit_and w all
looked _ w = w
