-- ===== src/Executor/Error.antt =====
-- executor/src/error.rs: what a panicked task reads as.
pub mod Prints
use lockness.Prelude.{ℕ, Bool, true, false, Option, none, some, List, [], ◌∷◌}

-- The payload of a panic, a `Box<dyn Any + Send>`, as far as it can be downcast here.
pub data Payload : Type 0 where
  string str : List ℕ → Payload
  unknown : Payload

-- `SyncWrapper` has the payload alone.
pub record JoinError : Type 0 where
  pub payload : Payload

abbrev pub from_join_error : Payload → JoinError
from_join_error p = record { payload = p }

abbrev pub into_inner : JoinError → Payload
into_inner e = e.payload

pub data Error (E : Type 0) : Type 0 where
  panic : JoinError → Error E
  error : E → Error E

abbrev pub downcast_string : Payload → Option (List ℕ)
downcast_string (Payload.string s) = some s
downcast_string _ = none

abbrev pub downcast_str : Payload → Option (List ℕ)
downcast_str (Payload.str s) = some s
downcast_str _ = none

-- "task panic: ", "task panic with unknown payload", "JoinError(" and ")".
abbrev pub task_panic : List ℕ
task_panic = 116 ∷ 97 ∷ 115 ∷ 107 ∷ 32 ∷ 112 ∷ 97 ∷ 110 ∷ 105 ∷ 99 ∷ 58 ∷ 32 ∷ []

abbrev pub unknown_payload : List ℕ
unknown_payload =
    116 ∷ 97 ∷ 115 ∷ 107 ∷ 32 ∷ 112 ∷ 97 ∷ 110 ∷ 105 ∷ 99 ∷ 32 ∷ 119 ∷ 105 ∷ 116 ∷ 104 ∷ 32 ∷ 117
    ∷ 110 ∷ 107 ∷ 110 ∷ 111 ∷ 119 ∷ 110 ∷ 32 ∷ 112 ∷ 97 ∷ 121 ∷ 108 ∷ 111 ∷ 97 ∷ 100 ∷ []

abbrev pub join_error : List ℕ
join_error = 74 ∷ 111 ∷ 105 ∷ 110 ∷ 69 ∷ 114 ∷ 114 ∷ 111 ∷ 114 ∷ 40 ∷ []

abbrev pub closing : List ℕ
closing = 41 ∷ []

-- Whether a call that writes to `S` is `Ok`, and what it leaves.
abbrev pub Fmt : Type 0 → Type 0
Fmt S = S → Bool × S

-- `?`: `g` runs where `f` is `Ok`.
infixl 5 ◌>>◌
abbrev pub ◌>>◌ : {S : Type 0} → Fmt S → Fmt S → Fmt S
(f >> g) s = let (ok, s') = f s in let rest = g s' in elim ok [ true ↦ rest | false ↦ (false, s') ]

-- `write_str` is that of the `fmt::Write` which the formatter writes to.
module _ {S : Type 0} (write_str : List ℕ → Fmt S) where
  unfoldable pub dump_panic_payload : Payload → Fmt S
  dump_panic_payload payload = elim (downcast_string payload) [
    | some s ↦ write_str task_panic >> write_str s
    | none ↦ elim (downcast_str payload) [
      | some s ↦ write_str task_panic >> write_str s
      | none ↦ write_str unknown_payload
    ]
  ]

  -- `fmt` of `Display` and of `Debug`.
  unfoldable pub fmt_display : JoinError → Fmt S
  unfolding dump_panic_payload
  fmt_display e = dump_panic_payload e.payload

  unfoldable pub fmt_debug : JoinError → Fmt S
  unfolding dump_panic_payload
  fmt_debug e =
      write_str join_error >> dump_panic_payload e.payload >> write_str closing >> (λ s. (true, s))
