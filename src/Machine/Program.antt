-- ===== src/Machine/Program.antt =====
-- Programs over shared memory, one shared access at a time, for bags/src/mpmc.rs and slot.rs.
-- Accesses are sequentially consistent: the orderings and fences of the source add nothing here.
use lockness.Prelude.{ℕ, Option, ◌==◌, if◌then◌else◌, List, ◌∷◌, Bool, true, false}

-- The atomic words of `Inner`.
pub data Loc : Type 0 where
  send recv num_senders num_receivers : Loc

abbrev pub same_loc : Loc → Loc → Bool
same_loc Loc.send Loc.send = true
same_loc Loc.recv Loc.recv = true
same_loc Loc.num_senders Loc.num_senders = true
same_loc Loc.num_receivers Loc.num_receivers = true
same_loc _ _ = false

-- `T` is the type of the messages, `A` that of the result.
pub data Prog (T A : Type 0) : Type 0 where
  ret : A → Prog T A
  -- An atomic read-modify-write, which hands on the previous value. A load changes nothing.
  rmw : Loc → (ℕ → ℕ) → (ℕ → Prog T A) → Prog T A
  -- `ptr::write` of a cell, and `ptr::read(..).assume_init()` or `assume_init_drop` of one.
  write : ℕ → T → Prog T A → Prog T A
  read : ℕ → (T → Prog T A) → Prog T A
  -- The two futex calls. A wait sleeps if the word is as its test says; a wake has the number of
  -- waiters to be woken.
  wait : Loc → (ℕ → Bool) → Prog T A → Prog T A
  wake : Loc → ℕ → Prog T A → Prog T A
  -- `abort_with_message`; undefined behaviour of an `unwrap_unchecked`; a loop's fuel ran out.
  abort : Prog T A
  undefined : Prog T A
  out_of_fuel : Prog T A

infixl 5 ◌>>=◌ ◌>>◌
unfoldable pub ◌>>=◌ : {T A B : Type 0} → Prog T A → (A → Prog T B) → Prog T B
ret a >>= g = g a
rmw l f k >>= g = rmw l f (λ w. k w >>= g)
write i v k >>= g = write i v (k >>= g)
read i k >>= g = read i (λ v. k v >>= g)
wait l e k >>= g = wait l e (k >>= g)
wake l n k >>= g = wake l n (k >>= g)
abort >>= g = abort
undefined >>= g = undefined
out_of_fuel >>= g = out_of_fuel

unfoldable pub ◌>>◌ : {T B : Type 0} → Prog T (Unit {0}) → Prog T B → Prog T B
unfolding ◌>>=◌
m >> k = m >>= λ _. k

-- The memory of one channel. `wakes` lists the `futex::wake` calls, the latest first.
pub record Shared (T : Type 0) : Type 0 where
  pub word : Loc → ℕ
  pub cell : ℕ → Option T
  pub wakes : List (Loc × ℕ)

abbrev pub set_word : {T : Type 0} → Shared T → Loc → ℕ → Shared T
set_word s l v = record s { word = λ m. if same_loc l m then v else s.word m }

abbrev pub set_cell : {T : Type 0} → Shared T → ℕ → Option T → Shared T
set_cell s i o = record s { cell = λ j. if i == j then o else s.cell j }

abbrev pub add_wake : {T : Type 0} → Shared T → Loc → ℕ → Shared T
add_wake s l n = record s { wakes = (l, n) ∷ s.wakes }
