-- ===== src/Vecs/ClosureVec.antt =====
-- vecs/src/closure_vec.rs: a vector of closures whose type is forgotten.
pub mod Runs
pub mod Life
use lockness.Prelude.{
  ℕ, zero, suc, Bool, true, false, Option, none, some, List, [], ◌∷◌, ◌++◌, ◌==◌, if◌then◌else◌,
}
use lockness.Vecs.Layout.{TypeLayout}
use lockness.Vecs.FreestandingVec.{Result, ok, panic, alloc_error, undefined, ◌>>=◌, Block}
use lockness.Vecs.FreestandingVec

-- What happened to a closure: it was called, or dropped without a call.
pub data Task (V : Type 0) : Type 0 where
  ran : V → Task V
  dropped : V → Task V

-- A closure in the vector, with its type: the types of closures are numbered, and `kind` stands for
-- the type parameter `F`.
pub record Closure (V : Type 0) : Type 0 where
  pub of_type : ℕ
  pub body : V

-- `task_fn`, which takes the closure and `just_drop`.
pub record Metadata (V : Type 0) : Type 0 where
  pub task_fn : Closure V → Bool → Result (Task V)

-- The vector, and what its closures did so far.
pub record ClosureVec (V : Type 0) : Type 0 where
  pub data' : Block (Metadata V) (Closure V)
  pub log : List (Task V)

module _ {V : Type 0} where
  abbrev pub closure : ℕ → V → Closure V
  closure kind v = record { of_type = kind; body = v }

  abbrev pub task : Bool → V → Task V
  task just_drop v = if just_drop then dropped v else ran v

  -- `call::<F>`: a closure of another type read as one of `F` is undefined behaviour.
  unfoldable pub call : ℕ → Closure V → Bool → Result (Task V)
  call kind f just_drop = if f.of_type == kind then ok (task just_drop f.body) else undefined

  abbrev pub init_metadata : ℕ → Metadata V
  init_metadata kind = record { task_fn = call kind }

  -- Metadata are function pointers, of which a drop does nothing.
  module _ (grants : ℕ → Bool) (header t : TypeLayout) (kind : ℕ) where
    unfoldable pub new : Result (ClosureVec V)
    new = FreestandingVec.new grants header t (init_metadata kind) >>= λ r.
        ok (record { data' = r.1; log = [] })

    unfoldable pub update_type : ClosureVec V → Result (ClosureVec V)
    update_type c =
        FreestandingVec.init grants header t (some c.data') (init_metadata kind) >>= λ r.
        ok (record c { data' = r.1 })

    unfoldable pub push : ClosureVec V → V → Result (ClosureVec V)
    push c value = FreestandingVec.push grants header t c.data' (closure kind value) >>= λ b.
        ok (record c { data' = b })

  module _ (header : TypeLayout) where
    -- The closure that `pop` is given, and `is_none`.
    unfoldable pub finish :
        Bool
        → List (Task V)
        → Option (Option (Metadata V) × Closure V) × Block (Metadata V) (Closure V)
        → Result (Bool × ClosureVec V)
    finish just_drop log (none, b) = ok (true, record { data' = b; log = log })
    finish just_drop log (some (none, v), b) = undefined
    finish just_drop log (some (some m, v), b) =
        m.task_fn v just_drop >>= λ done. ok (false, record { data' = b; log = log ++ done ∷ [] })

    unfoldable pub pop_and_run_ : Bool → ClosureVec V → Result (Bool × ClosureVec V)
    unfolding finish
    pop_and_run_ just_drop c = FreestandingVec.pop header c.data' >>= finish just_drop c.log

    -- The result says whether the vector was empty.
    unfoldable pub pop_and_run : ClosureVec V → Result (Bool × ClosureVec V)
    unfolding pop_and_run_
    pop_and_run c = pop_and_run_ false c

    -- `while !self.pop_and_run_(true) {}`, with fuel; `none` if the fuel runs out.
    unfoldable pub clear : ℕ → ClosureVec V → Option (Result (ClosureVec V))
    unfolding pop_and_run_
    clear zero c = none
    clear (suc fuel) c = elim (pop_and_run_ true c) [
      | ok (stop, c') ↦ let rest = clear fuel c' in if stop then some (ok c') else rest
      | panic ↦ some Result.panic
      | alloc_error ↦ some Result.alloc_error
      | undefined ↦ some Result.undefined
    ]

    -- `Drop`: what became of the closures, and the data, whose own `Drop` gives its block back.
    unfoldable pub give_back :
        ClosureVec V
        → Result (List (Task V) × FreestandingVec.FreestandingVec (Metadata V) (Closure V))
    give_back c = FreestandingVec.drop (some c.data') >>= λ r. ok (c.log, r.1)

    unfoldable pub after_clear :
        Option (Result (ClosureVec V))
        → Option (Result (List (Task V) × FreestandingVec.FreestandingVec (Metadata V) (Closure V)))
    unfolding give_back
    after_clear none = none
    after_clear (some r) = some (r >>= give_back)

    unfoldable pub drop :
        ℕ
        → ClosureVec V
        → Option (Result (List (Task V) × FreestandingVec.FreestandingVec (Metadata V) (Closure V)))
    unfolding clear after_clear
    drop fuel c = after_clear (clear fuel c)
