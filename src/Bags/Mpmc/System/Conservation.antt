-- ===== src/Bags/Mpmc/System/Conservation.antt =====
-- The messages on their way through the bag of bags/src/mpmc.rs.
use lockness.Prelude.{
  ℕ, zero, suc, ◌+◌, ◌<◌, ◌≤◌, ◌≡◌, refl, sym, ap, true, ◌==◌, if◌then◌else◌, Option, none, some,
  List, [], ◌∷◌, arith, ltb, ltb→lt,
}
use native.Mathlib.Decide.{dec_lt}
use lockness.Machine.Program.{Prog, Shared}
use lockness.Bags.Mpmc.Status.{n}
use lockness.Bags.Mpmc.Handles.{mpmc}
use lockness.Machine.Threads.{
  access, IsDefined, Event, Move, System, pick, Reach, start, later, puts, gots,
}
use lockness.Bags.Mpmc.System.Clients.{IsClient}
use lockness.Bags.Mpmc.System.Safety.{Reach-IsDefined, access-lt}

-- The sum of the weights of a list, of a cell, and of the first `k` cells.
module _ {T : Type 0} (w : T → ℕ) where
  abbrev pub total : List T → ℕ
  total [] = 0
  total (v ∷ l) = w v + total l

  abbrev pub cell_weight : Option T → ℕ
  cell_weight none = 0
  cell_weight (some v) = w v

  pub cells_weight : ℕ → (ℕ → Option T) → ℕ
  cells_weight zero c = 0
  cells_weight (suc k) c = cells_weight k c + cell_weight (c k)

  abbrev change : (ℕ → Option T) → ℕ → Option T → ℕ → Option T
  change c i o j = if i == j then o else c j

  cells_weight-change_ge :
      (k : ℕ) (c : ℕ → Option T) (i : ℕ) (o : Option T)
      → k ≤ i
      → cells_weight k (change c i o) ≡ cells_weight k c
  unfolding cells_weight
  cells_weight-change_ge zero c i o le = refl
  cells_weight-change_ge (suc k) c i o le = ground (arith, cells_weight-change_ge k c i o)

  pub cells_weight-change :
      (k : ℕ) (c : ℕ → Option T) (i : ℕ) (o : Option T)
      → i < k
      → cells_weight k (change c i o) + cell_weight (c i) ≡ cells_weight k c + cell_weight o
  unfolding cells_weight
  cells_weight-change zero c i o lt = absurd (omega arith)
  cells_weight-change (suc k) c i o lt = elim (dec_lt i k) [
    | yes below ↦ ground (arith, cells_weight-change k c i o below)
    | no last ↦ ground (arith, cells_weight-change_ge k c i o)
  ]

  cells_weight-none : (k : ℕ) → cells_weight k (λ i. none) ≡ 0
  unfolding cells_weight
  cells_weight-none zero = refl
  cells_weight-none (suc k) = omega (arith, cells_weight-none k)

  Move-balance :
      {m m' : Shared T} {p p' : Prog T (Unit {0})} {e : Event T} (written taken : List T)
      → Move m p m' p' e
      → IsDefined m p
      → ((i : ℕ) → access p ≡ some i → ltb i n ≡ true)
      → total written ≡ total taken + cells_weight n m.cell
      → total (puts e written) ≡ total (gots e taken) + cells_weight n m'.cell
  Move-balance written taken Move.rmw d range b = b
  Move-balance {m} written taken (Move.write {i} {v} {k}) d range b =
      omega (
        arith,
        cells_weight-change n m.cell i (some v) (ltb→lt i n (range i refl)),
        ap cell_weight d,
      )
  Move-balance {m} written taken (Move.read {i} {v} {k} c) d range b =
      omega
        (arith, cells_weight-change n m.cell i none (ltb→lt i n (range i refl)), ap cell_weight c)
  Move-balance written taken Move.wait d range b = b
  Move-balance written taken Move.wake d range b = b

  start_balance : 0 ≡ cells_weight n (mpmc {T = T}).cell
  unfolding mpmc
  start_balance = sym (cells_weight-none n)

  -- However the calls of clients of one channel interleave, and whatever the values are weighed by,
  -- those written to cells so far weigh as much as those taken and those still in the 30 cells.
  pub conserved :
      {thread : ℕ → Prog T (Unit {0})} {s : System T}
      → ((t : ℕ) → IsClient (thread t))
      → Reach mpmc thread s
      → total s.written ≡ total s.taken + cells_weight n s.mem.cell
  conserved clients start = omega (arith, start_balance)
  conserved clients (later {s} r (pick t mv)) =
      Move-balance s.written s.taken mv (Reach-IsDefined clients r t) (access-lt clients r t)
        (conserved clients r)
