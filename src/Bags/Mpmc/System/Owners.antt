-- ===== src/Bags/Mpmc/System/Owners.antt =====
-- Who has a cell, and what the two words and the cell show of it.
use lockness.Prelude.{ℕ, ◌≡◌, ◌≢◌, refl, Bool, true, false, ◌==◌, if◌then◌else◌, Option, arith}
use lockness.Machine.Program.{Loc}
use lockness.Machine.Threads.{is_some}
use lockness.Bags.Mpmc.Protocol.Obeys.{Hold, nothing, empty, full, step_hold, May, Sees}

-- A cell is free, holds a value for any receiver, or is had by a thread, empty or with a value.
pub data Owner : Type 0 where
  free ready : Owner
  empty_of full_of : ℕ → Owner

abbrev pub view : ℕ → Owner → Hold
view t free = nothing
view t ready = nothing
view t (empty_of u) = if u == t then empty else nothing
view t (full_of u) = if u == t then full else nothing

-- The owner after thread `t` has changed a bit of a word.
abbrev pub step_owner : ℕ → Loc → Bool → Bool → Owner → Owner
step_owner t Loc.send false true o = empty_of t
step_owner t Loc.send true false o = free
step_owner t Loc.recv true false o = full_of t
step_owner t Loc.recv false true o = ready
step_owner t _ _ _ o = o

abbrev pub send_bit : Owner → Bool
send_bit free = false
send_bit _ = true

abbrev pub recv_bit : Owner → Bool
recv_bit ready = true
recv_bit _ = false

abbrev pub has_value : Owner → Bool
has_value ready = true
has_value (full_of t) = true
has_value _ = false

-- The bits of the cell in `send` and `recv`, and whether a value is in the cell.
abbrev pub Matches : {T : Type 0} → Owner → Bool → Bool → Option T → Type 0
Matches o s r c = (s ≡ send_bit o) × (r ≡ recv_bit o) × (is_some c ≡ has_value o)

pub Sees-send : (t : ℕ) (o : Owner) → Sees Loc.send (view t o) (send_bit o)
Sees-send t free = tt
Sees-send t ready = tt
Sees-send t (empty_of u) =
    elim (u == t) as (λ b. Sees Loc.send (if b then empty else nothing) true) [
      | true ↦ refl
      | false ↦ tt
    ]
Sees-send t (full_of u) = elim (u == t) as (λ b. Sees Loc.send (if b then full else nothing) true) [
  | true ↦ refl
  | false ↦ tt
]

pub Sees-recv : (t : ℕ) (o : Owner) → Sees Loc.recv (view t o) (recv_bit o)
Sees-recv t free = tt
Sees-recv t ready = tt
Sees-recv t (empty_of u) =
    elim (u == t) as (λ b. Sees Loc.recv (if b then empty else nothing) false) [
      | true ↦ refl
      | false ↦ tt
    ]
Sees-recv t (full_of u) =
    elim (u == t) as (λ b. Sees Loc.recv (if b then full else nothing) false) [
      | true ↦ refl
      | false ↦ tt
    ]

module _ {T : Type 0} where
  pub Matches-send :
      (t : ℕ) (o : Owner) (s r : Bool) (c : Option T) (s' : Bool)
      → Matches o s r c
      → May Loc.send s s' (view t o)
      → Matches (step_owner t Loc.send s s' o) s' r c
  Matches-send t free true r c s' m may = ground arith
  Matches-send t o false r c true m may = ground arith
  Matches-send t o true r c false m may = ground arith
  Matches-send t o s r c s' m may = ground arith

  pub Matches-recv :
      (t : ℕ) (o : Owner) (s r : Bool) (c : Option T) (r' : Bool)
      → Matches o s r c
      → May Loc.recv r r' (view t o)
      → Matches (step_owner t Loc.recv r r' o) s r' c
  Matches-recv t free s true c r' m may = ground arith
  Matches-recv t o s false c true m may = ground arith
  Matches-recv t o s true c false m may = ground arith
  Matches-recv t o s r c r' m may = ground arith

-- The thread that makes a change sees it as the protocol says.
pub view-step_owner :
    (t : ℕ) (l : Loc) (b b' : Bool) (o : Owner)
    → view t (step_owner t l b b' o) ≡ step_hold l b b' (view t o)
view-step_owner t Loc.send true true o = refl
view-step_owner t Loc.send false false o = refl
view-step_owner t Loc.send true false o = refl
view-step_owner t Loc.send false true o = ground arith
view-step_owner t Loc.recv true true o = refl
view-step_owner t Loc.recv false false o = refl
view-step_owner t Loc.recv true false o = ground arith
view-step_owner t Loc.recv false true o = refl
view-step_owner t Loc.num_senders b b' o = refl
view-step_owner t Loc.num_receivers b b' o = refl

-- The other threads see no change, since a cell is given away only by the thread that has it.
pub view-step_owner_ne :
    {T : Type 0} (t u : ℕ) (l : Loc) (o : Owner) (s r : Bool) (c : Option T) (b b' : Bool)
    → u ≢ t
    → Matches o s r c
    → ((l ≡ Loc.send → b ≡ s) × (l ≡ Loc.recv → b ≡ r))
    → May l b b' (view t o)
    → view u (step_owner t l b b' o) ≡ view u o
view-step_owner_ne t u Loc.send o s r c true true ne m e may = refl
view-step_owner_ne t u Loc.send o s r c false false ne m e may = refl
view-step_owner_ne t u Loc.send free s r c b b' ne m e may = ground (arith, e.0 refl)
view-step_owner_ne t u Loc.send o s r c b b' ne m e may = ground (arith, e.0 refl)
view-step_owner_ne t u Loc.recv o s r c true true ne m e may = refl
view-step_owner_ne t u Loc.recv o s r c false false ne m e may = refl
view-step_owner_ne t u Loc.recv free s r c b b' ne m e may = ground (arith, e.1 refl)
view-step_owner_ne t u Loc.recv o s r c b b' ne m e may = ground (arith, e.1 refl)
view-step_owner_ne t u Loc.num_senders o s r c b b' ne m e may = refl
view-step_owner_ne t u Loc.num_receivers o s r c b b' ne m e may = refl
