-- ===== src/Bags/Slot/System/Owners.antt =====
-- Who has the slot, and what the words and the cell show of it.
use lockness.Prelude.{
  ℕ, ◌≡◌, ◌≢◌, refl, sym, subst, Bool, true, false, ◌==◌, Option, if◌then◌else◌, inl, inr, ◌⊎◌,
  Bool-cases, arith,
}
use lockness.Machine.Threads.{is_some}
use lockness.Bags.Slot.Protocol.{SendHold, RecvHold, Held}

-- The slot is free, reserved or filled by a thread, ready for the receiver, or had by it.
pub data Owner : Type 0 where
  free ready taken : Owner
  filling_by filled_by : ℕ → Owner

-- The owner, and how far the receiver is, which is the thread 0.
pub record State : Type 0 where
  pub owner : Owner
  pub receiver : RecvHold

abbrev pub sender_view : ℕ → Owner → SendHold
sender_view t (filling_by u) = if u == t then SendHold.filling else SendHold.nothing
sender_view t (filled_by u) = if u == t then SendHold.filled else SendHold.nothing
sender_view t _ = SendHold.nothing

abbrev pub receiver_view : ℕ → RecvHold → RecvHold
receiver_view t r = if t == 0 then r else RecvHold.stranger

abbrev pub view : ℕ → State → Held
view t s = record { sender = sender_view t s.owner; receiver = receiver_view t s.receiver }

abbrev pub is_closed : RecvHold → Bool
is_closed RecvHold.closed = true
is_closed _ = false

abbrev pub is_free : Owner → Bool
is_free free = true
is_free _ = false

abbrev pub is_ready : Owner → Bool
is_ready ready = true
is_ready _ = false

abbrev pub has_value : Owner → RecvHold → Bool
has_value (filled_by t) r = true
has_value ready r = true
has_value taken RecvHold.full = true
has_value _ r = false

-- The receiver has the slot exactly where the owner says so, and has seen only what is there.
abbrev pub agrees : Owner → RecvHold → Bool
agrees taken RecvHold.full = true
agrees taken RecvHold.empty = true
agrees taken _ = false
agrees _ RecvHold.full = false
agrees _ RecvHold.empty = false
agrees ready RecvHold.seen = true
agrees _ RecvHold.seen = false
agrees _ RecvHold.stranger = false
agrees _ _ = true

pub record Matches {T : Type 0} (s : State) (dead there : Bool) (count : ℕ) (c : Option T)
    : Type 0 where
  pub is_dead : dead ≡ is_closed s.receiver
  pub is_count : dead ≡ false → (count == 0) ≡ is_free s.owner
  pub is_there : there ≡ is_ready s.owner
  pub is_value : is_some c ≡ has_value s.owner s.receiver
  pub consistent : agrees s.owner s.receiver ≡ true

pub Held-eq : {a b : Held} → a.sender ≡ b.sender → a.receiver ≡ b.receiver → a ≡ b
Held-eq p q = λ i. record { sender = p i; receiver = q i }

-- What a change by thread `t` leads to.
pub record Kept {T : Type 0} (t : ℕ) (s : State) (dead there : Bool) (count : ℕ) (c : Option T)
    (h : Held) : Type 0 where
  pub next : State
  pub matches : Matches next dead there count c
  pub own : view t next ≡ h
  pub others : (u : ℕ) → u ≢ t → view u next ≡ view u s

-- The thread 0 alone has anything of the receiver.
pub receiver_thread :
    (t : ℕ) (r x : RecvHold) → x ≢ RecvHold.stranger → receiver_view t r ≡ x → (t ≡ 0) × (r ≡ x)
receiver_thread t r x ne e = elim (Bool-cases (t == 0)) [
  | inl first ↦ (ground arith, subst (λ b. (if b then r else RecvHold.stranger) ≡ x) first e)
  | inr later ↦ absurd (ne (sym (subst (λ b. (if b then r else RecvHold.stranger) ≡ x) later e)))
]

pub receiver_view_ne : (u : ℕ) (r r' : RecvHold) → u ≢ 0 → receiver_view u r ≡ receiver_view u r'
receiver_view_ne u r r' ne = ground arith

pub owner_filling : (t : ℕ) (o : Owner) → sender_view t o ≡ SendHold.filling → o ≡ filling_by t
owner_filling t free e = cc
owner_filling t ready e = cc
owner_filling t taken e = cc
owner_filling t (filling_by u) e = ground arith
owner_filling t (filled_by u) e = ground arith

pub owner_filled : (t : ℕ) (o : Owner) → sender_view t o ≡ SendHold.filled → o ≡ filled_by t
owner_filled t free e = cc
owner_filled t ready e = cc
owner_filled t taken e = cc
owner_filled t (filling_by u) e = ground arith
owner_filled t (filled_by u) e = ground arith

pub free_of : (o : Owner) → is_free o ≡ true → o ≡ free
free_of free e = refl
free_of ready e = cc
free_of taken e = cc
free_of (filling_by u) e = cc
free_of (filled_by u) e = cc

pub ready_of : (o : Owner) → is_ready o ≡ true → o ≡ ready
ready_of ready e = refl
ready_of free e = cc
ready_of taken e = cc
ready_of (filling_by u) e = cc
ready_of (filled_by u) e = cc

-- While the receiver has the slot, the owner says so.
pub taken_of :
    (o : Owner) (r : RecvHold)
    → (r ≡ RecvHold.full) ⊎ (r ≡ RecvHold.empty)
    → agrees o r ≡ true
    → o ≡ taken
taken_of o r which a = ground arith

pub seen_of : (o : Owner) → agrees o RecvHold.seen ≡ true → o ≡ ready
seen_of ready e = refl
seen_of free e = cc
seen_of taken e = cc
seen_of (filling_by u) e = cc
seen_of (filled_by u) e = cc
