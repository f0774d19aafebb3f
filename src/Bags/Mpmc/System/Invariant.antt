-- ===== src/Bags/Mpmc/System/Invariant.antt =====
-- The invariant of all threads over one channel: the owner of each cell, and what the words show.
use lockness.Prelude.{
  ℕ, ◌^◌, ◌<◌, ◌≡◌, ◌≢◌, refl, sym, ap, subst, fun_ext, Bool, ◌==◌, if◌then◌else◌, inl, inr,
  Bool-cases, arith,
}
use lockness.Machine.Program.{Loc, Prog, Shared, set_word}
use lockness.Bags.Mpmc.Status.{slot_bit}
use lockness.Bags.Mpmc.Handles.{mpmc, first_word}
use lockness.Bags.Mpmc.Status.Cells.{slot_bit-zero, slot_bit-all}
use lockness.Bags.Mpmc.Protocol.Obeys.{Hold, Held, May, Sees, Obeys}
use lockness.Machine.Threads.{Event, Move, System, pick, Reach, start, later, set_thread}
use lockness.Bags.Mpmc.System.Clients.{IsClient, AnyResult, IsClient-Obeys}
use lockness.Bags.Mpmc.System.Owners.{
  Owner, free, empty_of, full_of, view, step_owner, Matches, Sees-send, Sees-recv, Matches-send,
  Matches-recv, view-step_owner, view-step_owner_ne,
}

-- What the owners say of the memory.
pub record IsShown {T : Type 0} (owner : ℕ → Owner) (m : Shared T) : Type 0 where
  pub words : (l : Loc) → m.word l < 2 ^ 32
  pub cells :
      (i : ℕ)
      → Matches (owner i) (slot_bit (m.word Loc.send) i) (slot_bit (m.word Loc.recv) i) (m.cell i)

abbrev pub held : ℕ → (ℕ → Owner) → Held
held t owner i = view t (owner i)

pub record Inv {T : Type 0} (m : Shared T) (thread : ℕ → Prog T (Unit {0})) : Type 0 where
  pub owner : ℕ → Owner
  pub shown : IsShown owner m
  pub obeys : (t : ℕ) → Obeys (thread t) (held t owner) AnyResult

-- What a step of thread `t` leads to.
pub record Kept {T : Type 0} (t : ℕ) (owner : ℕ → Owner) (m' : Shared T) (p' : Prog T (Unit {0}))
    : Type 0 where
  pub next : ℕ → Owner
  pub shown : IsShown next m'
  pub own : Obeys p' (held t next) AnyResult
  pub others : (u : ℕ) → u ≢ t → (i : ℕ) → view u (next i) ≡ view u (owner i)

Sees-count : (x : Hold) (b : Bool) → Sees Loc.num_senders x b × Sees Loc.num_receivers x b
Sees-count Hold.nothing b = (tt, tt)
Sees-count Hold.empty b = (tt, tt)
Sees-count Hold.full b = (tt, tt)

abbrev change : (ℕ → Owner) → ℕ → Owner → ℕ → Owner
change owner i o j = if i == j then o else owner j

module _ {T : Type 0} (t : ℕ) (owner : ℕ → Owner) (m : Shared T) (shown : IsShown owner m) where
  sees : (l : Loc) (i : ℕ) → Sees l (view t (owner i)) (slot_bit (m.word l) i)
  sees Loc.send i = rw (shown.cells i).0 (Sees-send t (owner i))
  sees Loc.recv i = rw (shown.cells i).1 (Sees-recv t (owner i))
  sees Loc.num_senders i = (Sees-count (view t (owner i)) (slot_bit (m.word Loc.num_senders) i)).0
  sees Loc.num_receivers i =
      (Sees-count (view t (owner i)) (slot_bit (m.word Loc.num_receivers) i)).1

  abbrev after_rmw : Loc → (ℕ → ℕ) → ℕ → Owner
  after_rmw l f i = step_owner t l (slot_bit (m.word l) i) (slot_bit (f (m.word l)) i) (owner i)

  rmw_cells :
      (l : Loc) (f : ℕ → ℕ)
      → ((i : ℕ) → May l (slot_bit (m.word l) i) (slot_bit (f (m.word l)) i) (view t (owner i)))
      → let m' = set_word m l (f (m.word l)) in
        (i : ℕ)
        → Matches
            (after_rmw l f i)
            (slot_bit (m'.word Loc.send) i)
            (slot_bit (m'.word Loc.recv) i)
            (m.cell i)
  rmw_cells Loc.send f may i = Matches-send t (owner i) _ _ _ _ (shown.cells i) (may i)
  rmw_cells Loc.recv f may i = Matches-recv t (owner i) _ _ _ _ (shown.cells i) (may i)
  rmw_cells Loc.num_senders f may i = shown.cells i
  rmw_cells Loc.num_receivers f may i = shown.cells i

  rmw_words : (l : Loc) (x : ℕ) → x < 2 ^ 32 → (k : Loc) → (set_word m l x).word k < 2 ^ 32
  rmw_words l x fits k = ground (arith, shown.words k)

  known :
      (l : Loc) (i : ℕ)
      → (l ≡ Loc.send → slot_bit (m.word l) i ≡ slot_bit (m.word Loc.send) i)
        × (l ≡ Loc.recv → slot_bit (m.word l) i ≡ slot_bit (m.word Loc.recv) i)
  known l i = (λ e. ap (λ k. slot_bit (m.word k) i) e, λ e. ap (λ k. slot_bit (m.word k) i) e)

  Move-Kept :
      {p p' : Prog T (Unit {0})} {m' : Shared T} {e : Event T}
      → Move m p m' p' e
      → Obeys p (held t owner) AnyResult
      → Kept t owner m' p'
  Move-Kept (Move.rmw {l} {f} {k}) o =
      let (fits, may, rest) = o (m.word l) (shown.words l) (sees l) in
      record {
        next = after_rmw l f;
        shown = record { words = rmw_words l (f (m.word l)) fits; cells = rmw_cells l f may };
        own =
            subst (λ h. Obeys (k (m.word l)) h AnyResult)
              (fun_ext λ i.
                sym (
                  view-step_owner t l (slot_bit (m.word l) i) (slot_bit (f (m.word l)) i)
                    (owner i)))
              rest;
        others = λ u ne i.
            view-step_owner_ne t u l (owner i) (slot_bit (m.word Loc.send) i)
              (slot_bit (m.word Loc.recv) i) (m.cell i) (slot_bit (m.word l) i)
              (slot_bit (f (m.word l)) i) ne (shown.cells i) (known l i) (may i);
      }
  Move-Kept (Move.write {i} {v} {k}) o = record {
    next = change owner i (full_of t);
    shown = record { words = shown.words; cells = λ j. ground (arith, shown.cells j, o.0) };
    own = subst (λ h. Obeys k h AnyResult) (fun_ext λ j. ground arith) o.1;
    others = λ u ne j. ground (arith, o.0);
  }
  Move-Kept (Move.read {i} {v} {k} c) o = record {
    next = change owner i (empty_of t);
    shown = record { words = shown.words; cells = λ j. ground (arith, shown.cells j, o.0) };
    own = subst (λ h. Obeys (k v) h AnyResult) (fun_ext λ j. ground arith) (o.1 v);
    others = λ u ne j. ground (arith, o.0);
  }
  Move-Kept Move.wait o = record { next = owner; shown = shown; own = o; others = λ u ne i. refl }
  Move-Kept Move.wake o = record {
    next = owner;
    shown = record { words = shown.words; cells = shown.cells };
    own = o;
    others = λ u ne i. refl;
  }

module _ {T : Type 0} where
  -- A step of any thread keeps the invariant.
  pub Move-Inv :
      (t : ℕ) {m m' : Shared T} (thread : ℕ → Prog T (Unit {0})) {p' : Prog T (Unit {0})}
      {e : Event T}
      → Move m (thread t) m' p' e
      → Inv m thread
      → Inv m' (set_thread thread t p')
  Move-Inv t {m} {m'} thread {p'} mv inv =
      let k = Move-Kept t inv.owner m inv.shown mv (inv.obeys t) in
      record {
        owner = k.next;
        shown = k.shown;
        obeys = λ u. elim (Bool-cases (t == u)) [
          | inl own ↦
              let e : t ≡ u = ground arith in
              rw own (subst (λ x. Obeys p' (held x k.next) AnyResult) e k.own)
          | inr other ↦ rw other (
              subst (λ h. Obeys (thread u) h AnyResult)
                (fun_ext λ i. sym (k.others u (ground arith) i)) (inv.obeys u))
        ];
      }

  Inv-start :
      (thread : ℕ → Prog T (Unit {0})) → ((t : ℕ) → IsClient (thread t)) → Inv (mpmc {T = T}) thread
  unfolding mpmc
  Inv-start thread clients = record {
    owner = λ i. free;
    shown = record { words = first_words; cells = λ i. (slot_bit-zero i, slot_bit-all i, refl) };
    obeys = λ t. IsClient-Obeys (clients t) (held t (λ i. free));
  }
    where
      first_words : (l : Loc) → first_word l < 2 ^ 32
      first_words Loc.send = omega arith
      first_words Loc.recv = omega arith
      first_words Loc.num_senders = omega arith
      first_words Loc.num_receivers = omega arith

  pub Reach-Inv :
      {thread : ℕ → Prog T (Unit {0})} {s : System T}
      → ((t : ℕ) → IsClient (thread t))
      → Reach mpmc thread s
      → Inv s.mem s.thread
  Reach-Inv {thread} clients start = Inv-start thread clients
  Reach-Inv clients (later {s} r (pick t mv)) = Move-Inv t s.thread mv (Reach-Inv clients r)
