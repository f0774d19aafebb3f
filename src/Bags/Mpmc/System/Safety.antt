-- ===== src/Bags/Mpmc/System/Safety.antt =====
-- Accesses to the cells, in the states that clients of one channel reach.
use lockness.Prelude.{ℕ, ◌≡◌, ap, ◌∙◌, subst, true, some, arith, inl, inr, ◌⊎◌, ltb}
use lockness.Machine.Program.{
  Loc, Prog, ret, rmw, write, read, wait, wake, abort, undefined, out_of_fuel, Shared,
}
use lockness.Bags.Mpmc.Protocol.Obeys.{empty, full, Obeys}
use lockness.Bags.Mpmc.Status.{n}
use lockness.Bags.Mpmc.Status.Cells.{slot_bit-range}
use lockness.Machine.Threads.{System, Reach, access, IsDefined, some_of, none_of}
use lockness.Bags.Mpmc.Handles.{mpmc}
use lockness.Bags.Mpmc.System.Clients.{IsClient, AnyResult}
use lockness.Bags.Mpmc.System.Owners.{Owner, empty_of, full_of, view, has_value}
use lockness.Bags.Mpmc.System.Invariant.{IsShown, held, Reach-Inv}

owned_empty : (t : ℕ) (o : Owner) → view t o ≡ empty → o ≡ empty_of t
owned_empty t o e = ground arith

owned_full : (t : ℕ) (o : Owner) → view t o ≡ full → o ≡ full_of t
owned_full t o e = ground arith

module _ {T : Type 0} (t : ℕ) (owner : ℕ → Owner) where
  -- A thread that is about to access a cell owns it.
  access_owner :
      (p : Prog T (Unit {0})) (i : ℕ)
      → Obeys p (held t owner) AnyResult
      → access p ≡ some i
      → (owner i ≡ empty_of t) ⊎ (owner i ≡ full_of t)
  access_owner (write j v k) i o e =
      let d : j ≡ i = ground arith in
      inl (subst (λ x. owner x ≡ empty_of t) d (owned_empty t (owner j) o.0))
  access_owner (read j k) i o e =
      let d : j ≡ i = ground arith in
      inr (subst (λ x. owner x ≡ full_of t) d (owned_full t (owner j) o.0))
  access_owner (ret a) i o e = cc
  access_owner (rmw l f k) i o e = cc
  access_owner (wait l x k) i o e = cc
  access_owner (wake l x k) i o e = cc
  access_owner abort i o e = cc
  access_owner undefined i o e = cc
  access_owner out_of_fuel i o e = cc

  IsDefined-of :
      (m : Shared T) (p : Prog T (Unit {0}))
      → IsShown owner m
      → Obeys p (held t owner) AnyResult
      → IsDefined m p
  IsDefined-of m (write i v k) s o =
      none_of (m.cell i) ((s.cells i).2 ∙ ap has_value (owned_empty t (owner i) o.0))
  IsDefined-of m (read i k) s o =
      some_of (m.cell i) ((s.cells i).2 ∙ ap has_value (owned_full t (owner i) o.0))
  IsDefined-of m (ret a) s o = tt
  IsDefined-of m (rmw l f k) s o = tt
  IsDefined-of m (wait l x k) s o = tt
  IsDefined-of m (wake l x k) s o = tt
  IsDefined-of m abort s o = tt
  IsDefined-of m undefined s o = o
  IsDefined-of m out_of_fuel s o = tt

module _ {T : Type 0} {thread : ℕ → Prog T (Unit {0})} {s : System T}
    (clients : (t : ℕ) → IsClient (thread t)) (r : Reach mpmc thread s) where
  -- However the calls of threads that are clients of one channel interleave, no thread is about to
  -- read an empty cell, to overwrite a value, or to reach undefined behaviour.
  pub Reach-IsDefined : (t : ℕ) → IsDefined s.mem (s.thread t)
  Reach-IsDefined t =
      let inv = Reach-Inv clients r in
      IsDefined-of t inv.owner s.mem (s.thread t) inv.shown (inv.obeys t)

  -- However the calls of threads that are clients of one channel interleave, two threads are never
  -- about to access the same cell.
  pub no_data_race :
      (t u i : ℕ) → access (s.thread t) ≡ some i → access (s.thread u) ≡ some i → t ≡ u
  no_data_race t u i at_t at_u =
      let inv = Reach-Inv clients r in
      let a = access_owner t inv.owner (s.thread t) i (inv.obeys t) at_t in
      let b = access_owner u inv.owner (s.thread u) i (inv.obeys u) at_u in ground arith

  -- Only the cells of the bag are accessed.
  pub access-lt : (t i : ℕ) → access (s.thread t) ≡ some i → ltb i n ≡ true
  access-lt t i e =
      let inv = Reach-Inv clients r in
      let a = access_owner t inv.owner (s.thread t) i (inv.obeys t) e in
      slot_bit-range (s.mem.word Loc.send) i (ground (arith, (inv.shown.cells i).0))
