-- ===== src/Bags/Slot/System/Invariant.antt =====
-- The invariant of all threads over one slot of bags/src/slot.rs.
use lockness.Prelude.{
  ℕ, suc, ◌+◌, ◌^◌, ◌<◌, ◌≤◌, ◌≡◌, ◌≢◌, refl, sym, subst, Bool, true, false, ◌==◌, inl, inr,
  Bool-cases, arith,
}
use native.Mathlib.Decide.{dec_lt}
use lockness.Machine.Program.{Prog, ret, Shared}
use lockness.Machine.Threads.{Event, Move, System, pick, Reach, start, later, set_thread}
use lockness.Bags.Slot.Status.{abort_limit}
use lockness.Bags.Slot.Status.Flags.{abort_limit-eq, send_word}
use lockness.Bags.Slot.Protocol.{RecvHold, is_abort, Obeys}
use lockness.Bags.Slot.Handles.{mpsc}
use lockness.Bags.Slot.Protocol.Receiving.{room-pos}
use lockness.Bags.Slot.System.Clients.{IsClient, Role, HoldsNothing, IsClient-Obeys}
use lockness.Bags.Slot.System.Owners.{State, free, view, Held-eq}
use lockness.Bags.Slot.System.Aborts.{aborts, aborts-le, aborts-set_thread_lt, bound_grows}
use lockness.Bags.Slot.System.Moves.{Shown, Move-After}

-- The threads of one slot: the first has the `Receiver`, and there are at most 2 ^ 60, which are
-- more than an address space has room for.
pub record AreClients {T : Type 0} (x86 : Bool) (k : ℕ) (thread : ℕ → Prog T (Unit {0}))
    : Type 0 where
  pub receiver : IsClient x86 true (thread 0)
  pub senders : (t : ℕ) → t ≢ 0 → IsClient x86 false (thread t)
  pub ended : (t : ℕ) → k ≤ t → thread t ≡ ret tt
  pub few : k ≤ 2 ^ 60

module _ {T : Type 0} (x86 : Bool) (k : ℕ) where
  pub record Inv (m : Shared T) (thread : ℕ → Prog T (Unit {0})) : Type 0 where
    pub state : State
    pub shown : Shown x86 state m
    pub obeys : (t : ℕ) → Obeys x86 (thread t) (view t state) HoldsNothing
    pub ended : (t : ℕ) → k ≤ t → thread t ≡ ret tt
    pub bounded : x86 ≡ true → shown.count ≤ suc (abort_limit + aborts k thread)

abbrev first : State
first = record { owner = free; receiver = RecvHold.idle }

send_word-zero : (x86 : Bool) → 0 ≡ send_word x86 false false 0
send_word-zero true = refl
send_word-zero false = refl

moving :
    {T : Type 0} {m m' : Shared T} {p p' : Prog T (Unit {0})} {e : Event T}
    → Move m p m' p' e
    → (is_abort p ≡ false) × (p ≢ ret tt)
moving Move.rmw = (refl, λ e. cc)
moving Move.write = (refl, λ e. cc)
moving (Move.read c) = (refl, λ e. cc)
moving Move.wait = (refl, λ e. cc)
moving Move.wake = (refl, λ e. cc)

module _ {T : Type 0} (x86 : Bool) (k : ℕ) (few : k ≤ 2 ^ 60) where
  Move-Inv :
      (t : ℕ) {m m' : Shared T} (thread : ℕ → Prog T (Unit {0})) {p' : Prog T (Unit {0})}
      {e : Event T}
      → Move m (thread t) m' p' e
      → Inv x86 k m thread
      → Inv x86 k m' (set_thread thread t p')
  Move-Inv t {m} {m'} thread {p'} mv inv =
      let not_ended = moving mv in
      let fewer : t < k = elim (dec_lt t k) [
        | yes below ↦ below
        | no above ↦ absurd (not_ended.1 (inv.ended t (omega arith)))
      ] in
      let sum = aborts-set_thread_lt thread t p' k fewer not_ended.0 in
      let a =
        Move-After x86 t inv.state m inv.shown mv (inv.obeys t)
          (λ x. omega (arith, inv.bounded x, aborts-le thread k, abort_limit-eq)) in
      record {
        state = a.next;
        shown = a.shown;
        obeys = λ u. elim (Bool-cases (t == u)) [
          | inl own ↦
              let e : t ≡ u = ground arith in
              rw own (subst (λ x. Obeys x86 p' (view x a.next) HoldsNothing) e a.own)
          | inr other ↦ rw other (
              subst (λ h. Obeys x86 (thread u) h HoldsNothing) (sym (a.others u (ground arith)))
                (inv.obeys u))
        ];
        ended = λ u above. ground (arith, inv.ended u above);
        bounded = λ x.
            bound_grows abort_limit inv.shown.count a.shown.count (aborts k thread)
              (aborts k (set_thread thread t p')) (is_abort p') (inv.bounded x) (a.one_more x)
              (a.stops x) sum;
      }

  Inv-start : (thread : ℕ → Prog T (Unit {0})) → AreClients x86 k thread → Inv x86 k mpsc thread
  unfolding mpsc
  Inv-start thread clients = record {
    state = first;
    shown = record {
      dead = false;
      asleep = false;
      count = 0;
      there = false;
      receiver_asleep = false;
      sender_dead = false;
      send_is = send_word-zero x86;
      recv_is = refl;
      fits = room-pos x86;
      matches = record {
        is_dead = refl;
        is_count = λ d. refl;
        is_there = refl;
        is_value = refl;
        consistent = refl;
      };
    };
    obeys = λ t. elim (Bool-cases (t == 0)) [
      | inl main ↦
          let e : 0 ≡ t = ground arith in
          subst (λ t. Obeys x86 (thread t) (view t first) HoldsNothing) e
            (IsClient-Obeys clients.receiver Role.owner)
      | inr sender ↦
          subst (λ h. Obeys x86 (thread t) h HoldsNothing) (Held-eq refl (ground arith))
            (IsClient-Obeys (clients.senders t (ground arith)) Role.other)
    ];
    ended = clients.ended;
    bounded = λ x. omega arith;
  }

  pub Reach-Inv :
      {thread : ℕ → Prog T (Unit {0})} {s : System T}
      → AreClients x86 k thread
      → Reach mpsc thread s
      → Inv x86 k s.mem s.thread
  Reach-Inv {thread} clients start = Inv-start thread clients
  Reach-Inv clients (later {s} r (pick t mv)) = Move-Inv t s.thread mv (Reach-Inv clients r)
