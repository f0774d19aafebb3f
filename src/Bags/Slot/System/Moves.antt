-- ===== src/Bags/Slot/System/Moves.antt =====
-- What a step of a thread makes of the slot, its words and its owner.
use lockness.Prelude.{
  ℕ, suc, ◌^◌, ◌<◌, ◌≤◌, ◌≡◌, ◌≢◌, refl, sym, ap, ◌∙◌, subst, Bool, true, Option, arith,
}
use lockness.Machine.Program.{Loc, Prog, Shared, set_word}
use lockness.Machine.Threads.{Event, Move}
use lockness.Bags.Slot.Status.{abort_limit, slot}
use lockness.Bags.Slot.Status.Flags.{room, send_word, recv_word}
use lockness.Bags.Slot.Protocol.{RecvHold, Held, is_abort, Obeys}
use lockness.Bags.Slot.System.Clients.{HoldsNothing}
use lockness.Bags.Slot.System.Owners.{
  State, view, is_ready, agrees, Matches, Kept, receiver_thread, seen_of,
}
use lockness.Bags.Slot.System.Steps.{send_step, recv_step, write_step, read_step}
use lockness.Bags.Slot.System.Aborts.{count_grows}

module _ {T : Type 0} (x86 : Bool) where
  -- What a state of the slot says of the memory.
  pub record Shown (s : State) (m : Shared T) : Type 0 where
    pub dead : Bool
    pub asleep : Bool
    pub count : ℕ
    pub there : Bool
    pub receiver_asleep : Bool
    pub sender_dead : Bool
    pub send_is : m.word Loc.send ≡ send_word x86 dead asleep count
    pub recv_is : m.word Loc.recv ≡ recv_word there receiver_asleep sender_dead
    pub fits : count < 2 ^ room x86
    pub matches : Matches s dead there count (m.cell slot)

  -- What a step of thread `t` leads to.
  pub record After (t : ℕ) (s : State) (count : ℕ) (m' : Shared T) (p' : Prog T (Unit {0}))
      : Type 0 where
    pub next : State
    pub shown : Shown next m'
    pub own : Obeys x86 p' (view t next) HoldsNothing
    pub others : (u : ℕ) → u ≢ t → view u next ≡ view u s
    pub one_more : x86 ≡ true → shown.count ≤ suc count
    pub stops : x86 ≡ true → abort_limit < count → count < shown.count → is_abort p' ≡ true

module _ {T : Type 0} (x86 : Bool) (t : ℕ) (s : State) (m : Shared T) (shown : Shown x86 s m) where
  -- A step that changes neither word of status nor the slot.
  unmoved :
      {m' : Shared T} {p' : Prog T (Unit {0})}
      → m'.word Loc.send ≡ m.word Loc.send
      → m'.word Loc.recv ≡ m.word Loc.recv
      → m'.cell ≡ m.cell
      → Obeys x86 p' (view t s) HoldsNothing
      → After x86 t s shown.count m' p'
  unmoved a b c o = record {
    next = s;
    shown = record {
      dead = shown.dead;
      asleep = shown.asleep;
      count = shown.count;
      there = shown.there;
      receiver_asleep = shown.receiver_asleep;
      sender_dead = shown.sender_dead;
      send_is = a ∙ shown.send_is;
      recv_is = b ∙ shown.recv_is;
      fits = shown.fits;
      matches =
          subst (λ c. Matches s shown.dead shown.there shown.count (c slot)) (sym c) shown.matches;
    };
    own = o;
    others = λ u ne. refl;
    one_more = λ x. omega arith;
    stops = λ x l g. absurd (omega arith);
  }

  after_send :
      (f : ℕ → ℕ) (k : ℕ → Prog T (Unit {0}))
      → Obeys x86 (Prog.rmw Loc.send f k) (view t s) HoldsNothing
      → (x86 ≡ true → suc shown.count < 2 ^ 62)
      → After x86 t s shown.count (set_word m Loc.send (f (m.word Loc.send))) (k (m.word Loc.send))
  after_send f k o few =
      let (dead', asleep', count', h', e, fits', act, rest) =
        o shown.dead shown.asleep shown.count shown.fits few in
      let next = send_step t s.owner s.receiver (m.cell slot) shown.matches act in
      let grows = count_grows act in
      let back = sym shown.send_is in
      record {
        next = next.next;
        shown = record {
          dead = dead';
          asleep = asleep';
          count = count';
          there = shown.there;
          receiver_asleep = shown.receiver_asleep;
          sender_dead = shown.sender_dead;
          send_is = ap f shown.send_is ∙ e;
          recv_is = shown.recv_is;
          fits = fits';
          matches = next.matches;
        };
        own =
            subst (λ w. Obeys x86 (k w) (view t next.next) HoldsNothing) back
              (subst
                (λ h.
                  Obeys x86 (k (send_word x86 shown.dead shown.asleep shown.count)) h HoldsNothing)
                (sym next.own) rest);
        others = next.others;
        one_more = grows.0;
        stops = λ x l g. ap (λ w. is_abort (k w)) shown.send_is ∙ grows.1 x l g;
      }

  after_recv :
      (f : ℕ → ℕ) (k : ℕ → Prog T (Unit {0}))
      → Obeys x86 (Prog.rmw Loc.recv f k) (view t s) HoldsNothing
      → After x86 t s shown.count (set_word m Loc.recv (f (m.word Loc.recv))) (k (m.word Loc.recv))
  after_recv f k o =
      let (there', asleep', dead', h', e, act, rest) =
        o shown.there shown.receiver_asleep shown.sender_dead known in
      let next = recv_step t s.owner s.receiver (m.cell slot) shown.matches act in
      record {
        next = next.next;
        shown = record {
          dead = shown.dead;
          asleep = shown.asleep;
          count = shown.count;
          there = there';
          receiver_asleep = asleep';
          sender_dead = dead';
          send_is = shown.send_is;
          recv_is = ap f shown.recv_is ∙ e;
          fits = shown.fits;
          matches = next.matches;
        };
        own =
            subst (λ w. Obeys x86 (k w) (view t next.next) HoldsNothing) (sym shown.recv_is)
              (subst
                (λ h.
                  Obeys x86 (k (recv_word shown.there shown.receiver_asleep shown.sender_dead)) h
                    HoldsNothing)
                (sym next.own) rest);
        others = next.others;
        one_more = λ x. omega arith;
        stops = λ x l g. absurd (omega arith);
      }
    where
      known : (view t s).receiver ≡ RecvHold.seen → shown.there ≡ true
      known e =
          let is = receiver_thread t s.receiver RecvHold.seen (λ p. cc) e in
          shown.matches.is_there
          ∙ ap is_ready
              (seen_of s.owner (subst (λ r. agrees s.owner r ≡ true) is.1 shown.matches.consistent))

  -- A step that leads to the owner `next`, and leaves the words.
  moved :
      {c : Option T} {h : Held} {m' : Shared T} {p' : Prog T (Unit {0})}
      → Kept t s shown.dead shown.there shown.count c h
      → m'.word Loc.send ≡ m.word Loc.send
      → m'.word Loc.recv ≡ m.word Loc.recv
      → m'.cell slot ≡ c
      → Obeys x86 p' h HoldsNothing
      → After x86 t s shown.count m' p'
  moved {p' = p'} next a b c o = record {
    next = next.next;
    shown = record {
      dead = shown.dead;
      asleep = shown.asleep;
      count = shown.count;
      there = shown.there;
      receiver_asleep = shown.receiver_asleep;
      sender_dead = shown.sender_dead;
      send_is = a ∙ shown.send_is;
      recv_is = b ∙ shown.recv_is;
      fits = shown.fits;
      matches =
          subst (λ c. Matches next.next shown.dead shown.there shown.count c) (sym c) next.matches;
    };
    own = subst (λ h. Obeys x86 p' h HoldsNothing) (sym next.own) o;
    others = next.others;
    one_more = λ x. omega arith;
    stops = λ x l g. absurd (omega arith);
  }

  pub Move-After :
      {p p' : Prog T (Unit {0})} {m' : Shared T} {e : Event T}
      → Move m p m' p' e
      → Obeys x86 p (view t s) HoldsNothing
      → (x86 ≡ true → suc shown.count < 2 ^ 62)
      → After x86 t s shown.count m' p'
  Move-After (Move.rmw {l = Loc.send} {f} {k}) o few = after_send f k o few
  Move-After (Move.rmw {l = Loc.recv} {f} {k}) o few = after_recv f k o
  Move-After (Move.rmw {l = Loc.num_senders} {f} {k}) o few =
      unmoved refl refl refl (o (m.word Loc.num_senders))
  Move-After (Move.rmw {l = Loc.num_receivers} {f} {k}) o few =
      unmoved refl refl refl (o (m.word Loc.num_receivers))
  Move-After (Move.write {i} {v} {k}) o few =
      moved (write_step t s.owner s.receiver (m.cell slot) v shown.matches o.1) refl refl
        (ground (arith, o.0)) o.2
  Move-After (Move.read {i} {v} {k} c) o few =
      moved (read_step t s.owner s.receiver (m.cell slot) shown.matches o.1) refl refl
        (ground (arith, o.0)) (o.2 v)
  Move-After Move.wait o few = unmoved refl refl refl o.1
  Move-After Move.wake o few = unmoved refl refl refl o
