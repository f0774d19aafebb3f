-- ===== src/Bags/Mpmc/Protocol/Waiting.antt =====
-- The calls that wait, `Sender::send` and `Receiver::recv` of bags/src/mpmc.rs, under the protocol.
use lockness.Prelude.{
  ℕ, zero, suc, ◌<◌, bit_and, bit_or, refl, sym, subst, fun_ext, Bool, ltb, inl, inr, Bool-cases,
}
use lockness.Word.Bits.{complement}
use lockness.Machine.Program.{Loc, Prog, out_of_fuel, ◌>>=◌}
use lockness.Bags.Mpmc.Status.{n, all, contains, sleeping, counterparty_dead, u32_max}
use lockness.Bags.Mpmc.Buffer.{Buffer}
use lockness.Bags.Mpmc.Sender.{TrySend, try_send}
use lockness.Bags.Mpmc.Receiver.{TryRecv, try_recv}
use lockness.Bags.Mpmc.Blocking.{
  Spin, Send, Recv, retry, gone, sleep_on, check_send, spin_send, after_spin_send, after_try_send,
  send, check_recv, spin_recv, after_spin_recv, after_try_recv, recv,
}
use lockness.Bags.Mpmc.Protocol.Obeys.{Held, Obeys, Obeys->>=, Obeys_mono}
use lockness.Bags.Mpmc.Protocol.Send.{SameHeld, KeepsNothing, try_send-Obeys}
use lockness.Bags.Mpmc.Protocol.Recv.{try_recv-Obeys}
use lockness.Bags.Mpmc.Protocol.Silent.{or-Obeys, and-Obeys, load-Obeys, sleeping-IsStatus}

module _ (T : Type 0) (h : Held) where
  abbrev Same : {A : Type 0} → A → Held → Type 0
  Same _ = SameHeld h

  same : SameHeld h h
  same i = refl

  check_send-Obeys :
      (w : ℕ) (next : Prog T Spin) → Obeys next h Same → Obeys (check_send w next) h Same
  unfolding check_send
  check_send-Obeys w next o = elim (Bool-cases (ltb (bit_or w all) u32_max)) [
    | inl room ↦ rw room same
    | inr no_room ↦ rw no_room (elim (Bool-cases (contains w counterparty_dead)) [
      | inl dead ↦ rw dead same
      | inr alive ↦ rw alive (elim (Bool-cases (contains w sleeping)) [
        | inl set ↦ rw set same
        | inr clear ↦ rw clear o
      ])
    ])
  ]

  spin_send-Obeys : (spin : ℕ) → Obeys (spin_send {T = T} spin) h Same
  unfolding spin_send
  spin_send-Obeys zero =
      let k : ℕ → Prog T Spin = λ w. check_send (bit_or w sleeping) out_of_fuel in
      or-Obeys Loc.send sleeping k h Same sleeping-IsStatus
        (λ w. check_send-Obeys (bit_or w sleeping) out_of_fuel tt)
  spin_send-Obeys (suc spin) =
      let k : ℕ → Prog T Spin = λ w. check_send w (spin_send spin) in
      load-Obeys Loc.send k h Same (λ w. check_send-Obeys w (spin_send spin) (spin_send-Obeys spin))

  check_recv-Obeys :
      (w : ℕ) (next : Prog T Spin) → Obeys next h Same → Obeys (check_recv w next) h Same
  unfolding check_recv
  check_recv-Obeys w next o = elim (Bool-cases (ltb 0 (bit_and w (complement 32 all)))) [
    | inl some_there ↦ rw some_there same
    | inr nothing_there ↦
        rw nothing_there (elim (Bool-cases (contains (complement 32 w) counterparty_dead)) [
          | inl dead ↦ rw dead same
          | inr alive ↦ rw alive (elim (Bool-cases (contains (complement 32 w) sleeping)) [
            | inl set ↦ rw set same
            | inr clear ↦ rw clear o
          ])
        ])
  ]

  spin_recv-Obeys : (spin : ℕ) → Obeys (spin_recv {T = T} spin) h Same
  unfolding spin_recv
  spin_recv-Obeys zero =
      let k : ℕ → Prog T Spin = λ w. check_recv (bit_and w (complement 32 sleeping)) out_of_fuel in
      and-Obeys Loc.recv sleeping k h Same sleeping-IsStatus
        (λ w. check_recv-Obeys (bit_and w (complement 32 sleeping)) out_of_fuel tt)
  spin_recv-Obeys (suc spin) =
      let k : ℕ → Prog T Spin = λ w. check_recv w (spin_recv spin) in
      load-Obeys Loc.recv k h Same (λ w. check_recv-Obeys w (spin_recv spin) (spin_recv-Obeys spin))

module _ {T A B : Type 0} where
  -- A program that holds the same cells at its end is followed by one that starts from these.
  Obeys_then :
      (p : Prog T A) (g : A → Prog T B) (h : Held) (Q : B → Held → Type 0)
      → Obeys p h (λ _. SameHeld h)
      → ((a : A) → Obeys (g a) h Q)
      → Obeys (p >>= g) h Q
  Obeys_then p g h Q o r =
      Obeys->>= p g h Q (
        Obeys_mono p h _ _ (λ a h' same. subst (λ k. Obeys (g a) k Q) (sym (fun_ext same)) (r a)) o)

module _ {T : Type 0} where
  -- What `send` leaves to its thread: nothing new, unless the receivers are gone.
  abbrev pub KeepsNothingSent : Held → Send T → Held → Type 0
  KeepsNothingSent h (Send.sent rest) h' = SameHeld h h'
  KeepsNothingSent h (Send.disconnected data') h' = Unit

  after_spin_send-Obeys :
      (b : Buffer T) (again : Prog T (Send T)) (h : Held) (s : Spin)
      → Obeys again h (KeepsNothingSent h)
      → Obeys (after_spin_send b again s) h (KeepsNothingSent h)
  unfolding after_spin_send
  after_spin_send-Obeys b again h retry o = o
  after_spin_send-Obeys b again h gone o = tt
  after_spin_send-Obeys b again h (sleep_on e) o =
      let k : ℕ → Prog T (Send T) = λ _. again in
      or-Obeys Loc.send sleeping k h (KeepsNothingSent h) sleeping-IsStatus (λ w. o)

  after_try_send-Obeys :
      (again : Buffer T → Prog T (Send T)) (h h' : Held) (r : TrySend T)
      → ((b : Buffer T) → Obeys (again b) h (KeepsNothingSent h))
      → KeepsNothing h r h'
      → Obeys (after_try_send again r) h' (KeepsNothingSent h)
  unfolding after_try_send
  after_try_send-Obeys again h h' (TrySend.sent rest) o q = q
  after_try_send-Obeys again h h' (TrySend.disconnected b) o q = tt
  after_try_send-Obeys again h h' (TrySend.full b) o q =
      subst (λ k. Obeys (spin_send 32 >>= after_spin_send b (again b)) k (KeepsNothingSent h))
        (sym (fun_ext q))
        (Obeys_then (spin_send 32) (after_spin_send b (again b)) h (KeepsNothingSent h)
          (spin_send-Obeys T h 32) (λ s. after_spin_send-Obeys b (again b) h s (o b)))

  -- `send`, with a bias below 30 and any fuel, keeps the protocol through all its rounds, spins and
  -- sleeps; after a success its thread holds the cells that it held before.
  pub send-Obeys :
      (fuel : ℕ) (x86 : Bool) (tries bias : ℕ) (b : Buffer T) (h : Held)
      → bias < n
      → Obeys (send fuel x86 tries bias b) h (KeepsNothingSent h)
  unfolding send
  send-Obeys zero x86 tries bias b h small = tt
  send-Obeys (suc fuel) x86 tries bias b h small =
      let again : Buffer T → Prog T (Send T) = λ d. send fuel x86 tries bias d in
      Obeys->>= (try_send x86 tries bias b) (after_try_send again) h (KeepsNothingSent h) (
        Obeys_mono (try_send x86 tries bias b) h _ _
          (λ r h' q.
            after_try_send-Obeys again h h' r (λ d. send-Obeys fuel x86 tries bias d h small) q)
          (try_send-Obeys x86 tries bias b h small))

module _ (T : Type 0) where
  after_spin_recv-Obeys :
      (again : Prog T (Recv T)) (h : Held) (s : Spin)
      → Obeys again h (λ _. SameHeld h)
      → Obeys (after_spin_recv again s) h (λ _. SameHeld h)
  unfolding after_spin_recv
  after_spin_recv-Obeys again h retry o = o
  after_spin_recv-Obeys again h gone o = λ i. refl
  after_spin_recv-Obeys again h (sleep_on e) o =
      let k : ℕ → Prog T (Recv T) = λ _. again in
      and-Obeys Loc.recv sleeping k h (λ _. SameHeld h) sleeping-IsStatus (λ w. o)

  after_try_recv-Obeys :
      (again : Prog T (Recv T)) (h : Held) (r : TryRecv T)
      → Obeys again h (λ _. SameHeld h)
      → Obeys (after_try_recv again r) h (λ _. SameHeld h)
  unfolding after_try_recv
  after_try_recv-Obeys again h (TryRecv.received values) o = λ i. refl
  after_try_recv-Obeys again h TryRecv.disconnected o = λ i. refl
  after_try_recv-Obeys again h TryRecv.empty o =
      Obeys_then (spin_recv 32) (after_spin_recv again) h (λ _. SameHeld h) (spin_recv-Obeys T h 32)
        (λ s. after_spin_recv-Obeys again h s o)

  -- `recv`, with any fuel, keeps the protocol through all its rounds, spins and sleeps, and its
  -- thread holds afterwards the cells that it held before.
  pub recv-Obeys :
      (fuel : ℕ) (x86 : Bool) (h : Held) → Obeys (recv {T = T} fuel x86) h (λ _. SameHeld h)
  unfolding recv
  recv-Obeys zero x86 h = tt
  recv-Obeys (suc fuel) x86 h =
      Obeys_then (try_recv x86) (after_try_recv (recv fuel x86)) h (λ _. SameHeld h)
        (try_recv-Obeys T x86 h)
        (λ r. after_try_recv-Obeys (recv fuel x86) h r (recv-Obeys fuel x86 h))
