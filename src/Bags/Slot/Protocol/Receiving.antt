-- ===== src/Bags/Slot/Protocol/Receiving.antt =====
-- `try_recv`, `recv` and the clones and drops of bags/src/slot.rs under the protocol.
use lockness.Prelude.{
  ℕ, zero, suc, ◌+◌, ◌/◌, ◌^◌, ◌<◌, ◌≡◌, refl, sym, subst, Bool, true, false, not, ◌==◌, ltb,
  if◌then◌else◌, inl, inr, Bool-cases, arith,
}
use lockness.Machine.Program.{Loc, Prog, ret, ◌>>=◌, ◌>>◌}
use lockness.Machine.Access.{wake_if}
use lockness.Bags.Mpmc.Status.{contains, u32_max}
use lockness.Bags.Slot.Status.{send_sleeping, recv_sleeping, sender_dead}
use lockness.Bags.Slot.Status.Flags.{room, send_word, recv_word, empty_word, dead_word}
use lockness.Bags.Slot.Status.Recv.{
  contains-committed, and-sender_dead, or-sender_dead, or-recv_sleeping,
}
use lockness.Bags.Slot.Receiver.{
  TryRecv, Recv, take_message, after_load, try_recv, pause, after_try_recv, recv,
}
use lockness.Bags.Slot.Handles.{clone_sender, drop_sender, drop_receiver}
use lockness.Bags.Slot.Protocol.{
  RecvHold, Held, RecvAct, release, close, look, claim, Obeys, Obeys->>=,
}
use lockness.Bags.Slot.Protocol.Sending.{at, Ends, wake_if-Obeys}

pub room-pos : (x86 : Bool) → 0 < 2 ^ room x86
room-pos true = omega arith
room-pos false = omega arith

module _ (T : Type 0) (x86 : Bool) where
  -- From the sight of a message on.
  take_message-Obeys : Obeys x86 (take_message {T = T} x86) (at RecvHold.seen) (Ends RecvHold.idle)
  unfolding take_message ◌>>=◌ ◌>>◌
  take_message-Obeys = λ there asleep dead known. (
    false,
    false,
    dead,
    at RecvHold.full,
    and-sender_dead there asleep dead,
    claim refl,
    (
      refl,
      refl,
      λ v gone asleep' count fits few. (
        false,
        false,
        0,
        at RecvHold.idle,
        empty_word x86,
        room-pos x86,
        release refl,
        wake_if-Obeys x86 (contains (send_word x86 gone asleep' count) (send_sleeping x86)) Loc.send
            1 (ret (TryRecv.received v)) (at RecvHold.idle) (Ends RecvHold.idle) refl,
      ),
    ),
  )

  after_load-Obeys :
      (there asleep dead : Bool)
      → Obeys x86
          (after_load {T = T} x86 (recv_word there asleep dead))
          (at (if there then RecvHold.seen else RecvHold.idle))
          (Ends RecvHold.idle)
  unfolding after_load
  after_load-Obeys true asleep dead = rw (contains-committed true asleep dead) take_message-Obeys
  after_load-Obeys false asleep dead =
      rw (contains-committed false asleep dead)
        (elim (Bool-cases (contains (recv_word false asleep dead) sender_dead)) [
          | inl gone ↦ rw gone refl
          | inr alive ↦ rw alive refl
        ])

  -- `try_recv` looks at the slot only after it has seen a message, takes the message once, and gives
  -- the slot back empty.
  pub try_recv-Obeys : Obeys x86 (try_recv {T = T} x86) (at RecvHold.idle) (Ends RecvHold.idle)
  unfolding try_recv ◌>>=◌
  try_recv-Obeys = λ there asleep dead known. try_load there asleep dead
    where
      try_load :
          (there asleep dead : Bool)
          → (there' : Bool) × (asleep' : Bool) × (dead' : Bool) × (h' : Held) × (recv_word there
                asleep dead
              ≡ recv_word there' asleep' dead')
            × RecvAct (at RecvHold.idle) there there' h'
            × Obeys x86
                (after_load {T = T} x86 (recv_word there asleep dead))
                h'
                (Ends RecvHold.idle)
      try_load true asleep dead = (
        true,
        asleep,
        dead,
        at RecvHold.seen,
        refl,
        look refl refl,
        after_load-Obeys true asleep dead,
      )
      try_load false asleep dead = (
        false,
        asleep,
        dead,
        at RecvHold.idle,
        refl,
        RecvAct.keep,
        after_load-Obeys false asleep dead,
      )

  pause-Obeys :
      (again : ℕ → Prog T (Recv T)) (i : ℕ)
      → ((j : ℕ) → Obeys x86 (again j) (at RecvHold.idle) (Ends RecvHold.idle))
      → Obeys x86 (pause again i) (at RecvHold.idle) (Ends RecvHold.idle)
  unfolding pause ◌>>=◌ ◌>>◌
  pause-Obeys again i o = elim (Bool-cases (ltb i 32)) [
    | inl on ↦ rw on (o (i + 1))
    | inr off ↦ rw off (λ there asleep dead known. (
      there,
      true,
      dead,
      at RecvHold.idle,
      or-recv_sleeping there asleep dead,
      RecvAct.keep,
      elim (Bool-cases (not (recv_word there asleep dead == 0))) [
        | inl something ↦ rw something (o 0)
        | inr nothing ↦ rw nothing ((refl, refl), o 0)
      ],
    ))
  ]

  after_try_recv-Obeys :
      (again : ℕ → Prog T (Recv T)) (i : ℕ) (t : TryRecv T)
      → ((j : ℕ) → Obeys x86 (again j) (at RecvHold.idle) (Ends RecvHold.idle))
      → Obeys x86 (after_try_recv again i t) (at RecvHold.idle) (Ends RecvHold.idle)
  unfolding after_try_recv
  after_try_recv-Obeys again i (TryRecv.received v) o = refl
  after_try_recv-Obeys again i TryRecv.disconnected o = refl
  after_try_recv-Obeys again i TryRecv.empty o = pause-Obeys again i o

  pub recv-Obeys :
      (fuel i : ℕ) → Obeys x86 (recv {T = T} fuel x86 i) (at RecvHold.idle) (Ends RecvHold.idle)
  unfolding recv
  recv-Obeys zero i = tt
  recv-Obeys (suc fuel) i =
      Obeys->>= x86 (try_recv x86) (after_try_recv (λ j. recv fuel x86 j) i) (at RecvHold.idle)
        (Ends RecvHold.idle) (Ends RecvHold.idle) try_recv-Obeys
        (λ t h e.
          subst (λ h. Obeys x86 (after_try_recv (λ j. recv fuel x86 j) i t) h (Ends RecvHold.idle))
            (sym e) (after_try_recv-Obeys (λ j. recv fuel x86 j) i t (recv-Obeys fuel)))

  pub drop_receiver-Obeys :
      Obeys x86 (drop_receiver {T = T} x86) (at RecvHold.idle) (Ends RecvHold.closed)
  unfolding drop_receiver ◌>>=◌
  drop_receiver-Obeys = λ gone asleep count fits few. (
    true,
    false,
    0,
    at RecvHold.closed,
    dead_word x86,
    room-pos x86,
    close refl,
    wakes (contains (send_word x86 gone asleep count) (send_sleeping x86)),
  )
    where
      wakes :
          (b : Bool)
          → Obeys x86
              (wake_if {T = T} b Loc.send u32_max)
              (at RecvHold.closed)
              (Ends RecvHold.closed)
      wakes true = refl
      wakes false = refl

  module _ (r : RecvHold) where
    pub clone_sender-Obeys : Obeys x86 (clone_sender {T = T}) (at r) (Ends r)
    unfolding clone_sender ◌>>=◌
    clone_sender-Obeys = λ w. elim (Bool-cases (ltb (u32_max / 2) w)) [
      | inl many ↦ rw many tt
      | inr few ↦ rw few refl
    ]

    pub drop_sender-Obeys : Obeys x86 (drop_sender {T = T}) (at r) (Ends r)
    unfolding drop_sender ◌>>=◌
    drop_sender-Obeys = λ w. elim (Bool-cases (ltb 1 w)) [
      | inl more ↦ rw more refl
      | inr last ↦ rw last (λ there asleep dead known. (
        there,
        asleep,
        true,
        at r,
        or-sender_dead there asleep dead,
        RecvAct.keep,
        wakes (contains (recv_word there asleep dead) recv_sleeping),
      ))
    ]
      where
        wakes : (b : Bool) → Obeys x86 (wake_if {T = T} b Loc.recv u32_max) (at r) (Ends r)
        wakes true = refl
        wakes false = refl
