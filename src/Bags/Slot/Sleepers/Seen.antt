-- ===== src/Bags/Slot/Sleepers/Seen.antt =====
-- Sleepers of one slot of bags/src/slot.rs, however its clients interleave.
use lockness.Prelude.{
  ℕ, ◌<◌, ◌≡◌, ◌≢◌, refl, sym, subst, Bool, true, ◌==◌, arith, inl, inr, ◌⊎◌, Bool-cases,
  if◌then◌else◌,
}
use lockness.Machine.Program.{Loc, Prog, same_loc}
use lockness.Machine.Threads.{System}
use lockness.Machine.Threads
use lockness.Machine.Futex.{World, IsAsleepOn}
use lockness.Machine.Futex
use lockness.Machine.Futex.Duty.{at_ease, must_wake, must_mark, partner, owner, stranger, Meets}
use lockness.Machine.Futex.Changed.{IsAlert, IsActing, Looks}
use lockness.Machine.Futex.Waits.{waits_on-is_wait, not-IsActing, stranger-waits_on}
use lockness.Machine.Futex.Refines.{Reach-Reach}
use lockness.Machine.Futex.Watch.{Inv}
use lockness.Machine.Futex.Reached.{Reach-Inv}
use lockness.Bags.Mpmc.Status.{contains}
use lockness.Bags.Slot.Status.{send_sleeping, recv_sleeping, reservations}
use lockness.Bags.Slot.Handles.{mpsc}
use lockness.Bags.Slot.System.Clients.{IsClient}
use lockness.Bags.Slot.System.Invariant.{AreClients}
use lockness.Bags.Slot.System.Invariant
use lockness.Bags.Slot.System.Owners.{view}
use lockness.Bags.Slot.System.Aborts.{aborts-le}
use lockness.Bags.Slot.Status.Flags.{abort_limit-eq}
use lockness.Bags.Slot.Sleepers.{IsWord, flag, alarm, looked}
use lockness.Bags.Slot.Sleepers.Words.{clear-alarm, empty-flag, reserved-alarm}
use lockness.Bags.Slot.Sleepers.Clients.{IsClient-Alert, part_of}
use lockness.Bags.Slot.Sleepers.Marks.{not_marks}

module _ {T : Type 0} {x86 : Bool} {k : ℕ} {thread : ℕ → Prog T (Unit {0})} {s : World T}
    (clients : AreClients x86 k thread) (r : Futex.Reach mpsc thread s) where
  valid : (u : System T) → Threads.Reach mpsc thread u → (l : Loc) → IsWord x86 l (u.mem.word l)
  valid u reached Loc.send =
      let inv = Invariant.Reach-Inv x86 k clients.few clients reached in
      (
        inv.shown.dead,
        inv.shown.asleep,
        inv.shown.count,
        inv.shown.send_is,
        inv.shown.fits,
        λ x. omega (arith, inv.bounded x, aborts-le u.thread k, abort_limit-eq, clients.few),
      )
  valid u reached Loc.recv =
      let inv = Invariant.Reach-Inv x86 k clients.few clients reached in
      (inv.shown.there, inv.shown.receiver_asleep, inv.shown.sender_dead, inv.shown.recv_is)
  valid u reached Loc.num_senders = tt
  valid u reached Loc.num_receivers = tt

  alert :
      (l : Loc) (t : ℕ)
      → (same_loc Loc.send l ≡ true → part_of l t ≡ partner)
      → (t ≡ 0 → same_loc Loc.recv l ≡ true → part_of l t ≡ owner)
      → IsAlert l (IsWord x86) (flag x86 l) (alarm x86 l) (looked x86 l) (part_of l t) (thread t)
  alert l t alike own = elim (Bool-cases (t == 0)) [
    | inl first ↦
        let e : 0 ≡ t = ground arith in
        (
          at_ease,
          IsClient-Alert x86 l (part_of l t) alike
              (subst (λ x. IsClient x86 true (thread x)) e clients.receiver) (λ _. own (sym e)),
        )
    | inr later ↦ (
      at_ease,
      IsClient-Alert x86 l (part_of l t) alike (clients.senders t (ground arith)) (λ b. cc),
    )
  ]

  watched_send :
      Inv Loc.send
        (IsWord x86)
        (flag x86 Loc.send)
        (alarm x86 Loc.send)
        (looked x86 Loc.send)
        (part_of Loc.send)
        s
  unfolding mpsc
  watched_send =
      Reach-Inv Loc.send (IsWord x86) (flag x86 Loc.send) (alarm x86 Loc.send) (looked x86 Loc.send)
        (part_of Loc.send) (λ w h. ground arith) (λ w valid. reserved-alarm x86 w valid) (λ t e. cc)
        valid (λ t. alert Loc.send t (λ _. refl) (λ _ h. cc)) (clear-alarm x86 0 (empty-flag x86)) r

  watched_recv :
      Inv Loc.recv
        (IsWord x86)
        (flag x86 Loc.recv)
        (alarm x86 Loc.recv)
        (looked x86 Loc.recv)
        (part_of Loc.recv)
        s
  unfolding mpsc
  watched_recv =
      Reach-Inv Loc.recv (IsWord x86) (flag x86 Loc.recv) (alarm x86 Loc.recv) (looked x86 Loc.recv)
        (part_of Loc.recv) (λ w h. cc) (λ w valid. refl) (λ t e. (λ w. refl, λ u ne. ground arith))
        valid (λ t. alert Loc.recv t (λ h. cc) (λ e _. rw e refl)) refl r

  -- However the calls of the receiver and of fewer than 2 ^ 60 senders interleave, and whichever
  -- sleepers a wake picks: while a thread sleeps in `send`, the flag SLEEPING is set in the word
  -- `send` and the slot is reserved, or a thread is about to wake a sleeper on that word, to set the
  -- flag, or to reserve the slot (an access that does to the word what that of `try_send` does), or
  -- has run out of the fuel of the model behind its sleep.
  pub slot_sleeping_sender :
      (u : ℕ)
      → IsAsleepOn s Loc.send u
      → (contains (s.state.mem.word Loc.send) (send_sleeping x86) ≡ true)
          × (0 < reservations x86 (s.state.mem.word Loc.send))
        ⊎ ((t : ℕ) × (IsActing Loc.send
                (IsWord x86)
                (flag x86 Loc.send)
                (alarm x86 Loc.send)
                (looked x86 Loc.send)
                (s.state.thread t)
              ⊎ Looks Loc.send
                  (IsWord x86)
                  (flag x86 Loc.send)
                  (alarm x86 Loc.send)
                  (looked x86 Loc.send)
                  (s.state.thread t)))
  slot_sleeping_sender u on =
      let inv = watched_send in
      let w : ℕ = s.state.mem.word Loc.send in
      elim (inv.seen u on) [
        | inr (t, acts) ↦ inr (t, inl acts)
        | inl set ↦ elim (Bool-cases (reservations x86 w == 0)) [
          | inl free ↦ let (t, looks) = inv.heard (rw (set, free) refl) in inr (t, inr looks)
          | inr taken ↦ inl (set, ground arith)
        ]
      ]

  asleep_first : (u : ℕ) → IsAsleepOn s Loc.recv u → u ≡ 0
  asleep_first u on = elim (Bool-cases (u == 0)) [
    | inl first ↦ ground arith
    | inr later ↦
        let alone : IsAlert Loc.recv (IsWord x86) (flag x86 Loc.recv) (alarm x86 Loc.recv)
            (looked x86 Loc.recv) stranger (s.state.thread u) =
          subst
            (λ b.
              IsAlert Loc.recv (IsWord x86) (flag x86 Loc.recv) (alarm x86 Loc.recv)
                (looked x86 Loc.recv) (if b then owner else stranger) (s.state.thread u))
            later (watched_recv.alert u) in
        absurd (
          stranger-waits_on Loc.recv (IsWord x86) (flag x86 Loc.recv) (alarm x86 Loc.recv)
            (looked x86 Loc.recv) (s.state.thread u) alone on.1)
  ]

  -- Nobody but the sleeper itself ever sets the word to SLEEPING alone.
  not_marked :
      (t : ℕ)
      → t ≢ 0
      → ¬ Meets Loc.recv
          (IsWord x86)
          (flag x86 Loc.recv)
          (alarm x86 Loc.recv)
          (looked x86 Loc.recv)
          must_mark
          (s.state.thread t)
  not_marked t ne =
      let inv = Invariant.Reach-Inv x86 k clients.few clients (Reach-Reach r) in
      not_marks x86 (s.state.thread t) (view t inv.state) (ground arith) (inv.obeys t)

  -- However the calls of the receiver and of fewer than 2 ^ 60 senders interleave: while a thread
  -- sleeps in `recv`, it is the one with the receiver, and the word `recv` is SLEEPING alone (neither
  -- COMMIT nor SENDER_DEAD is set), or a thread is about to wake a sleeper on that word.
  pub slot_sleeping_receiver :
      (u : ℕ)
      → IsAsleepOn s Loc.recv u
      → (u ≡ 0)
        × ((s.state.mem.word Loc.recv ≡ recv_sleeping)
            ⊎ ((t : ℕ) × Meets Loc.recv
                  (IsWord x86)
                  (flag x86 Loc.recv)
                  (alarm x86 Loc.recv)
                  (looked x86 Loc.recv)
                  must_wake
                  (s.state.thread t)))
  slot_sleeping_receiver u on =
      let first = asleep_first u on in
      (
        first,
        elim (watched_recv.seen u on) [
          | inl set ↦ inl (ground arith)
          | inr (t, inl wakes) ↦ inr (t, wakes)
          | inr (t, inr marks) ↦ absurd (elim (Bool-cases (t == 0)) [
            | inl same ↦
                let e : t ≡ u = ground arith in
                not-IsActing Loc.recv (IsWord x86) (flag x86 Loc.recv) (alarm x86 Loc.recv)
                  (looked x86 Loc.recv) (s.state.thread u)
                  (waits_on-is_wait Loc.recv (s.state.thread u) on.1)
                  (inr (
                    subst
                      (λ x.
                        Meets Loc.recv (IsWord x86) (flag x86 Loc.recv) (alarm x86 Loc.recv)
                          (looked x86 Loc.recv) must_mark (s.state.thread x))
                      e marks))
            | inr other ↦ not_marked t (ground arith) marks
          ])
        ],
      )
