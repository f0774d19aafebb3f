-- ===== src/Bags/Mpmc/Sleepers/Blocking.antt =====
-- What the calls of bags/src/mpmc.rs that wait owe to the other sleepers.
use lockness.Prelude.{
  ℕ, zero, suc, ◌<◌, bit_and, bit_or, ◌≡◌, refl, sym, subst, Bool, true, false, ◌==◌, ltb, arith,
  inl, inr, ◌⊎◌, Bool-cases, ==_iff,
}
use lockness.Word.Bits.{complement}
use lockness.Machine.Program.{Loc, Prog, out_of_fuel}
use lockness.Machine.Futex.Duty.{Duty, at_ease, must_look, partner, Alert->>=}
use lockness.Machine.Futex.Duties.{AtEase, IsReady, next_duty-ready}
use lockness.Machine.Futex.Rules.{silent-Alert, sleep_mark-Alert, Alert_then}
use lockness.Bags.Mpmc.Status.{n, all, contains, sleeping, counterparty_dead, u32_max}
use lockness.Bags.Mpmc.Buffer.{Buffer}
use lockness.Bags.Mpmc.Sender.{TrySend, try_send}
use lockness.Bags.Mpmc.Receiver.{TryRecv, try_recv}
use lockness.Bags.Mpmc.Blocking.{
  Spin, Send, Recv, retry, gone, sleep_on, check_send, spin_send, after_spin_send, after_try_send,
  send, check_recv, spin_recv, after_spin_recv, after_try_recv, recv,
}
use lockness.Bags.Mpmc.Sleepers.{IsWord, flag, alarm, looked}
use lockness.Bags.Mpmc.Sleepers.Words.{or_sleeping-flag-send, mark-flag-recv}
use lockness.Bags.Mpmc.Sleepers.Sending.{Does, try_send-Alert}
use lockness.Bags.Mpmc.Sleepers.Receiving.{try_recv-Alert}

-- A spin loop ends in a sleep only if it has seen the flag, and leaves a duty to look only where it
-- goes on to.
abbrev SpinEnds : Loc → Loc → Spin → Duty → Type 0
SpinEnds l m retry d = IsReady l IsWord flag alarm looked partner m d
SpinEnds l m gone d = d ≡ at_ease
SpinEnds l m (sleep_on e) d = (d ≡ at_ease) × (flag m e ≡ true)

-- A sender never owes a look.
ready-send :
    (l : Loc) (d : Duty) → IsReady l IsWord flag alarm looked partner Loc.send d → d ≡ at_ease
ready-send l d (inl ease) = ease
ready-send l d (inr (look, (w, here, rings))) = cc

module _ (l : Loc) (T : Type 0) where
  check_send-Alert :
      (w : ℕ) (next : Prog T Spin)
      → (flag Loc.send w ≡ false → Does l next at_ease (SpinEnds l Loc.send))
      → Does l (check_send w next) at_ease (SpinEnds l Loc.send)
  unfolding check_send
  check_send-Alert w next o = elim (Bool-cases (ltb (bit_or w all) u32_max)) [
    | inl room ↦ rw room (inl refl)
    | inr full ↦ rw full (elim (Bool-cases (contains w counterparty_dead)) [
      | inl dead ↦ rw dead refl
      | inr alive ↦ rw alive (elim (Bool-cases (contains w sleeping)) [
        | inl set ↦ rw set (refl, set)
        | inr clear ↦ rw clear (o clear)
      ])
    ])
  ]

  spin_send-Alert : (spin : ℕ) → Does l (spin_send {T = T} spin) at_ease (SpinEnds l Loc.send)
  unfolding spin_send
  spin_send-Alert zero =
      silent-Alert l IsWord flag alarm looked partner Loc.send (λ w. bit_or w sleeping) _
        (SpinEnds l Loc.send) (λ w fits h. or_sleeping-flag-send w fits) (λ w fits h. cc)
        (λ w fits.
          check_send-Alert (bit_or w sleeping) out_of_fuel
            (λ clear. let set = or_sleeping-flag-send w fits in cc))
  spin_send-Alert (suc spin) =
      silent-Alert l IsWord flag alarm looked partner Loc.send (λ w. w) _ (SpinEnds l Loc.send)
        (λ w fits h. h) (λ w fits h. h)
        (λ w fits. check_send-Alert w (spin_send spin) (λ _. spin_send-Alert spin))

  after_spin_send-Alert :
      (b : Buffer T) (again : Prog T (Send T)) (s : Spin) (d : Duty)
      → ((d : Duty) → IsReady l IsWord flag alarm looked partner Loc.send d → Does l again d AtEase)
      → SpinEnds l Loc.send s d
      → Does l (after_spin_send b again s) d AtEase
  unfolding after_spin_send
  after_spin_send-Alert b again retry d o q = o d q
  after_spin_send-Alert b again gone d o q = q
  after_spin_send-Alert b again (sleep_on e) d o q = rw q.0 (
      sleep_mark-Alert l IsWord flag alarm looked partner Loc.send (λ w. w == e)
        (λ w. bit_or w sleeping) again AtEase (λ _. refl)
        (λ w fits is. subst (λ x. flag Loc.send x ≡ true) (sym ((==_iff w e).0 is)) q.1)
        (λ w fits. or_sleeping-flag-send w fits) o)

  -- A thread with something to look for is a receiver.
  check_recv-Alert :
      (w : ℕ) (next : Prog T Spin) (d : Duty)
      → (d ≡ at_ease) ⊎ (d ≡ must_look) × (alarm Loc.recv w ≡ true) × (alarm l w ≡ true)
      → (flag Loc.recv w ≡ false → Does l next at_ease (SpinEnds l Loc.recv))
      → Does l (check_recv w next) d (SpinEnds l Loc.recv)
  unfolding check_recv
  check_recv-Alert w next d which o = elim (Bool-cases (ltb 0 (bit_and w (complement 32 all)))) [
    | inl some_there ↦ rw some_there (elim which [
      | inl ease ↦ inl ease
      | inr (look, here, rings) ↦ inr (look, (w, here, rings))
    ])
    | inr nothing_there ↦
        let ease : d ≡ at_ease = elim which [
          | inl ease ↦ ease
          | inr (look, rings, _) ↦ ground arith
        ] in
        rw (nothing_there, ease)
          (elim (Bool-cases (contains (complement 32 w) counterparty_dead)) [
            | inl dead ↦ rw dead refl
            | inr alive ↦ rw alive (elim (Bool-cases (contains (complement 32 w) sleeping)) [
              | inl set ↦ rw set (refl, set)
              | inr clear ↦ rw clear (o clear)
            ])
          ])
  ]

  spin_recv-Alert : (spin : ℕ) → Does l (spin_recv {T = T} spin) at_ease (SpinEnds l Loc.recv)
  unfolding spin_recv
  spin_recv-Alert zero = (
    tt,
    λ w fits.
        check_recv-Alert (bit_and w (complement 32 sleeping)) out_of_fuel _
          (next_duty-ready l IsWord flag alarm looked partner Loc.recv
            (λ w. bit_and w (complement 32 sleeping)) w (λ _. mark-flag-recv w fits))
          (λ clear. let set = mark-flag-recv w fits in cc),
  )
  spin_recv-Alert (suc spin) =
      silent-Alert l IsWord flag alarm looked partner Loc.recv (λ w. w) _ (SpinEnds l Loc.recv)
        (λ w fits h. h) (λ w fits h. h)
        (λ w fits.
          check_recv-Alert w (spin_recv spin) at_ease (inl refl) (λ _. spin_recv-Alert spin))

  after_spin_recv-Alert :
      (again : Prog T (Recv T)) (s : Spin) (d : Duty)
      → ((d : Duty) → IsReady l IsWord flag alarm looked partner Loc.recv d → Does l again d AtEase)
      → SpinEnds l Loc.recv s d
      → Does l (after_spin_recv again s) d AtEase
  unfolding after_spin_recv
  after_spin_recv-Alert again retry d o q = o d q
  after_spin_recv-Alert again gone d o q = q
  after_spin_recv-Alert again (sleep_on e) d o q = rw q.0 (
      sleep_mark-Alert l IsWord flag alarm looked partner Loc.recv (λ w. w == e)
        (λ w. bit_and w (complement 32 sleeping)) again AtEase (λ _. refl)
        (λ w fits is. subst (λ x. flag Loc.recv x ≡ true) (sym ((==_iff w e).0 is)) q.1)
        (λ w fits. mark-flag-recv w fits) o)

  after_try_send-Alert :
      (again : Buffer T → Prog T (Send T)) (r : TrySend T)
      → ((b : Buffer T) (d : Duty)
          → IsReady l IsWord flag alarm looked partner Loc.send d
          → Does l (again b) d AtEase)
      → Does l (after_try_send again r) at_ease AtEase
  unfolding after_try_send
  after_try_send-Alert again (TrySend.sent rest) o = refl
  after_try_send-Alert again (TrySend.disconnected b) o = refl
  after_try_send-Alert again (TrySend.full b) o =
      Alert->>= l IsWord (flag l) (alarm l) (looked l) partner (spin_send 32)
        (after_spin_send b (again b)) at_ease (SpinEnds l Loc.send) AtEase (spin_send-Alert 32)
        (λ s d q. after_spin_send-Alert b (again b) s d (o b) q)

  pub send-Alert :
      (fuel : ℕ) (x86 : Bool) (tries bias : ℕ) (b : Buffer T)
      → bias < n
      → Does l (send fuel x86 tries bias b) at_ease AtEase
  unfolding send
  send-Alert zero x86 tries bias b small = tt
  send-Alert (suc fuel) x86 tries bias b small =
      Alert_then l IsWord flag alarm looked partner (try_send x86 tries bias b) _ at_ease AtEase
        (try_send-Alert l x86 tries bias b small)
        (λ r.
          after_try_send-Alert (λ d. send fuel x86 tries bias d) r
            (λ b' d ready. rw (ready-send l d ready) (send-Alert fuel x86 tries bias b' small)))

  after_try_recv-Alert :
      (again : Prog T (Recv T)) (r : TryRecv T)
      → ((d : Duty) → IsReady l IsWord flag alarm looked partner Loc.recv d → Does l again d AtEase)
      → Does l (after_try_recv again r) at_ease AtEase
  unfolding after_try_recv
  after_try_recv-Alert again (TryRecv.received values) o = refl
  after_try_recv-Alert again TryRecv.disconnected o = refl
  after_try_recv-Alert again TryRecv.empty o =
      Alert->>= l IsWord (flag l) (alarm l) (looked l) partner (spin_recv 32)
        (after_spin_recv again) at_ease (SpinEnds l Loc.recv) AtEase (spin_recv-Alert 32)
        (λ s d q. after_spin_recv-Alert again s d o q)

  pub recv-Alert :
      (fuel : ℕ) (x86 : Bool) (d : Duty)
      → IsReady l IsWord flag alarm looked partner Loc.recv d
      → Does l (recv {T = T} fuel x86) d AtEase
  unfolding recv
  recv-Alert zero x86 d (inl ease) = rw ease tt
  recv-Alert zero x86 d (inr look) = rw look.0 tt
  recv-Alert (suc fuel) x86 d ready =
      Alert_then l IsWord flag alarm looked partner (try_recv x86) _ d AtEase
        (try_recv-Alert l T x86 d ready)
        (λ r. after_try_recv-Alert (recv fuel x86) r (recv-Alert fuel x86))
