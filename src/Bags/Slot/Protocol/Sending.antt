-- ===== src/Bags/Slot/Protocol/Sending.antt =====
-- `try_send` of bags/src/slot.rs under the protocol.
use lockness.Prelude.{
  ℕ, suc, ◌^◌, ◌<◌, ◌≡◌, refl, sym, ap, ◌∙◌, subst, bit_or, Bool, true, false, ◌&&◌, ltb,
  if◌then◌else◌, inl, inr, Bool-cases, arith,
}
use lockness.Machine.Program.{Loc, Prog, ret, rmw, abort, ◌>>=◌, ◌>>◌}
use lockness.Machine.Access.{wake_if}
use lockness.Bags.Mpmc.Status.{contains}
use lockness.Bags.Slot.Status.{send_sleeping, abort_limit, recv_sleeping}
use lockness.Bags.Slot.Status.Flags.{
  room, send_word, recv_word, reservations-send_word, contains-receiver_dead, or-send_sleeping,
  reserved, next_count, reserved-send_word, next_count-lt, next_count-pos, next_count-x86,
}
use lockness.Bags.Slot.Sender.{TrySend, fill, after_reserve, try_send}
use lockness.Bags.Slot.Protocol.{
  SendHold, RecvHold, Held, SendAct, take, more, publish, is_abort, Obeys,
}

-- What a thread has between two calls.
abbrev pub at : RecvHold → Held
at r = record { sender = SendHold.nothing; receiver = r }

abbrev pub Ends : {A : Type 0} → RecvHold → A → Held → Type 0
Ends r _ h = h ≡ at r

module _ (x86 : Bool) {T : Type 0} where
  pub wake_if-Obeys :
      {A : Type 0} (b : Bool) (l : Loc) (k : ℕ) (p : Prog T A) (h : Held) (Q : A → Held → Type 0)
      → Obeys x86 p h Q
      → Obeys x86 (wake_if b l k >> p) h Q
  unfolding ◌>>=◌ ◌>>◌
  wake_if-Obeys true l k p h Q o = o
  wake_if-Obeys false l k p h Q o = o

  -- An access to `send` that changes no more than the flag of the sleepers.
  pub or_send-Obeys :
      {A : Type 0} (k : ℕ → Prog T A) (h : Held) (Q : A → Held → Type 0)
      → ((w : ℕ) → Obeys x86 (k w) h Q)
      → Obeys x86 (rmw Loc.send (λ w. bit_or w (send_sleeping x86)) k) h Q
  or_send-Obeys k h Q o = λ dead asleep count fits few. (
    dead,
    true,
    count,
    h,
    or-send_sleeping x86 dead asleep count fits,
    fits,
    SendAct.keep,
    o (send_word x86 dead asleep count),
  )

  pub load_send-Obeys :
      {A : Type 0} (k : ℕ → Prog T A) (h : Held) (Q : A → Held → Type 0)
      → ((w : ℕ) → Obeys x86 (k w) h Q)
      → Obeys x86 (rmw Loc.send (λ w. w) k) h Q
  load_send-Obeys k h Q o = λ dead asleep count fits few.
      (dead, asleep, count, h, refl, fits, SendAct.keep, o (send_word x86 dead asleep count))

  module _ (r : RecvHold) where
    fill-Obeys : (v : T) → Obeys x86 (fill v) (record (at r) { sender = SendHold.filling }) (Ends r)
    unfolding fill ◌>>=◌ ◌>>◌
    fill-Obeys v = (
      refl,
      refl,
      λ there asleep dead known. (
        true,
        false,
        false,
        at r,
        refl,
        publish refl,
        wake_if-Obeys (contains (recv_word there asleep dead) recv_sleeping) Loc.recv 1
            (ret TrySend.sent) (at r) (Ends r) refl,
      ),
    )

    -- What a reservation must show, with the program that follows it.
    abbrev Reserves : Bool → Bool → ℕ → Prog T (TrySend T) → Type 0
    Reserves dead asleep count p =
        (dead' : Bool) × (asleep' : Bool) × (count' : ℕ) × (h' : Held) × (reserved x86
            (send_word x86 dead asleep count)
          ≡ send_word x86 dead' asleep' count')
        × (count' < 2 ^ room x86)
        × SendAct x86 (at r) (is_abort p) dead count dead' count' h'
        × Obeys x86 p h' (Ends r)

    after_reserve_eq :
        (v : T) (dead asleep : Bool) (count : ℕ)
        → count < 2 ^ room x86
        → after_reserve x86 v (send_word x86 dead asleep count) ≡ (
            if x86 && ltb abort_limit count
            then abort
            else if dead
            then ret (TrySend.disconnected v)
            else if ltb 0 count
            then ret (TrySend.full v)
            else fill v)
    unfolding after_reserve
    after_reserve_eq v dead asleep count fits =
        rw
          (
            reservations-send_word x86 dead asleep count fits,
            contains-receiver_dead x86 dead asleep count fits,
          )
          refl

    chosen :
        (v : T) (stop dead asleep : Bool) (count : ℕ)
        → count < 2 ^ room x86
        → (x86 ≡ true → suc count < 2 ^ 62)
        → (x86 && ltb abort_limit count) ≡ stop
        → Reserves dead asleep count (
            if stop
            then abort
            else if dead
            then ret (TrySend.disconnected v)
            else if ltb 0 count
            then ret (TrySend.full v)
            else fill v)
    chosen v true dead asleep count fits few e = (
      dead,
      asleep,
      next_count x86 count,
      at r,
      reserved-send_word x86 dead asleep count fits few,
      next_count-lt x86 count fits few,
      more (inl (ground arith)) (next_count-pos x86 count) (next_count-x86 x86 count) (λ x l. refl),
      tt,
    )
    chosen v false true asleep count fits few e = (
      true,
      asleep,
      next_count x86 count,
      at r,
      reserved-send_word x86 true asleep count fits few,
      next_count-lt x86 count fits few,
      more (inr refl) (next_count-pos x86 count) (next_count-x86 x86 count) (λ x l. ground arith),
      refl,
    )
    chosen v false false asleep count fits few e = elim (Bool-cases (ltb 0 count)) [
      | inl taken ↦ rw taken (
        false,
        asleep,
        next_count x86 count,
        at r,
        reserved-send_word x86 false asleep count fits few,
        next_count-lt x86 count fits few,
        more (inl (ground arith)) (next_count-pos x86 count) (next_count-x86 x86 count)
            (λ x l. ground arith),
        refl,
      )
      | inr free ↦
          let zero_count : count ≡ 0 = ground arith in
          rw free (
            false,
            asleep,
            next_count x86 count,
            record (at r) { sender = SendHold.filling },
            reserved-send_word x86 false asleep count fits few,
            next_count-lt x86 count fits few,
            take refl refl zero_count (next_count-pos x86 count)
                (λ x. next_count-x86 x86 count x ∙ ap suc zero_count),
            fill-Obeys v,
          )
    ]

    reserve_round :
        (v : T) (dead asleep : Bool) (count : ℕ)
        → count < 2 ^ room x86
        → (x86 ≡ true → suc count < 2 ^ 62)
        → Reserves dead asleep count (after_reserve x86 v (send_word x86 dead asleep count))
    reserve_round v dead asleep count fits few =
        subst (Reserves dead asleep count) (sym (after_reserve_eq v dead asleep count fits))
          (chosen v (x86 && ltb abort_limit count) dead asleep count fits few refl)

module _ (T : Type 0) (r : RecvHold) where
  pub try_send-Obeys : (x86 : Bool) (v : T) → Obeys x86 (try_send x86 v) (at r) (Ends r)
  unfolding try_send ◌>>=◌
  try_send-Obeys true v =
      λ dead asleep count fits few. reserve_round true r v dead asleep count fits few
  try_send-Obeys false v =
      λ dead asleep count fits few. reserve_round false r v dead asleep count fits few
