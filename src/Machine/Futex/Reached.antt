-- ===== src/Machine/Futex/Reached.antt =====
-- The states that are reached with the futex.
use lockness.Prelude.{
  ℕ, ◌<◌, ◌≡◌, ◌≢◌, refl, sym, ap, subst, Bool, true, false, ◌&&◌, ◌==◌, arith, inl, inr,
  Bool-cases, ltb, if◌then◌else◌,
}
use lockness.Machine.Program.{Loc, Prog, same_loc, Shared, wake}
use lockness.Machine.Threads.{System, Event, Move, set_thread}
use lockness.Machine.Threads
use lockness.Machine.Futex.{
  World, waits_on, after_wait, IsAsleepOn, rouse, called, Wakes, enough, nobody, one, Step, act,
  fall, pass, interrupt, Reach, start, later,
}
use lockness.Machine.Futex.Refines.{Reach-Reach}
use lockness.Machine.Futex.Duty.{at_ease, Part, partner, owner, stranger}
use lockness.Machine.Futex.Waits.{
  waits_on-is_wait, passes-is_wait, not-Looks, not-IsActing_wake, after_wait-IsAlert,
  stranger-waits_on, partner-after_wait,
}
use lockness.Machine.Futex.Changed.{IsAlert, IsActing, Looks, Move-Changed, same_loc-eq}
use lockness.Machine.Futex.Watch.{
  set_thread-own, set_thread-other, Inv, IsAlert-set, keeps, rouse-Inv, act-Inv, fall-Inv,
}

module _ (l : Loc) (Valid : Loc → ℕ → Type 0) (flag alarm : ℕ → Bool) (looked : ℕ → ℕ) {T : Type 0}
    (part : ℕ → Part) where
  module _ (needs : (w : ℕ) → alarm w ≡ true → flag w ≡ true)
      (quiet : (w : ℕ) → Valid l w → alarm (looked w) ≡ false)
      (alone : (t : ℕ)
        → part t ≡ owner
        → ((w : ℕ) → alarm w ≡ false) × ((u : ℕ) → t ≢ u → part u ≡ stranger)) where
    Wakes-Inv :
        {m : Loc} {n : ℕ} {s u : World T}
        → Wakes m n s u
        → Inv l Valid flag alarm looked part s
        → Inv l Valid flag alarm looked part u
    Wakes-Inv enough inv = inv
    Wakes-Inv (nobody none_asleep) inv = inv
    Wakes-Inv {m} {s = s} (one t on w) inv = Wakes-Inv w (
        rouse-Inv l Valid flag alarm looked part t (waits_on-is_wait m (s.state.thread t) on.1) inv)

    -- The first of those that a wake rouses sees to the others.
    next_acts :
        (s : World T) (t : ℕ) (q : Part)
        → part t ≡ q
        → ((u : ℕ) → IsAlert l Valid flag alarm looked (part u) (s.state.thread u))
        → IsAsleepOn s l t
        → (u : ℕ) → IsAsleepOn (rouse t s) l u
        → (v : ℕ) × IsActing l Valid flag alarm looked ((rouse t s).state.thread v)
    next_acts s t partner e alert on u on_u =
        let thread = s.state.thread in
        let acts =
          partner-after_wait l Valid flag alarm looked (thread t)
            (subst (λ q. IsAlert l Valid flag alarm looked q (thread t)) e (alert t)) on.1 in
        (
          t,
          subst (IsActing l Valid flag alarm looked)
              (sym (set_thread-own thread t (after_wait (thread t)))) acts,
        )
    next_acts s t owner e alert on u on_u =
        let thread = s.state.thread in
        let p' = after_wait (thread t) in
        let ne : t ≢ u =
          λ same. let x : (if t == u then false else s.asleep u) ≡ true = on_u.0 in ground arith in
        absurd (
          stranger-waits_on l Valid flag alarm looked (thread u)
            (subst (λ q. IsAlert l Valid flag alarm looked q (thread u)) ((alone t e).1 u ne)
              (alert u))
            (subst (λ q. waits_on l q ≡ true) (set_thread-other thread t p' u ne) on_u.1))
    next_acts s t stranger e alert on u on_u = absurd (
        stranger-waits_on l Valid flag alarm looked (s.state.thread t)
          (subst (λ q. IsAlert l Valid flag alarm looked q (s.state.thread t)) e (alert t)) on.1)

    Wakes-seen :
        {n : ℕ} {s u : World T}
        → Wakes l n s u
        → 0 < n
        → ((t : ℕ) → IsAlert l Valid flag alarm looked (part t) (s.state.thread t))
        → (alarm (s.state.mem.word l) ≡ true
            → (t : ℕ) × Looks l Valid flag alarm looked (s.state.thread t))
        → Inv l Valid flag alarm looked part u
    Wakes-seen enough pos alert heard = absurd (omega arith)
    Wakes-seen (nobody none_asleep) pos alert heard = record {
      alert = alert;
      seen = λ u on. absurd (none_asleep u on);
      heard = heard;
    }
    Wakes-seen {s = s} (one t on w) pos alert heard =
        let thread = s.state.thread in
        let h = waits_on-is_wait l (thread t) on.1 in
        let p' = after_wait (thread t) in
        Wakes-Inv w (record {
          alert =
              IsAlert-set l Valid flag alarm looked part thread t p' alert
                (after_wait-IsAlert l Valid flag alarm looked (part t) (thread t) h (alert t));
          seen = λ u on_u. inr (next_acts s t (part t) refl alert on u on_u);
          heard = λ rings.
              keeps l Valid flag alarm looked part (Looks l Valid flag alarm looked) thread t p'
                (not-Looks l Valid flag alarm looked (thread t) h) (heard rings);
        })

    wake-Inv :
        {s u : World T} (t : ℕ) {m : Loc} {n : ℕ} {k : Prog T (Unit {0})}
        → s.asleep t ≡ false
        → s.state.thread t ≡ wake m n k
        → Wakes m n (called t m n k s) u
        → Inv l Valid flag alarm looked part s
        → Inv l Valid flag alarm looked part u
    wake-Inv {s} {u} t {m} {n} {k} up e w inv =
        let thread = s.state.thread in
        let own : IsAlert l Valid flag alarm looked (part t) (wake m n k) =
          subst (IsAlert l Valid flag alarm looked (part t)) e (inv.alert t) in
        let alert =
          IsAlert-set l Valid flag alarm looked part thread t k inv.alert (at_ease, own.1.1) in
        let heard : alarm (s.state.mem.word l) ≡ true
            → (v : ℕ) × Looks l Valid flag alarm looked (set_thread thread t k v) =
          λ rings.
            keeps l Valid flag alarm looked part (Looks l Valid flag alarm looked) thread t k
              (λ looks. subst (Looks l Valid flag alarm looked) e looks) (inv.heard rings) in
        elim (Bool-cases (same_loc m l && ltb 0 n)) [
          | inl here ↦
              Wakes-seen
                (subst (λ x. Wakes x n (called t m n k s) u) (same_loc-eq m l (ground arith)) w)
                (ground arith) alert heard
          | inr elsewhere ↦ Wakes-Inv w (record {
            alert = alert;
            seen = λ v on.
                let ne : t ≢ v = λ same.
                  let x : s.asleep t ≡ s.asleep v = ap s.asleep same in let y = on.0 in cc in
                elim (inv.seen v (
                  on.0,
                  subst (λ q. waits_on l q ≡ true) (set_thread-other thread t k v ne) on.1,
                )) [
                  | inl is ↦ inl is
                  | inr busy ↦ inr (
                      keeps l Valid flag alarm looked part (IsActing l Valid flag alarm looked)
                        thread t k
                        (λ acts.
                          not-IsActing_wake l Valid flag alarm looked m n k elsewhere
                            (subst (IsActing l Valid flag alarm looked) e acts))
                        busy)
                ];
            heard = heard;
          })
        ]

    Step-Inv :
        {s u : World T}
        → ((k : Loc) → Valid k (s.state.mem.word k))
        → Step s u
        → Inv l Valid flag alarm looked part s
        → Inv l Valid flag alarm looked part u
    Step-Inv {s} valid (act t up h mv) inv =
        act-Inv l Valid flag alarm looked part alone t _ _ up
          (Move-Changed l Valid flag alarm looked needs quiet (part t) valid mv h (inv.alert t)) inv
    Step-Inv valid (fall t up h) inv = fall-Inv l Valid flag alarm looked part t (valid l) h inv
    Step-Inv {s} valid (pass t up h) inv =
        rouse-Inv l Valid flag alarm looked part t (passes-is_wait s.state.mem (s.state.thread t) h)
          inv
    Step-Inv valid (Step.wake t up e w) inv = wake-Inv t up e w inv
    Step-Inv {s} valid (interrupt t m on) inv =
        rouse-Inv l Valid flag alarm looked part t (waits_on-is_wait m (s.state.thread t) on.1) inv

    module _ {first : Shared T} {thread : ℕ → Prog T (Unit {0})}
        (valid : (s : System T) → Threads.Reach first thread s → (k : Loc) → Valid k (s.mem.word k))
        (alert : (t : ℕ) → IsAlert l Valid flag alarm looked (part t) (thread t))
        (silent : alarm (first.word l) ≡ false) where
      pub Reach-Inv : {s : World T} → Reach first thread s → Inv l Valid flag alarm looked part s
      Reach-Inv start = record { alert = alert; seen = λ u on. let x = on.0 in cc; heard = λ h. cc }
      Reach-Inv (later r st) = Step-Inv (valid _ (Reach-Reach r)) st (Reach-Inv r)
