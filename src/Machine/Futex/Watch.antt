-- ===== src/Machine/Futex/Watch.antt =====
-- No sleeper is forgotten where all threads do what they owe.
use lockness.Prelude.{
  ℕ, ◌≡◌, ◌≢◌, sym, ap, subst, Bool, true, false, ◌==◌, arith, inl, inr, ◌⊎◌, Bool-cases, List,
  if◌then◌else◌,
}
use lockness.Machine.Program.{Loc, Prog, Shared}
use lockness.Machine.Threads.{set_thread}
use lockness.Machine.Futex.{World, waits_on, falls, after_wait, IsAsleepOn, rouse}
use lockness.Machine.Futex.Duty.{Part, owner, stranger}
use lockness.Machine.Futex.Waits.{
  is_wait, not-IsActing, not-Looks, after_wait-IsAlert, stranger-waits_on, falls-flag,
}
use lockness.Machine.Futex.Changed.{IsAlert, IsActing, Looks, Changed}

module _ {A : Type 0} (f : ℕ → A) (t : ℕ) (p : A) where
  pub set_thread-own : set_thread f t p t ≡ p
  set_thread-own = ground arith

  pub set_thread-other : (u : ℕ) → t ≢ u → set_thread f t p u ≡ f u
  set_thread-other u ne = ground arith

module _ (l : Loc) (Valid : Loc → ℕ → Type 0) (flag alarm : ℕ → Bool) (looked : ℕ → ℕ) {T : Type 0}
    (part : ℕ → Part) where
  -- Of the threads over one channel: all do what they owe; where one sleeps on the word, the flag
  -- is set, or a thread is about to see to it; and where the alarm is on, a thread is about to look.
  pub record Inv (s : World T) : Type 0 where
    pub alert : (t : ℕ) → IsAlert l Valid flag alarm looked (part t) (s.state.thread t)
    pub seen :
        (u : ℕ)
        → IsAsleepOn s l u
        → (flag (s.state.mem.word l) ≡ true)
          ⊎ ((t : ℕ) × IsActing l Valid flag alarm looked (s.state.thread t))
    pub heard :
        alarm (s.state.mem.word l) ≡ true
        → (t : ℕ) × Looks l Valid flag alarm looked (s.state.thread t)

  -- Of threads that a `set_thread` leaves alone.
  pub IsAlert-set :
      (thread : ℕ → Prog T (Unit {0})) (t : ℕ) (p : Prog T (Unit {0}))
      → ((u : ℕ) → IsAlert l Valid flag alarm looked (part u) (thread u))
      → IsAlert l Valid flag alarm looked (part t) p
      → (u : ℕ) → IsAlert l Valid flag alarm looked (part u) (set_thread thread t p u)
  IsAlert-set thread t p all own u = elim (Bool-cases (t == u)) [
    | inl same ↦
        let e : t ≡ u = ground arith in
        rw same (subst (λ x. IsAlert l Valid flag alarm looked (part x) p) e own)
    | inr other ↦ rw other (all u)
  ]

  pub keeps :
      (P : Prog T (Unit {0}) → Type 0) (thread : ℕ → Prog T (Unit {0})) (t : ℕ)
      (p : Prog T (Unit {0}))
      → (¬ P (thread t))
      → ((u : ℕ) × P (thread u))
      → (u : ℕ) × P (set_thread thread t p u)
  keeps P thread t p not_own (u, h) = (
    u,
    subst P
        (sym (set_thread-other thread t p u (λ e. not_own (subst (λ x. P (thread x)) (sym e) h))))
        h,
  )

  pub rouse-Inv :
      {s : World T} (t : ℕ) → is_wait (s.state.thread t) ≡ true → Inv s → Inv (rouse t s)
  rouse-Inv {s} t h inv =
      let thread = s.state.thread in
      let p' = after_wait (thread t) in
      record {
        alert =
            IsAlert-set thread t p' inv.alert
              (after_wait-IsAlert l Valid flag alarm looked (part t) (thread t) h (inv.alert t));
        seen = λ u on. elim (Bool-cases (t == u)) [
          | inl same ↦
              let bad = subst (λ b. (if b then false else s.asleep u) ≡ true) same on.0 in cc
          | inr other ↦
              elim (inv.seen u (
                subst (λ b. (if b then false else s.asleep u) ≡ true) other on.0,
                subst (λ b. waits_on l (if b then p' else thread u) ≡ true) other on.1,
              )) [
                | inl up ↦ inl up
                | inr busy ↦ inr (
                    keeps (IsActing l Valid flag alarm looked) thread t p'
                      (not-IsActing l Valid flag alarm looked (thread t) h) busy)
              ]
        ];
        heard = λ up.
            keeps (Looks l Valid flag alarm looked) thread t p'
              (not-Looks l Valid flag alarm looked (thread t) h) (inv.heard up);
      }

  pub fall-Inv :
      {s : World T} (t : ℕ)
      → Valid l (s.state.mem.word l)
      → falls s.state.mem (s.state.thread t) ≡ true
      → Inv s
      → Inv (record s { asleep = set_thread s.asleep t true })
  fall-Inv {s} t valid h inv = record {
    alert = inv.alert;
    seen = λ u on. elim (Bool-cases (t == u)) [
      | inl same ↦
          let e : t ≡ u = ground arith in
          inl (
            falls-flag l Valid flag alarm looked (part t) s.state.mem (s.state.thread t) valid
              (inv.alert t) h (subst (λ x. waits_on l (s.state.thread x) ≡ true) (sym e) on.1))
      | inr other ↦
          inv.seen u (subst (λ b. (if b then true else s.asleep u) ≡ true) other on.0, on.1)
    ];
    heard = inv.heard;
  }

  module _
      (alone : (t : ℕ)
        → part t ≡ owner
        → ((w : ℕ) → alarm w ≡ false) × ((u : ℕ) → t ≢ u → part u ≡ stranger)) where
    pub act-Inv :
        {s : World T} (t : ℕ) {m : Shared T} {p : Prog T (Unit {0})} (written taken : List T)
        → s.asleep t ≡ false
        → Changed l Valid flag alarm looked (part t) s.state.mem m (s.state.thread t) p
        → Inv s
        → Inv (record s {
          state = record {
            mem = m;
            thread = set_thread s.state.thread t p;
            written = written;
            taken = taken;
          };
        })
    act-Inv {s} t {m} {p} written taken up c inv =
        let thread = s.state.thread in
        record {
          alert = IsAlert-set thread t p inv.alert c.alert;
          seen = λ u on.
              let ne : t ≢ u =
                λ e. let x = on.0 in let y : s.asleep t ≡ s.asleep u = ap s.asleep e in cc in
              let before : IsAsleepOn s l u =
                (on.0, subst (λ q. waits_on l q ≡ true) (set_thread-other thread t p u ne) on.1) in
              elim (inv.seen u before) [
                | inl was ↦ elim (c.flagged was) [
                  | inl is ↦ inl is
                  | inr (inl wakes) ↦ inr (
                    t,
                    subst (IsActing l Valid flag alarm looked) (sym (set_thread-own thread t p))
                        (inl wakes),
                  )
                  | inr (inr alone_here) ↦ absurd (
                      stranger-waits_on l Valid flag alarm looked (thread u)
                        (subst (λ q. IsAlert l Valid flag alarm looked q (thread u))
                          ((alone t alone_here).1 u ne) (inv.alert u))
                        before.1)
                ]
                | inr (v, busy) ↦ elim (Bool-cases (t == v)) [
                  | inl same ↦
                      let e : v ≡ t = ground arith in
                      inl (
                        c.marked
                          (subst (λ x. IsActing l Valid flag alarm looked (thread x)) e busy))
                  | inr other ↦ inr (
                    v,
                    subst (IsActing l Valid flag alarm looked)
                        (sym (set_thread-other thread t p v (ground arith))) busy,
                  )
                ]
              ];
          heard = λ rings. elim (c.alarmed rings) [
            | inl (was, idle) ↦
                keeps (Looks l Valid flag alarm looked) thread t p idle (inv.heard was)
            | inr (inl looks) ↦
                (t, subst (Looks l Valid flag alarm looked) (sym (set_thread-own thread t p)) looks)
            | inr (inr alone_here) ↦ let silent = (alone t alone_here).0 (m.word l) in cc
          ];
        }
