-- ===== src/Bags/Slot/Sleepers/Clients.antt =====
-- What the clients of one slot of bags/src/slot.rs owe to its sleepers.
use lockness.Prelude.{ℕ, ◌≡◌, refl, Bool, true, ◌==◌, inl, if◌then◌else◌}
use lockness.Machine.Program.{Loc, Prog, same_loc, ◌>>=◌}
use lockness.Machine.Futex.Duty.{at_ease, Part, partner, owner, stranger}
use lockness.Machine.Futex.Duties.{AtEase}
use lockness.Machine.Futex.Rules.{Alert_then}
use lockness.Bags.Slot.System.Clients.{
  IsClient, stop, try_send, send, try_recv, recv, clone_sender, drop_sender, drop_receiver,
}
use lockness.Bags.Slot.Sleepers.{IsWord, flag, alarm, looked}
use lockness.Bags.Slot.Sleepers.Sending.{Does, try_send-Alert}
use lockness.Bags.Slot.Sleepers.Blocking.{send-Alert}
use lockness.Bags.Slot.Sleepers.Receiving.{
  clone_sender-Alert, drop_sender-Alert, drop_receiver-Alert, try_recv-Alert, recv-Alert,
}

module _ (x86 : Bool) (l : Loc) (part : Part) {T : Type 0}
    (alike : same_loc Loc.send l ≡ true → part ≡ partner) where
  call :
      {A : Type 0} (p : Prog T A) (k : A → Prog T (Unit {0}))
      → Does x86 l part p at_ease AtEase
      → ((a : A) → Does x86 l part (k a) at_ease AtEase)
      → Does x86 l part (p >>= k) at_ease AtEase
  call p k o r =
      Alert_then l (IsWord x86) (flag x86) (alarm x86) (looked x86) part p k at_ease AtEase o r

  -- A client owes nothing between its calls. Only the thread with the receiver sleeps on `recv`.
  pub IsClient-Alert :
      {b : Bool} {p : Prog T (Unit {0})}
      → IsClient x86 b p
      → (b ≡ true → same_loc Loc.recv l ≡ true → part ≡ owner)
      → Does x86 l part p at_ease AtEase
  IsClient-Alert stop own = refl
  IsClient-Alert (try_send v k next) own =
      call _ k (try_send-Alert T x86 l part v at_ease (inl refl)) (λ r. IsClient-Alert (next r) own)
  IsClient-Alert (send fuel v k next) own =
      call _ k (send-Alert T x86 l part alike fuel v at_ease (inl refl))
        (λ r. IsClient-Alert (next r) own)
  IsClient-Alert (clone_sender k next) own =
      call _ k (clone_sender-Alert T x86 l part) (λ r. IsClient-Alert next own)
  IsClient-Alert (drop_sender k next) own =
      call _ k (drop_sender-Alert T x86 l part) (λ r. IsClient-Alert next own)
  IsClient-Alert (try_recv k next) own =
      call _ k (try_recv-Alert T x86 l part (own refl)) (λ r. IsClient-Alert (next r) own)
  IsClient-Alert (recv fuel k next) own =
      call _ k (recv-Alert T x86 l part (own refl) fuel 0) (λ r. IsClient-Alert (next r) own)
  IsClient-Alert (drop_receiver k next) own =
      call _ k (drop_receiver-Alert T x86 l part) (λ r. IsClient-Alert next (λ e. cc))

-- On `send` all threads are alike; on `recv` only the thread 0 ever sleeps.
abbrev pub part_of : Loc → ℕ → Part
part_of Loc.recv t = if t == 0 then owner else stranger
part_of _ t = partner
