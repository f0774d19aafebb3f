-- ===== src/Bags/Slot/Sleepers/Marks.antt =====
-- Who sets the word `recv` of bags/src/slot.rs to SLEEPING.
use lockness.Prelude.{◌≡◌, ◌≢◌, refl, Bool, true, false, ◌==◌, arith}
use lockness.Machine.Program.{
  Loc, Prog, ret, rmw, write, read, wait, wake, abort, undefined, out_of_fuel,
}
use lockness.Machine.Futex.Duty.{must_mark, Meets}
use lockness.Bags.Slot.Protocol.{RecvHold, Held, RecvAct, keep, look, publish, claim, Obeys}
use lockness.Bags.Slot.System.Clients.{HoldsNothing}
use lockness.Bags.Slot.Status.Flags.{recv_word}
use lockness.Bags.Slot.Sleepers.{IsWord, flag, alarm, looked}

claims : (h h' : Held) (t' : Bool) → RecvAct h true t' h' → t' ≡ false → h.receiver ≡ RecvHold.seen
claims h h' t' keep e = cc
claims h h' t' (look i t) e = cc
claims h h' t' (publish f) e = cc
claims h h' t' (claim c) e = c

-- A thread without the receiver never leaves the word `recv` with SLEEPING alone.
pub not_marks :
    {T : Type 0} (x86 : Bool) (p : Prog T (Unit {0})) (h : Held)
    → h.receiver ≢ RecvHold.seen
    → Obeys x86 p h HoldsNothing
    → ¬ Meets Loc.recv
        (IsWord x86)
        (flag x86 Loc.recv)
        (alarm x86 Loc.recv)
        (looked x86 Loc.recv)
        must_mark
        p
not_marks x86 (rmw Loc.recv f k) h ne o m =
    let (t', s', d', h', e, act, rest) = o true false false (λ _. refl) in
    let set : (f (recv_word true false false) == 2) ≡ true = m.1 _ (true, false, false, refl) in
    ne (claims h h' t' act (ground arith))
not_marks x86 (rmw Loc.send f k) h ne o m = let same = m.0 in cc
not_marks x86 (rmw Loc.num_senders f k) h ne o m = let same = m.0 in cc
not_marks x86 (rmw Loc.num_receivers f k) h ne o m = let same = m.0 in cc
not_marks x86 (ret a) h ne o m = m
not_marks x86 (write i v k) h ne o m = m
not_marks x86 (read i k) h ne o m = m
not_marks x86 (wait l e k) h ne o m = m
not_marks x86 (wake l n k) h ne o m = m
not_marks x86 abort h ne o m = m
not_marks x86 undefined h ne o m = m
not_marks x86 out_of_fuel h ne o m = m
