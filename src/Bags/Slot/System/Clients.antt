-- ===== src/Bags/Slot/System/Clients.antt =====
-- The programs that use a slot of bags/src/slot.rs through its methods alone.
use lockness.Prelude.{ℕ, ◌≡◌, refl, sym, subst, Bool, true, false}
use lockness.Machine.Program.{Prog, ret, ◌>>=◌}
use lockness.Bags.Slot.Sender.{TrySend, Send}
use lockness.Bags.Slot.Sender
use lockness.Bags.Slot.Receiver.{TryRecv, Recv}
use lockness.Bags.Slot.Receiver
use lockness.Bags.Slot.Handles
use lockness.Bags.Slot.Protocol.{SendHold, RecvHold, Held, Obeys, Obeys->>=}
use lockness.Bags.Slot.Protocol.Sending.{at, Ends, try_send-Obeys}
use lockness.Bags.Slot.Protocol.Waiting.{send-Obeys}
use lockness.Bags.Slot.Protocol.Receiving.{
  try_recv-Obeys, recv-Obeys, drop_receiver-Obeys, clone_sender-Obeys, drop_sender-Obeys,
}

-- A client calls the methods one after the other, each as the earlier results suggest. Only the
-- thread that holds the `Receiver` calls the methods of that, and none after its drop.
pub data IsClient {T : Type 0} (x86 : Bool) : (receiver : Bool) → Prog T (Unit {0}) → Type 0 where
  stop : {b : Bool} → IsClient x86 b (ret tt)
  try_send :
      {b : Bool} (v : T) (k : TrySend T → Prog T (Unit {0}))
      → ((r : TrySend T) → IsClient x86 b (k r))
      → IsClient x86 b (Sender.try_send x86 v >>= k)
  send :
      {b : Bool} (fuel : ℕ) (v : T) (k : Send T → Prog T (Unit {0}))
      → ((r : Send T) → IsClient x86 b (k r))
      → IsClient x86 b (Sender.send fuel x86 v >>= k)
  clone_sender :
      {b : Bool} (k : Unit {0} → Prog T (Unit {0}))
      → IsClient x86 b (k tt)
      → IsClient x86 b (Handles.clone_sender >>= k)
  drop_sender :
      {b : Bool} (k : Unit {0} → Prog T (Unit {0}))
      → IsClient x86 b (k tt)
      → IsClient x86 b (Handles.drop_sender >>= k)
  try_recv :
      (k : TryRecv T → Prog T (Unit {0}))
      → ((r : TryRecv T) → IsClient x86 true (k r))
      → IsClient x86 true (Receiver.try_recv x86 >>= k)
  recv :
      (fuel : ℕ) (k : Recv T → Prog T (Unit {0}))
      → ((r : Recv T) → IsClient x86 true (k r))
      → IsClient x86 true (Receiver.recv fuel x86 0 >>= k)
  drop_receiver :
      (k : Unit {0} → Prog T (Unit {0}))
      → IsClient x86 false (k tt)
      → IsClient x86 true (Handles.drop_receiver x86 >>= k)

-- A thread that ends has nothing of the slot as a sender.
abbrev pub HoldsNothing : {A : Type 0} → A → Held → Type 0
HoldsNothing _ h = h.sender ≡ SendHold.nothing

-- What a client may have of the receiver.
pub data Role : Bool → RecvHold → Type 0 where
  other : Role false RecvHold.stranger
  gone : Role false RecvHold.closed
  owner : Role true RecvHold.idle

module _ {T A : Type 0} (x86 : Bool) where
  call :
      (p : Prog T A) (k : A → Prog T (Unit {0})) (r r' : RecvHold)
      → Obeys x86 p (at r) (Ends r')
      → ((a : A) → Obeys x86 (k a) (at r') HoldsNothing)
      → Obeys x86 (p >>= k) (at r) HoldsNothing
  call p k r r' o next =
      Obeys->>= x86 p k (at r) (Ends r') HoldsNothing o
        (λ a h e. subst (λ h. Obeys x86 (k a) h HoldsNothing) (sym e) (next a))

-- A client keeps the protocol.
pub IsClient-Obeys :
    {T : Type 0} {x86 b : Bool} {p : Prog T (Unit {0})} {r : RecvHold}
    → IsClient x86 b p
    → Role b r
    → Obeys x86 p (at r) HoldsNothing
IsClient-Obeys IsClient.stop role = refl
IsClient-Obeys {T} {x86} {r = r} (IsClient.try_send v k next) role =
    call x86 _ k r r (try_send-Obeys T r x86 v) (λ a. IsClient-Obeys (next a) role)
IsClient-Obeys {T} {x86} {r = r} (IsClient.send fuel v k next) role =
    call x86 _ k r r (send-Obeys T r fuel x86 v) (λ a. IsClient-Obeys (next a) role)
IsClient-Obeys {T} {x86} {r = r} (IsClient.clone_sender k next) role =
    call x86 _ k r r (clone_sender-Obeys T x86 r) (λ a. IsClient-Obeys next role)
IsClient-Obeys {T} {x86} {r = r} (IsClient.drop_sender k next) role =
    call x86 _ k r r (drop_sender-Obeys T x86 r) (λ a. IsClient-Obeys next role)
IsClient-Obeys {T} {x86} (IsClient.try_recv k next) owner =
    call x86 _ k RecvHold.idle RecvHold.idle (try_recv-Obeys T x86)
      (λ a. IsClient-Obeys (next a) owner)
IsClient-Obeys {T} {x86} (IsClient.recv fuel k next) owner =
    call x86 _ k RecvHold.idle RecvHold.idle (recv-Obeys T x86 fuel 0)
      (λ a. IsClient-Obeys (next a) owner)
IsClient-Obeys {T} {x86} (IsClient.drop_receiver k next) owner =
    call x86 _ k RecvHold.idle RecvHold.closed (drop_receiver-Obeys T x86)
      (λ a. IsClient-Obeys next gone)
