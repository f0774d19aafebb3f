-- ===== src/Bags/Mpmc/System/Clients.antt =====
-- The programs that use a channel of bags/src/mpmc.rs through its methods alone.
use lockness.Prelude.{ℕ, ◌<◌, Bool}
use lockness.Machine.Program.{Prog, ret, ◌>>=◌}
use lockness.Bags.Mpmc.Status.{n}
use lockness.Bags.Mpmc.Buffer.{Buffer}
use lockness.Bags.Mpmc.Sender.{TrySend}
use lockness.Bags.Mpmc.Sender
use lockness.Bags.Mpmc.Receiver.{TryRecv}
use lockness.Bags.Mpmc.Receiver
use lockness.Bags.Mpmc.Blocking.{Send, Recv}
use lockness.Bags.Mpmc.Blocking
use lockness.Bags.Mpmc.Handles
use lockness.Bags.Mpmc.Protocol.Obeys.{Held, Obeys, Obeys->>=, Obeys_mono}
use lockness.Bags.Mpmc.Protocol.Send.{try_send-Obeys}
use lockness.Bags.Mpmc.Protocol.Recv.{try_recv-Obeys}
use lockness.Bags.Mpmc.Protocol.Waiting.{send-Obeys, recv-Obeys}
use lockness.Bags.Mpmc.Protocol.Handles.{
  clone_sender-Obeys, clone_receiver-Obeys, drop_sender-Obeys, drop_receiver-Obeys,
}

-- A client calls the methods one after the other, each as the earlier results suggest. A sender's
-- bias is 0 or comes from a clone.
pub data IsClient {T : Type 0} : Prog T (Unit {0}) → Type 0 where
  stop : IsClient (ret tt)
  try_send :
      (x86 : Bool) (fuel bias : ℕ) (b : Buffer T) (k : TrySend T → Prog T (Unit {0}))
      → bias < n
      → ((r : TrySend T) → IsClient (k r))
      → IsClient (Sender.try_send x86 fuel bias b >>= k)
  send :
      (fuel : ℕ) (x86 : Bool) (tries bias : ℕ) (b : Buffer T) (k : Send T → Prog T (Unit {0}))
      → bias < n
      → ((r : Send T) → IsClient (k r))
      → IsClient (Blocking.send fuel x86 tries bias b >>= k)
  try_recv :
      (x86 : Bool) (k : TryRecv T → Prog T (Unit {0}))
      → ((r : TryRecv T) → IsClient (k r))
      → IsClient (Receiver.try_recv x86 >>= k)
  recv :
      (fuel : ℕ) (x86 : Bool) (k : Recv T → Prog T (Unit {0}))
      → ((r : Recv T) → IsClient (k r))
      → IsClient (Blocking.recv fuel x86 >>= k)
  clone_sender :
      (k : ℕ → Prog T (Unit {0}))
      → ((bias : ℕ) → bias < n → IsClient (k bias))
      → IsClient (Handles.clone_sender >>= k)
  clone_receiver :
      (k : Unit {0} → Prog T (Unit {0})) → IsClient (k tt) → IsClient (Handles.clone_receiver >>= k)
  drop_sender :
      (k : Unit {0} → Prog T (Unit {0})) → IsClient (k tt) → IsClient (Handles.drop_sender >>= k)
  drop_receiver :
      (k : Unit {0} → Prog T (Unit {0})) → IsClient (k tt) → IsClient (Handles.drop_receiver >>= k)

abbrev pub AnyResult : {A : Type 0} → A → Held → Type 0
AnyResult _ _ = Unit

module _ {T A : Type 0} where
  call :
      (p : Prog T A) (k : A → Prog T (Unit {0})) (h : Held) (Q : A → Held → Type 0)
      → Obeys p h Q
      → ((a : A) (h' : Held) → Q a h' → Obeys (k a) h' AnyResult)
      → Obeys (p >>= k) h AnyResult
  call p k h Q o r = Obeys->>= p k h AnyResult (Obeys_mono p h Q _ r o)

-- A client keeps the protocol, whatever it holds at its start.
pub IsClient-Obeys :
    {T : Type 0} {p : Prog T (Unit {0})} → IsClient p → (h : Held) → Obeys p h AnyResult
IsClient-Obeys stop h = tt
IsClient-Obeys (try_send x86 fuel bias b k small next) h =
    call _ k h _ (try_send-Obeys x86 fuel bias b h small) (λ r h' _. IsClient-Obeys (next r) h')
IsClient-Obeys (send fuel x86 tries bias b k small next) h =
    call _ k h _ (send-Obeys fuel x86 tries bias b h small) (λ r h' _. IsClient-Obeys (next r) h')
IsClient-Obeys {T} (try_recv x86 k next) h =
    call _ k h _ (try_recv-Obeys T x86 h) (λ r h' _. IsClient-Obeys (next r) h')
IsClient-Obeys {T} (recv fuel x86 k next) h =
    call _ k h _ (recv-Obeys T fuel x86 h) (λ r h' _. IsClient-Obeys (next r) h')
IsClient-Obeys {T} (clone_sender k next) h =
    call _ k h _ (clone_sender-Obeys T h) (λ bias h' q. IsClient-Obeys (next bias q.0) h')
IsClient-Obeys {T} (clone_receiver k next) h =
    call _ k h _ (clone_receiver-Obeys T h) (λ _ h' _. IsClient-Obeys next h')
IsClient-Obeys {T} (drop_sender k next) h =
    call _ k h _ (drop_sender-Obeys T h) (λ _ h' _. IsClient-Obeys next h')
IsClient-Obeys {T} (drop_receiver k next) h =
    call _ k h _ (drop_receiver-Obeys T h) (λ _ h' _. IsClient-Obeys next h')
