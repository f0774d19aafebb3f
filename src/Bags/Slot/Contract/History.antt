-- ===== src/Bags/Slot/Contract/History.antt =====
-- Any calls on a slot of bags/src/slot.rs, one after the other, and then the drop of the slot.
use lockness.Prelude.{
  ℕ, suc, ◌+◌, ◌-◌, ◌^◌, ◌≤◌, ◌≡◌, refl, ap, ◌∙◌, Bool, true, false, none, some, Option, List, [],
  ◌∷◌, ◌++◌, ◌==◌, if◌then◌else◌, length, arith,
}
use lockness.Machine.Program.{Prog, ◌>>=◌, Shared}
use lockness.Machine.Sequential.{done, continue_with, run, run->>=}
use lockness.Machine.Threads.{left_over}
use lockness.Bags.Slot.Status.{abort_limit}
use lockness.Bags.Slot.Status.Flags.{abort_limit-eq}
use lockness.Bags.Slot.Sender.{try_send}
use lockness.Bags.Slot.Receiver.{TryRecv, try_recv}
use lockness.Bags.Slot.Handles.{mpsc, clone_sender, drop_sender, drop_receiver, drop_inner}
use lockness.Bags.Slot.Contract.{Slot, Implements}
use lockness.Bags.Slot.Contract.Sending.{try_send_lem}
use lockness.Bags.Slot.Contract.Receiving.{try_recv_lem}
use lockness.Bags.Slot.Contract.Life.{mpsc_lem, clone_sender_lem, drop_sender_lem}
use lockness.Bags.Slot.Contract.Drops.{drop_receiver_lem, drop_inner_lem}
use lockness.Bags.Slot.Contract.Calls.{
  Call, sending, receiving, cloning, sender_dropped, receiver_dropped, Answer, of_recv, perform,
  life, IsAllowed, answer_to, after_call, AreAllowed, answers, after_calls, accepted, taken,
  new_slot,
}

module _ {T : Type 0} where
  -- A program that ends goes on with what follows.
  run-then :
      {A B : Type 0} (p : Prog T A) (g : A → Prog T B) (s : Shared T) {a : A} {s' : Shared T}
      → run p s ≡ done a s'
      → run (p >>= g) s ≡ run (g a) s'
  unfolding continue_with
  run-then p g s e = run->>= p g s ∙ ap (λ o. continue_with o (λ a s'. run (g a) s')) e

  -- More calls are a weaker bound.
  Implements-le :
      {x86 : Bool} {m k : ℕ} {a : Slot T} {s : Shared T}
      → m ≤ k
      → Implements x86 m a s
      → Implements x86 k a s
  Implements-le le i = record {
    asleep = i.asleep;
    count = i.count;
    fits = i.fits;
    few = λ e. omega (arith, i.few e);
    is_send = i.is_send;
    reserved = i.reserved;
    recv_asleep = i.recv_asleep;
    is_recv = i.is_recv;
    is_senders = i.is_senders;
    senders_fit = i.senders_fit;
    is_content = i.is_content;
  }

  module _ (x86 : Bool) where
    perform_lem :
        (calls : ℕ) (a : Slot T) (c : Call T) (s : Shared T)
        → Implements x86 calls a s
        → calls ≤ abort_limit
        → IsAllowed a c
        → (s' : Shared T) × (run (perform x86 c) s ≡ done (answer_to a c) s')
          × Implements x86 (suc calls) (after_call a c) s'
    unfolding run perform
    perform_lem calls a (sending v) s i small ok =
        let (s', e, i') = try_send_lem x86 calls a v s i small ok in
        (s', run-then (try_send x86 v) _ s e, i')
    perform_lem calls a receiving s i small ok =
        let (s', e, i') = try_recv_lem x86 calls a s i ok in
        (s', run-then (try_recv x86) _ s e, Implements-le (ground arith) i')
    perform_lem calls a cloning s i small ok =
        let (s', e, i') = clone_sender_lem x86 calls a s i ok.0 ok.1 in
        (s', run-then clone_sender _ s e, Implements-le (omega arith) i')
    perform_lem calls a sender_dropped s i small ok =
        let (s', e, i') = drop_sender_lem x86 calls a s i ok in
        (s', run-then drop_sender _ s e, Implements-le (omega arith) i')
    perform_lem calls a receiver_dropped s i small ok =
        let (s', e, i') = drop_receiver_lem x86 calls a s i in
        (s', run-then (drop_receiver x86) _ s e, Implements-le (omega arith) i')

    run-life :
        (cs : List (Call T)) (calls : ℕ) (a : Slot T) (s : Shared T)
        → Implements x86 calls a s
        → calls + length cs ≤ abort_limit
        → AreAllowed a cs
        → (s' : Shared T) × (run (life x86 cs) s
            ≡ done (answers a cs, left_over (after_calls a cs).content) s')
    unfolding run life
    run-life [] calls a s i small ok =
        let (s', e) = drop_inner_lem x86 calls a s i in (s', run-then drop_inner _ s e)
    run-life (c ∷ cs) calls a s i small ok =
        let (u, e, i') = perform_lem calls a c s i (omega arith) ok.0 in
        let (s', e') = run-life cs (suc calls) (after_call a c) u i' (omega arith) ok.1 in
        (s', run-then (perform x86 c) _ s e ∙ run-then (life x86 cs) _ u e')

  taken-empty :
      (b : Bool) (rs : List (Answer T))
      → taken (of_recv (if b then TryRecv.disconnected else TryRecv.empty) ∷ rs) ≡ taken rs
  taken-empty true rs = refl
  taken-empty false rs = refl

  -- What goes in comes out, in order, or is still there.
  accepted-taken :
      (cs : List (Call T)) (o : Option T) (n : ℕ) (g : Bool)
      → left_over o
          ++ accepted cs (answers (record { content = o; senders = n; receiver_gone = g }) cs)
        ≡ taken (answers (record { content = o; senders = n; receiver_gone = g }) cs)
          ++ left_over
              (after_calls (record { content = o; senders = n; receiver_gone = g }) cs).content
  accepted-taken [] none n g = refl
  accepted-taken [] (some v) n g = refl
  accepted-taken (sending v ∷ cs) o n true = accepted-taken cs o n true
  accepted-taken (sending v ∷ cs) none n false = accepted-taken cs (some v) n false
  accepted-taken (sending v ∷ cs) (some u) n false = accepted-taken cs (some u) n false
  accepted-taken (receiving ∷ cs) none n g =
      rw (taken-empty (n == 0) _) (accepted-taken cs none n g)
  accepted-taken (receiving ∷ cs) (some v) n g = ap (λ vs. v ∷ vs) (accepted-taken cs none n g)
  accepted-taken (cloning ∷ cs) o n g = accepted-taken cs o (n + 1) g
  accepted-taken (sender_dropped ∷ cs) o n g = accepted-taken cs o (n - 1) g
  accepted-taken (receiver_dropped ∷ cs) o n g = accepted-taken cs o n true

  -- At most 2 ^ 61 calls of handles that are there (and that leave at most 2 ^ 31 senders), one after
  -- the other on a new slot, and then the drop of the slot: they end; each gives the answer of the
  -- abstract slot; and the messages that the sends accepted are those that were received, followed by
  -- that which the drop drops, in order.
  pub slot_life :
      (x86 : Bool) (cs : List (Call T))
      → AreAllowed new_slot cs
      → length cs ≤ 2 ^ 61
      → (rest : List T) × (s : Shared T) × (run (life x86 cs) mpsc
          ≡ done (answers new_slot cs, rest) s)
        × (accepted cs (answers new_slot cs) ≡ taken (answers new_slot cs) ++ rest)
  slot_life x86 cs ok few =
      let (s, e) =
        run-life x86 cs 0 new_slot mpsc (mpsc_lem x86) (omega (arith, abort_limit-eq)) ok in
      (left_over (after_calls new_slot cs).content, s, e, accepted-taken cs none 1 false)
