-- ===== src/Bags/Slot/System/Steps.antt =====
-- What each access of a thread makes of the owner of the slot.
use lockness.Prelude.{
  ℕ, ◌≡◌, refl, sym, ap, ◌∙◌, subst, Bool, true, ◌==◌, Option, none, some, inl, inr, arith,
}
use lockness.Bags.Slot.Protocol.{
  SendHold, RecvHold, Held, SendAct, RecvAct, take, more, release, close, look, publish, claim,
}
use lockness.Bags.Slot.System.Owners.{
  Owner, State, free, ready, taken, filling_by, filled_by, view, is_closed, is_free, is_ready,
  has_value, agrees, Matches, Kept, Held-eq, receiver_thread, owner_filling, owner_filled, free_of,
  ready_of, taken_of, seen_of,
}

-- What the receiver may be at while a sender works.
agrees_free : (r : RecvHold) (t : ℕ) → agrees free r ≡ true → agrees (filling_by t) r ≡ true
agrees_free r t a = ground arith

agrees_ready : (r : RecvHold) (t : ℕ) → agrees (filled_by t) r ≡ true → agrees ready r ≡ true
agrees_ready r t a = ground arith

agrees_filled :
    (r : RecvHold) (t : ℕ) → agrees (filling_by t) r ≡ true → agrees (filled_by t) r ≡ true
agrees_filled r t a = ground arith

agrees_closed : (o : Owner) → agrees o RecvHold.idle ≡ true → agrees o RecvHold.closed ≡ true
agrees_closed o a = ground arith

has_value-closed : (o : Owner) → has_value o RecvHold.idle ≡ has_value o RecvHold.closed
has_value-closed o = ground arith

module _ {T : Type 0} (t : ℕ) (o : Owner) (r : RecvHold) (c : Option T) where
  abbrev s : State
  s = record { owner = o; receiver = r }

  pub send_step :
      {x86 stops dead dead' there : Bool} {count count' : ℕ} {h' : Held}
      → Matches s dead there count c
      → SendAct x86 (view t s) stops dead count dead' count' h'
      → Kept t s dead' there count' c h'
  send_step m SendAct.keep = record { next = s; matches = m; own = refl; others = λ u ne. refl }
  send_step {dead = dead} {there = there} m (take {c = n} e d z pos exact) =
      let is : o ≡ free = free_of o (sym (m.is_count d) ∙ ap (λ k. k == 0) z) in
      record {
        next = record { owner = filling_by t; receiver = r };
        matches = record {
          is_dead = m.is_dead;
          is_count = λ d. ground arith;
          is_there = m.is_there ∙ ap is_ready is;
          is_value = m.is_value ∙ ap (λ o. has_value o r) is;
          consistent = agrees_free r t (subst (λ o. agrees o r ≡ true) is m.consistent);
        };
        own = Held-eq (ground arith) refl;
        others = λ u ne. Held-eq (ground arith) refl;
      }
  send_step {dead = dead} {count = count} m (more {c = n} c' pos exact stop) = record {
    next = s;
    matches = record {
      is_dead = m.is_dead;
      is_count = λ d. ground (arith, m.is_count d);
      is_there = m.is_there;
      is_value = m.is_value;
      consistent = m.consistent;
    };
    own = refl;
    others = λ u ne. refl;
  }
  send_step m (release e) =
      let known = receiver_thread t r RecvHold.empty (λ p. cc) e in
      let is : o ≡ taken = taken_of o r (inr known.1) m.consistent in
      record {
        next = record { owner = free; receiver = RecvHold.idle };
        matches = record {
          is_dead = refl;
          is_count = λ d. refl;
          is_there = m.is_there ∙ ap is_ready is;
          is_value =
              m.is_value
              ∙ ap (λ r. has_value o r) known.1
              ∙ ap (λ o. has_value o RecvHold.empty) is;
          consistent = refl;
        };
        own = Held-eq (ground arith) (ground arith);
        others = λ u ne. Held-eq (ground arith) (ground arith);
      }
  send_step m (close e) =
      let known = receiver_thread t r RecvHold.idle (λ p. cc) e in
      record {
        next = record { owner = o; receiver = RecvHold.closed };
        matches = record {
          is_dead = refl;
          is_count = λ d. cc;
          is_there = m.is_there;
          is_value = m.is_value ∙ ap (λ r. has_value o r) known.1 ∙ has_value-closed o;
          consistent = agrees_closed o (subst (λ r. agrees o r ≡ true) known.1 m.consistent);
        };
        own = Held-eq refl (ground arith);
        others = λ u ne. Held-eq refl (ground arith);
      }

  pub recv_step :
      {dead there there' : Bool} {count : ℕ} {h' : Held}
      → Matches s dead there count c
      → RecvAct (view t s) there there' h'
      → Kept t s dead there' count c h'
  recv_step m RecvAct.keep = record { next = s; matches = m; own = refl; others = λ u ne. refl }
  recv_step m (look e yes_there) =
      let known = receiver_thread t r RecvHold.idle (λ p. cc) e in
      let is : o ≡ ready = ready_of o (sym m.is_there ∙ yes_there) in
      record {
        next = record { owner = o; receiver = RecvHold.seen };
        matches = record {
          is_dead = m.is_dead ∙ ap is_closed known.1;
          is_count = m.is_count;
          is_there = m.is_there;
          is_value =
              m.is_value
              ∙ ap (λ o. has_value o r) is
              ∙ sym (ap (λ o. has_value o RecvHold.seen) is);
          consistent = ap (λ o. agrees o RecvHold.seen) is;
        };
        own = Held-eq refl (ground arith);
        others = λ u ne. Held-eq refl (ground arith);
      }
  recv_step m (publish e) =
      let is : o ≡ filled_by t = owner_filled t o e in
      record {
        next = record { owner = ready; receiver = r };
        matches = record {
          is_dead = m.is_dead;
          is_count = λ d. m.is_count d ∙ ap is_free is;
          is_there = refl;
          is_value = m.is_value ∙ ap (λ o. has_value o r) is;
          consistent = agrees_ready r t (subst (λ o. agrees o r ≡ true) is m.consistent);
        };
        own = Held-eq refl refl;
        others = λ u ne. Held-eq (ground arith) refl;
      }
  recv_step m (claim e) =
      let known = receiver_thread t r RecvHold.seen (λ p. cc) e in
      let is : o ≡ ready = seen_of o (subst (λ r. agrees o r ≡ true) known.1 m.consistent) in
      record {
        next = record { owner = taken; receiver = RecvHold.full };
        matches = record {
          is_dead = m.is_dead ∙ ap is_closed known.1;
          is_count = λ d. m.is_count d ∙ ap is_free is;
          is_there = refl;
          is_value = m.is_value ∙ ap (λ o. has_value o r) is;
          consistent = refl;
        };
        own = Held-eq (ground arith) (ground arith);
        others = λ u ne. Held-eq (ground arith) (ground arith);
      }

  pub write_step :
      {dead there : Bool} {count : ℕ} (v : T)
      → Matches s dead there count c
      → (view t s).sender ≡ SendHold.filling
      → Kept t s dead there count (some v) (record (view t s) { sender = SendHold.filled })
  write_step v m e =
      let is : o ≡ filling_by t = owner_filling t o e in
      record {
        next = record { owner = filled_by t; receiver = r };
        matches = record {
          is_dead = m.is_dead;
          is_count = λ d. m.is_count d ∙ ap is_free is;
          is_there = m.is_there ∙ ap is_ready is;
          is_value = refl;
          consistent = agrees_filled r t (subst (λ o. agrees o r ≡ true) is m.consistent);
        };
        own = Held-eq (ground arith) refl;
        others = λ u ne. Held-eq (ground arith) refl;
      }

  pub read_step :
      {dead there : Bool} {count : ℕ}
      → Matches s dead there count c
      → (view t s).receiver ≡ RecvHold.full
      → Kept {T = T} t s dead there count none (record (view t s) { receiver = RecvHold.empty })
  read_step m e =
      let known = receiver_thread t r RecvHold.full (λ p. cc) e in
      let is : o ≡ taken = taken_of o r (inl known.1) m.consistent in
      record {
        next = record { owner = taken; receiver = RecvHold.empty };
        matches = record {
          is_dead = m.is_dead ∙ ap is_closed known.1;
          is_count = λ d. m.is_count d ∙ ap is_free is;
          is_there = m.is_there ∙ ap is_ready is;
          is_value = refl;
          consistent = refl;
        };
        own = Held-eq (ground arith) (ground arith);
        others = λ u ne. Held-eq (ground arith) (ground arith);
      }
