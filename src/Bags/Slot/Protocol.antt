-- ===== src/Bags/Slot/Protocol.antt =====
-- Who may touch the slot: the ownership discipline behind the words of bags/src/slot.rs.
pub mod Sending
pub mod Waiting
pub mod Receiving
use lockness.Prelude.{ℕ, suc, ◌^◌, ◌≤◌, ◌<◌, ◌≡◌, refl, ◌⊎◌, Bool, true, false}
use lockness.Machine.Program.{
  Loc, Prog, ret, rmw, write, read, wait, wake, abort, undefined, out_of_fuel, ◌>>=◌,
}
use lockness.Bags.Slot.Status.{abort_limit, slot}
use lockness.Bags.Slot.Status.Flags.{room, send_word, recv_word}

-- What a thread has of the slot as a sender: nothing, the slot reserved, or the slot filled.
pub data SendHold : Type 0 where
  nothing filling filled : SendHold

-- What it has as the receiver: it is none; it has nothing; it has seen a message; it has claimed the
-- message, or has emptied the slot; it has dropped its handle.
pub data RecvHold : Type 0 where
  stranger idle seen full empty closed : RecvHold

pub record Held : Type 0 where
  pub sender : SendHold
  pub receiver : RecvHold

-- How a thread may change `send`: the flag that the receiver is dead and the count of reservations,
-- and what it has then. A reservation above the limit is one after which the thread stops.
pub data SendAct (x86 : Bool) (h : Held) (stops dead : Bool) (count : ℕ)
    : Bool → ℕ → Held → Type 0 where
  keep : SendAct x86 h stops dead count dead count h
  take :
      {c : ℕ}
      → h.sender ≡ SendHold.nothing
      → dead ≡ false
      → count ≡ 0
      → 0 < c
      → (x86 ≡ true → c ≡ 1)
      → SendAct x86 h stops dead count dead c (record h { sender = SendHold.filling })
  more :
      {c : ℕ}
      → (0 < count) ⊎ (dead ≡ true)
      → 0 < c
      → (x86 ≡ true → c ≡ suc count)
      → (x86 ≡ true → abort_limit < count → stops ≡ true)
      → SendAct x86 h stops dead count dead c h
  release :
      h.receiver ≡ RecvHold.empty
      → SendAct x86 h stops dead count false 0 (record h { receiver = RecvHold.idle })
  close :
      h.receiver ≡ RecvHold.idle
      → SendAct x86 h stops dead count true 0 (record h { receiver = RecvHold.closed })

-- How a thread may change COMMIT in `recv`.
pub data RecvAct (h : Held) (there : Bool) : Bool → Held → Type 0 where
  keep : RecvAct h there there h
  look :
      h.receiver ≡ RecvHold.idle
      → there ≡ true
      → RecvAct h there there (record h { receiver = RecvHold.seen })
  publish :
      h.sender ≡ SendHold.filled → RecvAct h there true (record h { sender = SendHold.nothing })
  claim : h.receiver ≡ RecvHold.seen → RecvAct h there false (record h { receiver = RecvHold.full })

abbrev pub is_abort : {T A : Type 0} → Prog T A → Bool
is_abort Prog.abort = true
is_abort _ = false

-- A thread waits with nothing of the slot as a sender, and on `recv` only as the receiver, with
-- nothing of the slot either.
abbrev pub WaitsWith : Loc → Held → Type 0
WaitsWith Loc.recv h = (h.sender ≡ SendHold.nothing) × (h.receiver ≡ RecvHold.idle)
WaitsWith _ h = h.sender ≡ SendHold.nothing

module _ (x86 : Bool) {T A : Type 0} where
  -- `p` keeps the protocol from `h` on, whatever the words hold at each access, and where it
  -- returns, `Q` holds of its result and of what its thread has then.
  abbrev pub Obeys : Prog T A → Held → (A → Held → Type 0) → Type 0
  Obeys (ret a) h Q = Q a h
  Obeys (rmw Loc.send f k) h Q =
      (dead asleep : Bool) (count : ℕ)
      → count < 2 ^ room x86
      → (x86 ≡ true → suc count < 2 ^ 62)
      → (dead' : Bool) × (asleep' : Bool) × (count' : ℕ) × (h' : Held) × (f
            (send_word x86 dead asleep count)
          ≡ send_word x86 dead' asleep' count')
        × (count' < 2 ^ room x86)
        × SendAct x86 h (is_abort (k (send_word x86 dead asleep count))) dead count dead' count' h'
        × Obeys (k (send_word x86 dead asleep count)) h' Q
  Obeys (rmw Loc.recv f k) h Q =
      (there asleep dead : Bool)
      → (h.receiver ≡ RecvHold.seen → there ≡ true)
      → (there' : Bool) × (asleep' : Bool) × (dead' : Bool) × (h' : Held) × (f
            (recv_word there asleep dead)
          ≡ recv_word there' asleep' dead')
        × RecvAct h there there' h'
        × Obeys (k (recv_word there asleep dead)) h' Q
  Obeys (rmw l f k) h Q = (w : ℕ) → Obeys (k w) h Q
  Obeys (write i v k) h Q =
      (i ≡ slot) × (h.sender ≡ SendHold.filling) × Obeys k (record h { sender = SendHold.filled }) Q
  Obeys (read i k) h Q =
      (i ≡ slot)
      × (h.receiver ≡ RecvHold.full)
      × ((v : T) → Obeys (k v) (record h { receiver = RecvHold.empty }) Q)
  Obeys (wait l e k) h Q = WaitsWith l h × Obeys k h Q
  Obeys (wake l m k) h Q = Obeys k h Q
  Obeys abort h Q = Unit
  Obeys undefined h Q = ⊥
  Obeys out_of_fuel h Q = Unit

SendAct_mono :
    {x86 : Bool} {h h' : Held} {stops stops' dead dead' : Bool} {count count' : ℕ}
    → (stops ≡ true → stops' ≡ true)
    → SendAct x86 h stops dead count dead' count' h'
    → SendAct x86 h stops' dead count dead' count' h'
SendAct_mono m SendAct.keep = SendAct.keep
SendAct_mono m (take s d c p e) = take s d c p e
SendAct_mono m (more t p e l) = more t p e (λ x o. m (l x o))
SendAct_mono m (release r) = release r
SendAct_mono m (close r) = close r

module _ {T A B : Type 0} where
  is_abort->>= : (p : Prog T A) (g : A → Prog T B) → is_abort p ≡ true → is_abort (p >>= g) ≡ true
  unfolding ◌>>=◌
  is_abort->>= abort g e = refl
  is_abort->>= (ret a) g e = cc
  is_abort->>= (rmw l f k) g e = cc
  is_abort->>= (write i v k) g e = cc
  is_abort->>= (read i k) g e = cc
  is_abort->>= (wait l x k) g e = cc
  is_abort->>= (wake l m k) g e = cc
  is_abort->>= undefined g e = cc
  is_abort->>= out_of_fuel g e = cc

module _ (x86 : Bool) {T A B : Type 0} where
  -- The rule for a sequence of two programs.
  pub Obeys->>= :
      (p : Prog T A) (g : A → Prog T B) (h : Held) (Q : A → Held → Type 0) (R : B → Held → Type 0)
      → Obeys x86 p h Q
      → ((a : A) (h' : Held) → Q a h' → Obeys x86 (g a) h' R)
      → Obeys x86 (p >>= g) h R
  unfolding ◌>>=◌
  Obeys->>= (ret a) g h Q R o r = r a h o
  Obeys->>= (rmw Loc.send f k) g h Q R o r = λ dead asleep count fits few.
      let (d, s, c, h', e, fits', act, rest) = o dead asleep count fits few in
      (
        d,
        s,
        c,
        h',
        e,
        fits',
        SendAct_mono (is_abort->>= (k (send_word x86 dead asleep count)) g) act,
        Obeys->>= (k (send_word x86 dead asleep count)) g h' Q R rest r,
      )
  Obeys->>= (rmw Loc.recv f k) g h Q R o r = λ there asleep dead known.
      let (t, s, d, h', e, act, rest) = o there asleep dead known in
      (t, s, d, h', e, act, Obeys->>= (k (recv_word there asleep dead)) g h' Q R rest r)
  Obeys->>= (rmw Loc.num_senders f k) g h Q R o r = λ w. Obeys->>= (k w) g h Q R (o w) r
  Obeys->>= (rmw Loc.num_receivers f k) g h Q R o r = λ w. Obeys->>= (k w) g h Q R (o w) r
  Obeys->>= (write i v k) g h Q R o r = (o.0, o.1, Obeys->>= k g _ Q R o.2 r)
  Obeys->>= (read i k) g h Q R o r = (o.0, o.1, λ v. Obeys->>= (k v) g _ Q R (o.2 v) r)
  Obeys->>= (wait l e k) g h Q R o r = (o.0, Obeys->>= k g h Q R o.1 r)
  Obeys->>= (wake l m k) g h Q R o r = Obeys->>= k g h Q R o r
  Obeys->>= abort g h Q R o r = tt
  Obeys->>= undefined g h Q R o r = o
  Obeys->>= out_of_fuel g h Q R o r = tt
