-- ===== src/Executor/Error/Prints.antt =====
-- What the formatting of executor/src/error.rs writes, also where the writer fails.
use lockness.Prelude.{ℕ, Bool, true, false, ◌≡◌, sym, ap, ◌∙◌, subst, List, [], ◌++◌}
use mathlib.Core.List.{append_assoc, append-nil}
use lockness.Executor.Error.{
  Payload, JoinError, into_inner, task_panic, unknown_payload, join_error, closing, Fmt, ◌>>◌,
  dump_panic_payload, fmt_display, fmt_debug,
}

-- What a payload reads as.
abbrev pub message : Payload → List ℕ
message (Payload.string s) = task_panic ++ s
message (Payload.str s) = task_panic ++ s
message Payload.unknown = unknown_payload

module _ {S : Type 0} (out : S → List ℕ) where
  -- After a call: all of the text is written, or, where the call failed, a first part of it.
  abbrev pub Wrote : List ℕ → List ℕ → Bool × S → Type 0
  Wrote before t (true, s) = out s ≡ before ++ t
  Wrote before t (false, s) = (p : List ℕ) × (q : List ℕ) × (t ≡ p ++ q) × (out s ≡ before ++ p)

  abbrev pub Prints : Fmt S → List ℕ → Type 0
  Prints f t = (s : S) → Wrote (out s) t (f s)

  rebase : (before t u : List ℕ) (r : Bool × S) → Wrote (before ++ t) u r → Wrote before (t ++ u) r
  rebase before t u (true, s) w = w ∙ append_assoc before t u
  rebase before t u (false, s) (p, q, e, w) =
      (t ++ p, q, ap (λ l. t ++ l) e ∙ sym (append_assoc t p q), w ∙ append_assoc before t p)

  after :
      (before t u : List ℕ) (g : Fmt S) (r : Bool × S)
      → Prints g u
      → Wrote before t r
      → Wrote before (t ++ u) (elim r.0 [ true ↦ g r.1 | false ↦ (false, r.1) ])
  after before t u g (true, s) next w =
      rebase before t u (g s) (subst (λ b. Wrote b u (g s)) w (next s))
  after before t u g (false, s) next (p, q, e, w) =
      (p, q ++ u, ap (λ l. l ++ u) e ∙ append_assoc p q u, w)

  Prints->> : (f g : Fmt S) (t u : List ℕ) → Prints f t → Prints g u → Prints (f >> g) (t ++ u)
  Prints->> f g t u a b = λ s. after (out s) t u g (f s) b (a s)

  Prints-ok : Prints (λ s. (true, s)) []
  Prints-ok = λ s. sym (append-nil (out s))

  module _ (write_str : List ℕ → Fmt S) (writes : (t : List ℕ) → Prints (write_str t) t) where
    dump_panic_payload-Prints : (p : Payload) → Prints (dump_panic_payload write_str p) (message p)
    unfolding dump_panic_payload
    dump_panic_payload-Prints (Payload.string s) =
        Prints->> (write_str task_panic) (write_str s) task_panic s (writes task_panic) (writes s)
    dump_panic_payload-Prints (Payload.str s) =
        Prints->> (write_str task_panic) (write_str s) task_panic s (writes task_panic) (writes s)
    dump_panic_payload-Prints Payload.unknown = writes unknown_payload

    -- `Display` and `Debug` of a `JoinError`, through a writer that writes each text or, where it
    -- fails, a first part of it: `Display` writes the message of the panic, and `Debug` the same in
    -- `JoinError(` and `)`; where a call returns an error, a first part of that is written and
    -- nothing after it.
    pub fmt-Prints :
        (e : JoinError)
        → Prints (fmt_display write_str e) (message (into_inner e))
          × Prints (fmt_debug write_str e) ((join_error ++ message (into_inner e)) ++ closing)
    unfolding fmt_display fmt_debug
    fmt-Prints e = (dump_panic_payload-Prints e.payload, closed)
      where
        opened :
            Prints
              (write_str join_error >> dump_panic_payload write_str e.payload)
              (join_error ++ message e.payload)
        opened =
            Prints->> (write_str join_error) (dump_panic_payload write_str e.payload) join_error
              (message e.payload) (writes join_error) (dump_panic_payload-Prints e.payload)

        ended :
            Prints (fmt_debug write_str e) (((join_error ++ message e.payload) ++ closing) ++ [])
        ended =
            Prints->>
              (write_str join_error >> dump_panic_payload write_str e.payload >> write_str closing)
              (λ s. (true, s)) ((join_error ++ message e.payload) ++ closing) []
              (Prints->> (write_str join_error >> dump_panic_payload write_str e.payload)
                (write_str closing) (join_error ++ message e.payload) closing opened
                (writes closing))
              Prints-ok

        closed : Prints (fmt_debug write_str e) ((join_error ++ message e.payload) ++ closing)
        closed =
            subst (λ l. Prints (fmt_debug write_str e) l)
              (append-nil ((join_error ++ message e.payload) ++ closing)) ended
