-- ===== src/Mcp/Proxy/Forwarding/Ordering.antt =====
-- What has been written and what waits, whatever the steps of forwardServerMessages in
-- internal/mcp/proxy.go.
use mathlib.Core.List.{append_assoc, append-nil}
use locksmith.Common.{
  ℕ, ◌≡◌, ◌≢◌, ◌∙◌, ◌⊎◌, refl, sym, ap, subst, true, false, inl, inr, List, [], ◌∷◌, ◌++◌,
}
use locksmith.Common.Text.{Text}
use locksmith.Mcp.Proxy.Forwarding.{
  draining, stopped, Forwarder, write_one, put_one, close_done, Own, forwards, sees_closed,
  sees_done, drains, finds_empty, Step, owns, puts, closes, shuts_down, Reachable, begins, steps,
}

-- A list begins with another.
abbrev pub Begins : List Text → List Text → Type 0
Begins front all = (rest : List Text) × (all ≡ front ++ rest)

-- Nothing is lost, doubled or reordered. What was put on the channel before `done` was closed has been
-- written when the goroutine stops.
pub record IsOrdered (s : Forwarder) : Type 0 where
  pub in_order : s.written ++ s.channel ≡ s.put_so_far
  pub before : Begins s.put_before_done s.put_so_far
  pub not_yet : s.done ≡ false → s.put_before_done ≡ []
  pub complete : s.phase ≡ stopped → Begins s.put_before_done s.written
  pub why_stopped : s.phase ≡ stopped → (s.done ≡ true) ⊎ ((s.channel ≡ []) × (s.closed ≡ true))
  pub why_draining : s.phase ≡ draining → s.done ≡ true

module _ {s : Forwarder} (inv : IsOrdered s) where
  write-IsOrdered :
      (m : Text) (rest : List Text)
      → s.phase ≢ stopped
      → s.channel ≡ m ∷ rest
      → IsOrdered (write_one m rest s)
  unfolding write_one
  write-IsOrdered m rest going e = record {
    in_order =
        append_assoc s.written (m ∷ []) rest ∙ ap (λ c. s.written ++ c) (sym e) ∙ inv.in_order;
    before = inv.before;
    not_yet = inv.not_yet;
    complete = λ p. absurd (going p);
    why_stopped = λ p. absurd (going p);
    why_draining = inv.why_draining;
  }

  -- The goroutine stops with the channel empty.
  stop-IsOrdered :
      s.channel ≡ []
      → (s.done ≡ true) ⊎ ((s.channel ≡ []) × (s.closed ≡ true))
      → IsOrdered (record s { phase = stopped })
  stop-IsOrdered e why =
      let all : s.put_so_far ≡ s.written =
        sym inv.in_order ∙ ap (λ c. s.written ++ c) e ∙ append-nil s.written in
      record {
        in_order = inv.in_order;
        before = inv.before;
        not_yet = inv.not_yet;
        complete = λ p. subst (Begins s.put_before_done) all inv.before;
        why_stopped = λ p. why;
        why_draining = λ p. absurd (cc);
      }

  put-IsOrdered : (m : Text) → s.closed ≡ false → IsOrdered (put_one m s)
  unfolding put_one
  put-IsOrdered m opened = record {
    in_order =
        sym (append_assoc s.written s.channel (m ∷ [])) ∙ ap (λ c. c ++ (m ∷ [])) inv.in_order;
    before = (
      inv.before.0 ++ (m ∷ []),
      ap (λ c. c ++ (m ∷ [])) inv.before.1 ∙ append_assoc s.put_before_done inv.before.0 (m ∷ []),
    );
    not_yet = inv.not_yet;
    complete = inv.complete;
    why_stopped = λ p. elim (inv.why_stopped p) [ inl d ↦ inl d | inr (e, c) ↦ absurd (cc) ];
    why_draining = inv.why_draining;
  }

  shut-IsOrdered : s.done ≡ false → IsOrdered (close_done s)
  unfolding close_done
  shut-IsOrdered running = record {
    in_order = inv.in_order;
    before = ([], sym (append-nil s.put_so_far));
    not_yet = λ d. absurd (cc);
    complete = λ p. elim (inv.why_stopped p) [
      | inl d ↦ absurd (cc)
      | inr (e, c) ↦ (
        [],
        sym (sym inv.in_order ∙ ap (λ x. s.written ++ x) e ∙ append-nil s.written)
            ∙ sym (append-nil s.put_so_far),
      )
    ];
    why_stopped = λ p. inl refl;
    why_draining = λ p. refl;
  }

Own-IsOrdered : (s s' : Forwarder) → Own s s' → IsOrdered s → IsOrdered s'
Own-IsOrdered s _ (forwards m rest p e) inv = write-IsOrdered inv m rest (λ q. cc (sym p ∙ q)) e
Own-IsOrdered s _ (sees_closed p e c) inv = stop-IsOrdered inv e (inr (e, c))
Own-IsOrdered s _ (sees_done p d) inv = record {
  in_order = inv.in_order;
  before = inv.before;
  not_yet = inv.not_yet;
  complete = λ q. absurd (cc);
  why_stopped = λ q. absurd (cc);
  why_draining = λ q. d;
}
Own-IsOrdered s _ (drains m rest p e) inv = write-IsOrdered inv m rest (λ q. cc (sym p ∙ q)) e
Own-IsOrdered s _ (finds_empty p e) inv = stop-IsOrdered inv e (inl (inv.why_draining p))

Step-IsOrdered : (room : ℕ) (s s' : Forwarder) → Step room s s' → IsOrdered s → IsOrdered s'
Step-IsOrdered room s s' (owns own) inv = Own-IsOrdered s s' own inv
Step-IsOrdered room s _ (puts m opened fits) inv = put-IsOrdered inv m opened
Step-IsOrdered room s _ closes inv = record {
  in_order = inv.in_order;
  before = inv.before;
  not_yet = inv.not_yet;
  complete = inv.complete;
  why_stopped = λ p. elim (inv.why_stopped p) [ inl d ↦ inl d | inr (e, c) ↦ inr (e, refl) ];
  why_draining = inv.why_draining;
}
Step-IsOrdered room s _ (shuts_down running) inv = shut-IsOrdered inv running

-- In every order of steps of the goroutine, the server and the shutdown: what has been written and what
-- is in the channel are together all messages that were ever put on it, each once and in order; and when
-- the goroutine has stopped, it has written every message that was put before the shutdown began.
pub Reachable-IsOrdered : (room : ℕ) (s : Forwarder) → Reachable room s → IsOrdered s
Reachable-IsOrdered room _ begins = record {
  in_order = refl;
  before = ([], refl);
  not_yet = λ d. refl;
  complete = λ p. absurd (cc);
  why_stopped = λ p. absurd (cc);
  why_draining = λ p. absurd (cc);
}
Reachable-IsOrdered room s' (steps {s} r st) =
    Step-IsOrdered room s s' st (Reachable-IsOrdered room s r)
