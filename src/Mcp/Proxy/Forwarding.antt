-- ===== src/Mcp/Proxy/Forwarding.antt =====
-- forwardServerMessages of internal/mcp/proxy.go: the goroutine that writes the server's messages to
-- stdout, between the transport that fills and closes the channel and the main loop that shuts down.
-- A select with several cases ready takes any of them.
pub mod Ordering
pub mod Stopping
use mathlib.Core.List.{append_assoc, append-nil}
use locksmith.Common.{
  ℕ, suc, zero, ◌≤◌, ◌<◌, ◌≡◌, ◌≢◌, ◌∙◌, ◌⊎◌, refl, sym, ap, subst, Bool, true, false, inl, inr,
  List, [], ◌∷◌, ◌++◌, arith, length,
}
use locksmith.Common.Text.{Text}

pub data Phase : Type 0 where
  selecting draining stopped : Phase

-- The channel's buffer, oldest message first, and whether it is closed; whether `done` is; what has been
-- written and where the goroutine stands. All messages that were ever put on the channel, and those that
-- had been when `done` was closed, are recorded for the theorems.
pub record Forwarder : Type 0 where
  pub channel : List Text
  pub closed : Bool
  pub done : Bool
  pub written : List Text
  pub phase : Phase
  pub put_so_far : List Text
  pub put_before_done : List Text

abbrev pub new_forwarder : Forwarder
new_forwarder = record {
  channel = [];
  closed = false;
  done = false;
  written = [];
  phase = selecting;
  put_so_far = [];
  put_before_done = [];
}

-- forward, of the oldest message.
unfoldable pub write_one : Text → List Text → Forwarder → Forwarder
write_one m rest s = record s { channel = rest; written = s.written ++ (m ∷ []) }

unfoldable pub put_one : Text → Forwarder → Forwarder
put_one m s = record s { channel = s.channel ++ (m ∷ []); put_so_far = s.put_so_far ++ (m ∷ []) }

-- close(done), by shutdown; a second one does nothing.
unfoldable pub close_done : Forwarder → Forwarder
close_done s = record s { done = true; put_before_done = s.put_so_far }

-- The goroutine's own steps.
pub data Own : Forwarder → Forwarder → Type 0 where
  forwards :
      {s : Forwarder} (m : Text) (rest : List Text)
      → s.phase ≡ selecting
      → s.channel ≡ m ∷ rest
      → Own s (write_one m rest s)
  sees_closed :
      {s : Forwarder}
      → s.phase ≡ selecting
      → s.channel ≡ []
      → s.closed ≡ true
      → Own s (record s { phase = stopped })
  sees_done :
      {s : Forwarder} → s.phase ≡ selecting → s.done ≡ true → Own s (record s { phase = draining })
  drains :
      {s : Forwarder} (m : Text) (rest : List Text)
      → s.phase ≡ draining
      → s.channel ≡ m ∷ rest
      → Own s (write_one m rest s)
  finds_empty :
      {s : Forwarder} → s.phase ≡ draining → s.channel ≡ [] → Own s (record s { phase = stopped })

-- Any step. The channel holds `room` messages at most.
pub data Step (room : ℕ) : Forwarder → Forwarder → Type 0 where
  owns : {s s' : Forwarder} → Own s s' → Step room s s'
  puts :
      {s : Forwarder} (m : Text)
      → s.closed ≡ false
      → length s.channel < room
      → Step room s (put_one m s)
  closes : {s : Forwarder} → Step room s (record s { closed = true })
  shuts_down : {s : Forwarder} → s.done ≡ false → Step room s (close_done s)

pub data Reachable (room : ℕ) : Forwarder → Type 0 where
  begins : Reachable room new_forwarder
  steps : {s s' : Forwarder} → Reachable room s → Step room s s' → Reachable room s'
