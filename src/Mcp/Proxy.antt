-- ===== src/Mcp/Proxy.antt =====
-- internal/mcp/proxy.go: the loop between the client's stdin and the transport, and what it is set up
-- with. The transport that setup returns is a value that its Send changes; Connect, Send and Close are
-- arguments.
pub mod Loop
pub mod Forwarding
pub mod Running
pub mod Untouched
use locksmith.Common.{
  ℕ, ◌+◌, Bool, true, false, ◌||◌, List, [], ◌∷◌, Option, none, some, Result, ok, err,
  if◌then◌else◌, ◌==◌,
}
use locksmith.Common.Text.{Text, codes, text_eq, is_empty, contains_byte}
use locksmith.Common.Words.{trim_right}
use locksmith.Mcp.Secrets
use locksmith.Mcp.Secrets.{SecretRef, resolve_template}
use locksmith.Mcp.Transport.{Header, set_header}

-- What a reader gives: lines with their line feed, and at last the rest, with an error or none for EOF.
pub data Input : Type 0 where
  more : Text → Input → Input
  last : Text → Option Text → Input

unfoldable pub is_line_end : ℕ → Bool
is_line_end c = (c == 13) || (c == 10)

-- bytes.TrimRight(line, "\r\n")
unfoldable pub trim_line : Text → Text
unfolding is_line_end
trim_line line = trim_right is_line_end line

pub data Error (E : Type 0) : Type 0 where
  reading_stdin : Text → Error E
  setting_up : E → Error E
  sending : E → Error E

pub data First (E : Type 0) : Type 0 where
  found : Text → Input → First E
  nothing : First E
  broken : Error E → First E

unfoldable pub last_read : {E : Type 0} → Option Text → First E
last_read none = nothing
last_read (some e) = broken (reading_stdin e)

-- readFirstNonEmptyLine, and what is left to read. An error that came with the line comes again.
unfoldable pub read_first_non_empty_line : {E : Type 0} → Input → First E
read_first_non_empty_line (more line input) =
    let later = read_first_non_empty_line input in
    if is_empty (trim_line line) then later else found (trim_line line) input
read_first_non_empty_line (last line end) =
    if is_empty (trim_line line) then last_read end else found (trim_line line) (last [] end)

module _ {W T E : Type 0} (setup : W → W × Result E T)
    (send : T → Text → W → W × T × Result E (Unit {0})) (close : T → W → W) where
  unfoldable pub shut_down : T → W → Result (Error E) (Unit {0}) → W × Result (Error E) (Unit {0})
  shut_down t w r = (close t w, r)

  -- One line of the loop: the message, if it is not empty, and then `next`.
  unfoldable pub send_line :
      Text → (T → W → W × Result (Error E) (Unit {0})) → T → W → W × Result (Error E) (Unit {0})
  send_line line next t w =
      if is_empty line
      then next t w
      else (let (w', t', r) = send t line w in
          elim r [ err e ↦ shut_down t' w' (err (sending e)) | ok _ ↦ next t' w' ])

  unfoldable pub end_loop : Option Text → T → W → W × Result (Error E) (Unit {0})
  end_loop none t w = shut_down t w (ok tt)
  end_loop (some e) t w = shut_down t w (err (reading_stdin e))

  -- The loop over the lines behind the first.
  unfoldable pub send_loop : Input → T → W → W × Result (Error E) (Unit {0})
  send_loop (more line input) t w = send_line (trim_line line) (send_loop input) t w
  send_loop (last line end) t w = send_line (trim_line line) (end_loop end) t w

  unfoldable pub begin_loop : Text → Input → W × Result E T → W × Result (Error E) (Unit {0})
  begin_loop line input (w, err e) = (w, err (setting_up e))
  begin_loop line input (w, ok t) = send_line line (send_loop input) t w

  -- runLoop
  unfoldable pub run_loop : Input → W → W × Result (Error E) (Unit {0})
  run_loop input w = elim (read_first_non_empty_line {E = E} input) [
    | nothing ↦ (w, ok tt)
    | broken e ↦ (w, err e)
    | found line rest ↦ begin_loop line rest (setup w)
  ]

pub record HeaderMapping : Type 0 where
  pub name : Text
  pub template : Text

-- splitHeaders
unfoldable pub split_headers : List HeaderMapping → Header → Header × List HeaderMapping
split_headers [] static_headers = (static_headers, [])
split_headers (h ∷ mappings) static_headers =
    let (rest_static, rest_templates) = split_headers mappings (
      if contains_byte b'{' h.template
      then static_headers
      else set_header h.name h.template static_headers) in
    (rest_static, if contains_byte b'{' h.template then h ∷ rest_templates else rest_templates)
