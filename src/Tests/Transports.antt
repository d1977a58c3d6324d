-- ===== src/Tests/Transports.antt =====
-- The transports of internal/mcp at concrete inputs.
use locksmith.Common.{
  ℕ, suc, zero, ◌+◌, ◌≤◌, ◌<◌, ◌≡◌, ◌∙◌, ◌⊎◌, refl, sym, ap, false, true, List, [], ◌∷◌, ◌++◌, map,
  Option, none, some, Result, ok, err, arith, length, if◌then◌else◌,
}
use locksmith.Common.Text.{Text, codes, contains_byte, has_prefix, is_empty, text_eq}
use locksmith.Common.Split.{split_on}
use locksmith.Common.Words.{trim_space, trim_left}
use locksmith.Common.Assoc.{lookup}
use locksmith.Common.Scan.{
  unlines, max_line, scan_lines, scan_upto, scan_from, drop_last_empty, drop_return,
}
use locksmith.Mcp.Events
use locksmith.Mcp.Events.{
  SseEvent, parse_sse, no_event, read_events, events_of, blocks, parse_sse-blocks,
}
use locksmith.Mcp.Transport.{Header, Request, Response, Error, data_of}
use locksmith.Mcp.Transport.Logged.{IsLazy, logging, logging_resolver, resolutions}
use locksmith.Mcp.Transport.Lazy.{
  Connection, sends, streams, run_ops, run_ops-IsLazy, fixed_headers,
}
use locksmith.Mcp.Transport.Http
use locksmith.Mcp.Transport.Http.{Http, After}
use locksmith.Mcp.Transport.Sse
use locksmith.Mcp.Transport.Sse.{Sse, patient}
use locksmith.Mcp.Transport.Auto
use locksmith.Mcp.Transport.Auto.{Auto, http_inner, sse_inner}
use locksmith.Mcp.Transport.Fallback.{fallen_back, send_falls_back}
use locksmith.Mcp.Transport.Fallback.Posting.{IsPosted}
use locksmith.Mcp.Transport.Fallback.Answers.{last_is_fallback}
use locksmith.Mcp.Transport.Fallback.Staying.{wrapped}
use locksmith.Mcp.Transport.Truncation.{IsTooLong, send-IsTooLong}

-- Two data lines and a comment, an event without data, and one that no empty line ends.
abbrev stream : Text
stream =
    codes "data: {"
    ++ (10
        ∷ (codes ": ping"
            ++ (10
                ∷ (codes "data: 1}"
                    ++ (13
                        ∷ 10
                        ∷ 10
                        ∷ (codes "event: endpoint" ++ (10 ∷ 10 ∷ (codes "data: 2"))))))))

stream_events :
    parse_sse stream
    ≡ record { event_type = []; event_data = codes "1}" }
      ∷ record { event_type = codes "endpoint"; event_data = [] }
      ∷ []
unfolding parse_sse scan_lines scan_upto scan_from drop_last_empty drop_return split_on read_events
    Events.read_event_line Events.send_event has_prefix is_empty trim_space trim_left
    locksmith.Common.Text.is_space
stream_events = refl

parse_sse-blocks_example : parse_sse stream ≡ events_of (blocks [] (scan_lines stream))
parse_sse-blocks_example = parse_sse-blocks stream

abbrev answer : ℕ → Text → Response
answer status body = record {
  status = status;
  content_type = codes "application/json";
  body = body;
  read_error = none;
}

-- A server that wants a token; the world counts its requests.
abbrev server : Request → ℕ → ℕ × Result Text Response
server req n = (
  n + 1,
  ok (elim (lookup (codes "Authorization") req.headers) [
    | none ↦ answer 401 []
    | some v ↦ answer 200 (codes "{}")
  ]),
)

abbrev vault : Option (ℕ → ℕ × Result Text Header)
vault = some (λ n. (n, ok ((codes "Authorization", codes "Bearer x" ∷ []) ∷ [])))

abbrev url : Text
url = codes "https://mcp.example.com/"

abbrev ops : List locksmith.Mcp.Transport.Lazy.Op
ops = sends (codes "a") none ∷ streams none ∷ sends (codes "b") none ∷ []

run_ops-IsLazy_example :
    let c : Connection ℕ = run_ops server vault ops (record {
      transport = record { base_url = url; static_headers = []; cached_auth = none };
      world = ([], 0);
    }) in
    IsLazy fixed_headers [] c.world.0 c.transport.cached_auth × (resolutions c.world.0 ≤ 1)
run_ops-IsLazy_example = run_ops-IsLazy server vault url [] ops 0

abbrev resolve_reference : Text → Text → Result Text Text
resolve_reference base ep = ok ep

abbrev auto : Auto
auto = record {
  base_url = url;
  static_headers = [];
  inner = http_inner (record { base_url = url; static_headers = []; cached_auth = none });
}

abbrev http : Http
http = record { base_url = url; static_headers = []; cached_auth = none }

abbrev sse : Sse
sse = record { base_url = url; endpoint = url; static_headers = []; cached_auth = none }

-- A server that has no streamable HTTP.
abbrev old_server : Request → ℕ → ℕ × Result Text Response
old_server req n = (n + 1, ok (answer 404 []))

send_falls_back_example :
    let requests = logging old_server in
    let resolver = logging_resolver vault in
    let a = Http.send requests resolver http (codes "a") none ([], 0) in
    let t' : Auto = record auto { inner = http_inner a.transport } in
    let fresh : Sse = record {
      base_url = auto.base_url;
      endpoint = [];
      static_headers = auto.static_headers;
      cached_auth = none;
    } in
    let c = Sse.connect requests resolver resolve_reference fresh patient a.world in
    let d = Sse.send requests resolver resolve_reference c.transport (codes "a") c.world in
    let b = Sse.send requests resolver resolve_reference sse (codes "a") ([], 0) in
    (Auto.send requests resolver resolve_reference
        (record auto { inner = http_inner http })
        (codes "a")
        none
        patient
        ([], 0)
      ≡ (if last_is_fallback a.world.0 then fallen_back t' a.messages c d else record {
        transport = t';
        world = a.world;
        messages = a.messages;
        result = wrapped a.result;
      }))
    × (((is_empty c.transport.endpoint ≡ true)
          ⊎ IsPosted (codes "a") c.transport.endpoint c.world.0 d.world.0)
        × (Auto.send requests resolver resolve_reference
              (record auto { inner = sse_inner sse })
              (codes "a")
              none
              patient
              ([], 0)
            ≡ record {
              transport = record auto { inner = sse_inner b.transport };
              world = b.world;
              messages = b.messages;
              result = wrapped b.result;
            }))
send_falls_back_example =
    send_falls_back old_server vault resolve_reference auto http sse (codes "a") none patient [] 0

-- A text of one letter.
letters : ℕ → Text
letters zero = []
letters (suc n) = b'x' ∷ letters n

length-letters : (n : ℕ) → length (letters n) ≡ n
unfolding letters
length-letters zero = refl
length-letters (suc n) = omega (arith, length-letters n)

letters-clear : (n : ℕ) → contains_byte 10 (letters n) ≡ false
unfolding letters contains_byte
letters-clear zero = refl
letters-clear (suc n) = letters-clear n

long_line : Text
long_line = codes "data: " ++ letters 70000

long_line-clear : contains_byte 10 long_line ≡ false
unfolding long_line contains_byte
long_line-clear = letters-clear 70000

long_line-lt : max_line < length long_line
unfolding long_line
long_line-lt = omega (arith, length-letters 70000)

abbrev short_lines : List Text
short_lines = codes "data: 1" ∷ [] ∷ []

abbrev long_answer : Response
long_answer = record {
  status = 200;
  content_type = codes "text/event-stream";
  body = unlines short_lines ++ (long_line ++ (10 ∷ (10 ∷ [])));
  read_error = none;
}

long_answer-IsTooLong : IsTooLong long_answer short_lines
unfolding contains_byte
long_answer-IsTooLong = record {
  accepted = refl;
  streamed = refl;
  short = ((refl, omega arith), ((refl, omega arith), tt));
  long = long_line;
  rest = 10 ∷ [];
  one_line = long_line-clear;
  too_long = long_line-lt;
  body_is = refl;
}

abbrev long_server : Request → ℕ → ℕ × Result Text Response
long_server req n = (n + 1, ok long_answer)

send-IsTooLong_example : Http.send long_server vault http (codes "a") none 0 ≡ record {
  transport = http;
  world = 1;
  messages = data_of (read_events no_event (map drop_return short_lines));
  result = ok tt;
}
send-IsTooLong_example =
    send-IsTooLong long_server vault http (codes "a") 0 1 long_answer short_lines refl
      long_answer-IsTooLong
