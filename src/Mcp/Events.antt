-- ===== src/Mcp/Events.antt =====
-- parseSSE of internal/mcp/transport.go: the events of an event stream.
use locksmith.Common.{
  ℕ, ◌≡◌, refl, ◌∙◌, ap, sym, true, false, not, ◌&&◌, ◌||◌, List, [], ◌∷◌, ◌++◌, Option, none, some,
  arith, if◌then◌else◌, length, drop,
}
use locksmith.Common.Text.{Text, codes, is_empty, has_prefix}
use locksmith.Common.Words.{trim_space}
use locksmith.Common.Scan.{scan_lines}

pub record SseEvent : Type 0 where
  pub event_type : Text
  pub event_data : Text

abbrev pub no_event : SseEvent
no_event = record { event_type = []; event_data = [] }

abbrev pub type_key : Text
type_key = codes "event:"

abbrev pub data_key : Text
data_key = codes "data:"

-- One line: the event in progress, and the event that is sent to the channel, if one is.
unfoldable pub read_event_line : Text → SseEvent → SseEvent × Option SseEvent
read_event_line line event =
    if has_prefix line type_key
    then (record event { event_type = trim_space (drop 6 line) }, none)
    else if has_prefix line data_key
    then (record event { event_data = trim_space (drop 5 line) }, none)
    else if is_empty line
    then (if not (is_empty event.event_data) || not (is_empty event.event_type)
        then (no_event, some event)
        else (event, none))
    else (event, none)

unfoldable pub send_event : Option SseEvent → List SseEvent → List SseEvent
send_event none rest = rest
send_event (some event) rest = event ∷ rest

-- The loop over the lines.
unfoldable pub read_events : SseEvent → List Text → List SseEvent
read_events event [] = []
read_events event (line ∷ lines) =
    let (event', sent) = read_event_line line event in send_event sent (read_events event' lines)

-- parseSSE: what the channel gives until it is closed.
unfoldable pub parse_sse : Text → List SseEvent
parse_sse body = read_events no_event (scan_lines body)

-- The blocks of lines that an empty line ends; `block` is what the first one has already.
unfoldable pub blocks : List Text → List Text → List (List Text)
blocks block [] = []
blocks block ([] ∷ lines) = block ∷ blocks [] lines
blocks block ((c ∷ s) ∷ lines) = blocks (block ++ ((c ∷ s) ∷ [])) lines

-- The value of the last line of a block that begins with the key.
unfoldable pub find_last : Text → List Text → Option Text
find_last key [] = none
find_last key (line ∷ lines) = elim (find_last key lines) [
  | some value ↦ some value
  | none ↦ if has_prefix line key then some (trim_space (drop (length key) line)) else none
]

abbrev pub or_empty : Option Text → Text
or_empty none = []
or_empty (some t) = t

-- What a block says: its last type and its last data, each empty if there is none.
unfoldable pub event_of : List Text → SseEvent
event_of block = record {
  event_type = or_empty (find_last type_key block);
  event_data = or_empty (find_last data_key block);
}

-- The events of some blocks; a block with neither type nor data has none.
unfoldable pub events_of : List (List Text) → List SseEvent
events_of [] = []
events_of (block ∷ more) =
    let event = event_of block in
    let rest = events_of more in
    if is_empty event.event_data && is_empty event.event_type then rest else event ∷ rest

find_last-snoc :
    (key : Text) (block : List Text) (line : Text)
    → find_last key (block ++ (line ∷ [])) ≡ (
        if has_prefix line key
        then some (trim_space (drop (length key) line))
        else find_last key block)
unfolding find_last
find_last-snoc key [] line = refl
find_last-snoc key (l ∷ block) line = ground (arith, find_last-snoc key block line)

not_both : (line : Text) → has_prefix line type_key ≡ true → has_prefix line data_key ≡ false
unfolding has_prefix
not_both [] h = absurd (cc)
not_both (c ∷ s) h = ground arith

line_in_block :
    (block : List Text) (c : ℕ) (s : Text)
    → read_event_line (c ∷ s) (event_of block) ≡ (event_of (block ++ ((c ∷ s) ∷ [])), none)
unfolding read_event_line event_of
line_in_block block c s =
    rw (find_last-snoc type_key block (c ∷ s), find_last-snoc data_key block (c ∷ s))
      (unfold is_empty in ground (arith, not_both (c ∷ s)))

nothing_yet : event_of [] ≡ no_event
unfolding event_of find_last
nothing_yet = refl

blank_line :
    (kind content : Text) (lines : List Text)
    → let event : SseEvent = record { event_type = kind; event_data = content } in
      read_events event ([] ∷ lines) ≡ (
        if is_empty content && is_empty kind
        then read_events no_event lines
        else event ∷ read_events no_event lines)
unfolding read_events read_event_line send_event has_prefix is_empty
blank_line [] [] lines = refl
blank_line [] (c ∷ d) lines = refl
blank_line (c ∷ t) [] lines = refl
blank_line (c ∷ t) (d ∷ s) lines = refl

-- What follows a block in the channel.
after_block : List Text → List SseEvent → List SseEvent
after_block block rest =
    let event = event_of block in
    if is_empty event.event_data && is_empty event.event_type then rest else event ∷ rest

read_events-blocks :
    (block lines : List Text) → read_events (event_of block) lines ≡ events_of (blocks block lines)
unfolding read_events blocks send_event after_block
read_events-blocks block [] = unfold events_of in refl
read_events-blocks block ((c ∷ s) ∷ lines) =
    rw (line_in_block block c s) (read_events-blocks (block ++ ((c ∷ s) ∷ [])) lines)
read_events-blocks block ([] ∷ lines) =
    blank_line (event_of block).event_type (event_of block).event_data lines
    ∙ ap (after_block block)
        (ap (λ e. read_events e lines) (sym nothing_yet) ∙ read_events-blocks [] lines)
    ∙ (unfold events_of in refl)

-- The events of a stream are those of its blocks that an empty line ends, in order: the last type and
-- the last data of each, without those that have neither. Lines of any other form are skipped, and
-- what comes after the last empty line is dropped.
pub parse_sse-blocks : (body : Text) → parse_sse body ≡ events_of (blocks [] (scan_lines body))
unfolding parse_sse event_of find_last
parse_sse-blocks body = read_events-blocks [] (scan_lines body)
