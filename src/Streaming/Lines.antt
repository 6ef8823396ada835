-- ===== src/Streaming/Lines.antt =====
-- The lines of a chunk and their events: `FromStr for SseEvent` and `SseStreamIter` of
-- streaming_shapes/sse.rs.
pub mod Cuts
use Prim.Native.String
use Prim.Native.Char.{Char, code}
use plano.Prelude.{
  ℕ, ◌==◌, Bool, true, false, ◌&&◌, Option, none, some, List, [], ◌∷◌, String, ◌<>◌, is_empty, trim,
  strip_prefix, if◌then◌else◌,
}
use plano.State.{Result, ok, err}
use plano.Streaming.Sse.{SseEvent, is_done, should_skip}

abbrev pub SseParseError : Type 0
SseParseError = String

-- A parsed line: the line is kept as it was received.
abbrev pub received : Option String → Option String → String → SseEvent
received data_field event line = record {
  data_field = data_field;
  event = event;
  raw_line = line;
  sse_transformed_lines = line;
  provider_stream_response = none;
}

abbrev pub parse_data : String → String → Result SseParseError SseEvent
parse_data line stripped =
    if is_empty (trim stripped)
    then err "Empty data field after 'data: ' prefix"
    else ok (received (some stripped) none line)

abbrev pub parse_event : String → String → Option String → Result SseParseError SseEvent
parse_event line trimmed_line none =
    err ("Line does not start with 'data: ' or 'event: ': " <> trimmed_line)
parse_event line trimmed_line (some stripped) =
    if is_empty stripped
    then err "Empty event field is not a valid SSE event"
    else ok (received none (some stripped) line)

abbrev pub parse_prefix : String → String → Option String → Result SseParseError SseEvent
parse_prefix line trimmed_line (some stripped) = parse_data line stripped
parse_prefix line trimmed_line none =
    parse_event line trimmed_line (strip_prefix trimmed_line "event: ")

-- `FromStr for SseEvent`
unfoldable pub from_str : String → Result SseParseError SseEvent
from_str line =
    let trimmed_line = trim line in
    if is_empty trimmed_line
    then err "Empty line (SSE event separator)"
    else parse_prefix line trimmed_line (strip_prefix trimmed_line "data: ")

abbrev pub starts_line : String → Bool
starts_line String.[] = false
starts_line (String.◌∷◌ c s) = code c == 10

-- A character in front of the first line.
abbrev pub in_front : Char → List String → List String
in_front c [] = String.◌∷◌ c "" ∷ []
in_front c (line ∷ rest) = String.◌∷◌ c line ∷ rest

-- `s.lines()`: a line ends before a line feed, and before a carriage return in front of one.
unfoldable pub lines : String → List String
lines String.[] = []
lines (String.◌∷◌ c s) =
    let rest = lines s in
    if code c == 10
    then "" ∷ rest
    else if (code c == 13) && starts_line s
    then rest
    else in_front c rest

abbrev pub has_data : SseEvent → Bool
has_data e = elim e.data_field [ none ↦ false | some d ↦ true ]

-- The events that the iterator still gives, once a line is parsed.
abbrev pub step : Result SseParseError SseEvent → List SseEvent → List SseEvent
step (err e) rest = rest
step (ok e) rest =
    if has_data e && is_done e
    then e ∷ []
    else if has_data e && should_skip e
    then rest
    else e ∷ rest

-- All that `SseStreamIter` gives for its lines.
unfoldable pub sse_stream_iter : List String → List SseEvent
sse_stream_iter [] = []
sse_stream_iter (line ∷ rest) = step (from_str line) (sse_stream_iter rest)
