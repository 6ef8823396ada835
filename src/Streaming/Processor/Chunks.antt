-- ===== src/Streaming/Processor/Chunks.antt =====
-- Where a stream may be cut into chunks: sse_chunk_processor.rs with the iterator of sse.rs.
use plano.Prelude.{
  ℕ, Bool, true, false, not, ◌&&◌, ◌||◌, Option, none, some, List, [], ◌∷◌, ◌++◌, append-nil,
  String, ◌<>◌, is_empty, trim, strip_prefix, ◌≡◌, refl, sym, ap, ◌∙◌, arith, Bool-cases, inl, inr,
}
use text.Mathlib.TextLemmas
use plano.State.{Result, ok, err}
use plano.Streaming.Sse.{SseEvent, is_done, should_skip}
use plano.Streaming.Lines.{
  SseParseError, from_str, parse_data, parse_event, parse_prefix, lines, has_data, step,
  sse_stream_iter,
}
use plano.Streaming.Lines.Cuts.{is_whole, lines-append}
use plano.Streaming.Processor.{
  Encoding, SseChunkProcessor, is_incomplete_json, transformed_one, transform_events, process_text,
  process_chunk,
}

-- UTF-8, as far as the processor relies on it.
pub record IsUtf8 (encoding : Encoding) : Type 0 where
  pub empty : encoding.as_bytes "" ≡ []
  pub append :
      (s t : String) → encoding.as_bytes (s <> t) ≡ encoding.as_bytes s ++ encoding.as_bytes t
  pub decode : (s : String) → encoding.from_utf8 (encoding.as_bytes s) ≡ ok s

abbrev pub raw_or : String → Result SseParseError SseEvent → String
raw_or line (ok e) = e.raw_line
raw_or line (err e) = line

parse_data-raw : (line stripped : String) → raw_or line (parse_data line stripped) ≡ line
parse_data-raw line stripped = elim (Bool-cases (is_empty (trim stripped))) [
  | inl blank ↦ rw blank refl
  | inr some_text ↦ rw some_text refl
]

parse_event-raw :
    (line trimmed : String) (o : Option String) → raw_or line (parse_event line trimmed o) ≡ line
parse_event-raw line trimmed none = refl
parse_event-raw line trimmed (some stripped) = elim (Bool-cases (is_empty stripped)) [
  | inl blank ↦ rw blank refl
  | inr some_text ↦ rw some_text refl
]

parse_prefix-raw :
    (line trimmed : String) (o : Option String) → raw_or line (parse_prefix line trimmed o) ≡ line
parse_prefix-raw line trimmed none = parse_event-raw line trimmed (strip_prefix trimmed "event: ")
parse_prefix-raw line trimmed (some stripped) = parse_data-raw line stripped

-- An event keeps the line that it is parsed from.
from_str-raw : (line : String) → raw_or line (from_str line) ≡ line
unfolding from_str
from_str-raw line = elim (Bool-cases (is_empty (trim line))) [
  | inl blank ↦ rw blank refl
  | inr some_text ↦
      rw some_text (parse_prefix-raw line (trim line) (strip_prefix (trim line) "data: "))
]

and_left : (a b : Bool) → a && b ≡ true → a ≡ true
and_left a b h = ground arith

and_right : (a b : Bool) → a && b ≡ true → b ≡ true
and_right a b h = ground arith

module _ (encoding : Encoding) (transform_event : SseEvent → Result String SseEvent) where
  abbrev pub is_cut : Result String SseEvent → Bool
  is_cut (ok e) = false
  is_cut (err text) = is_incomplete_json encoding text

  -- A line that does not end the events of its chunk: not the last marker, and no incomplete JSON.
  abbrev pub goes_on : Result SseParseError SseEvent → Bool
  goes_on (err e) = true
  goes_on (ok e) =
      not (has_data e && is_done e)
      && ((has_data e && should_skip e) || not (is_cut (transform_event e)))

  abbrev pub all_go_on : List String → Bool
  all_go_on [] = true
  all_go_on (line ∷ rest) = goes_on (from_str line) && all_go_on rest

  -- What is left of a chunk behind its last whole line: nothing, or a line whose JSON is incomplete.
  pub data IsHeld : String → Type 0 where
    nothing : IsHeld ""
    cut :
        {u error : String} {e : SseEvent}
        → lines u ≡ u ∷ []
        → from_str u ≡ ok e
        → has_data e && is_done e ≡ false
        → has_data e && should_skip e ≡ false
        → transform_event e ≡ err error
        → is_incomplete_json encoding error ≡ true
        → IsHeld u

  abbrev run : List String → List SseEvent × List ℕ
  run l = transform_events encoding transform_event (sse_stream_iter l)

  -- The events before a cut, with what comes of those behind it.
  abbrev before : List SseEvent × List ℕ → List SseEvent × List ℕ → List SseEvent × List ℕ
  before r rest = (r.0 ++ rest.0, rest.1)

  transformed_one-before :
      (e : SseEvent) (r : Result String SseEvent) (a rest : List SseEvent × List ℕ)
      → is_cut r ≡ false
      → transformed_one encoding transform_event e r (before a rest)
        ≡ before (transformed_one encoding transform_event e r a) rest
  transformed_one-before e (ok t) a rest whole = refl
  transformed_one-before e (err text) a rest whole = rw whole refl

  not_done : (done skip ends : Bool) → not done && (skip || not ends) ≡ true → done ≡ false
  not_done done skip ends h = ground arith

  not_cut :
      (done skip ends : Bool) → not done && (skip || not ends) ≡ true → skip ≡ false → ends ≡ false
  not_cut done skip ends h kept = ground arith

  step-before :
      (r : Result SseParseError SseEvent) (a b : List SseEvent) (rest : List SseEvent × List ℕ)
      → goes_on r ≡ true
      → transform_events encoding transform_event b
        ≡ before (transform_events encoding transform_event a) rest
      → transform_events encoding transform_event (step r b)
        ≡ before (transform_events encoding transform_event (step r a)) rest
  unfolding transform_events
  step-before (err e) a b rest on same = same
  step-before (ok e) a b rest on same =
      let more = not_done _ (has_data e && should_skip e) (is_cut (transform_event e)) on in
      elim (Bool-cases (has_data e && should_skip e)) [
        | inl skip ↦ rw (more, skip) same
        | inr kept ↦
            rw (more, kept)
              (ap (λ r. transformed_one encoding transform_event e (transform_event e) r) same
                ∙ transformed_one-before e (transform_event e) _ rest
                    (not_cut (has_data e && is_done e) _ _ on kept))
      ]

  run-append : (l m : List String) → all_go_on l ≡ true → run (l ++ m) ≡ before (run l) (run m)
  unfolding sse_stream_iter transform_events
  run-append [] m on = refl
  run-append (line ∷ l) m on =
      step-before (from_str line) (sse_stream_iter l) (sse_stream_iter (l ++ m)) (run m)
        (and_left _ _ on) (run-append l m (and_right _ _ on))

  run-held : IsUtf8 encoding → {u : String} → IsHeld u → run (lines u) ≡ ([], encoding.as_bytes u)
  unfolding sse_stream_iter transform_events lines
  run-held utf8 nothing = ap (λ k. ([], k)) (sym utf8.empty)
  run-held utf8 (cut {u} {error} {e} one_line parsed more kept refused incomplete) =
      rw (one_line, parsed, more, kept, refused, incomplete)
        (ap (λ line. ([], encoding.as_bytes line))
          (sym (ap (λ r. raw_or u r) parsed) ∙ from_str-raw u))

  -- The processor that keeps a text.
  abbrev pub holding : String → SseChunkProcessor
  holding v = record { incomplete_event_buffer = encoding.as_bytes v }

  -- The events of two chunks.
  abbrev pub both :
      Result String (List SseEvent) → Result String (List SseEvent) → Result String (List SseEvent)
  both (ok l) (ok m) = ok (l ++ m)
  both (ok l) (err text) = err text
  both (err text) r = err text

  abbrev pub process :
      String → SseChunkProcessor → Result String (List SseEvent) × SseChunkProcessor
  process x p = process_chunk encoding transform_event (encoding.as_bytes x) p

  abbrev processed : List SseEvent × List ℕ → Result String (List SseEvent) × SseChunkProcessor
  processed r = (ok r.0, record { incomplete_event_buffer = r.1 })

  process-run :
      IsUtf8 encoding → (v x : String) → process x (holding v) ≡ processed (run (lines (v <> x)))
  unfolding process_chunk
  process-run utf8 v x =
      ap (λ r. process_text encoding transform_event r)
        (ap encoding.from_utf8 (sym (utf8.append v x)) ∙ utf8.decode (v <> x))

  -- A chunk behind another one.
  abbrev pub then_process :
      String
      → Result String (List SseEvent) × SseChunkProcessor
      → Result String (List SseEvent) × SseChunkProcessor
  then_process t first = (both first.0 (process t first.1).0, (process t first.1).1)

  run-cut :
      (a t : String)
      → is_whole a ≡ true
      → all_go_on (lines a) ≡ true
      → run (lines (a <> t)) ≡ before (run (lines a)) (run (lines t))
  run-cut a t whole on = ap run (lines-append a t whole) ∙ run-append (lines a) (lines t) on

  -- Where the text of a chunk, with what was kept before it, is cut behind whole lines that do
  -- not end its events, or inside the JSON of the line behind them, the chunk and the next one give
  -- the events that they give as one chunk, and the processor is left with the same bytes.
  pub process-Agree :
      IsUtf8 encoding
      → (v x t a u : String) → v <> x ≡ a <> u
      → is_whole a ≡ true
      → all_go_on (lines a) ≡ true
      → IsHeld u
      → process (x <> t) (holding v) ≡ then_process t (process x (holding v))
  process-Agree utf8 v x t a u same whole on held =
      let joined =
        sym (TextLemmas.append_assoc v x t)
        ∙ ap (λ s. s <> t) same
        ∙ TextLemmas.append_assoc a u t in
      let first =
        process-run utf8 v x
        ∙ ap (λ s. processed (run (lines s))) same
        ∙ ap processed (run-cut a u whole on ∙ ap (before (run (lines a))) (run-held utf8 held)) in
      let one =
        process-run utf8 v (x <> t)
        ∙ ap (λ s. processed (run (lines s))) joined
        ∙ ap processed (run-cut a (u <> t) whole on) in
      let events = (run (lines a)).0 in
      one
      ∙ ap
          (λ l. (
            ok (l ++ (run (lines (u <> t))).0),
            record { incomplete_event_buffer = (run (lines (u <> t))).1 },
          ))
          (sym (append-nil events))
      ∙ ap (λ r. (both (ok (events ++ [])) r.0, r.1)) (sym (process-run utf8 u t))
      ∙ ap (then_process t) (sym first)
