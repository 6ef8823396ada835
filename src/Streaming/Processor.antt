-- ===== src/Streaming/Processor.antt =====
-- The processor of chunks: streaming_shapes/sse_chunk_processor.rs.
pub mod Chunks
mod Examples
use plano.Prelude.{
  ℕ, Bool, true, false, ◌||◌, Option, none, some, List, [], ◌∷◌, ◌++◌, String, ◌<>◌, contains,
  if◌then◌else◌,
}
use plano.State.{Result, ok, err}
use plano.Streaming.Sse.{SseEvent}
use plano.Streaming.Lines.{lines, sse_stream_iter}

-- What the standard library does with bytes: `str::from_utf8`, `as_bytes` and `to_lowercase`.
pub record Encoding : Type 0 where
  pub from_utf8 : List ℕ → Result String String
  pub as_bytes : String → List ℕ
  pub to_lowercase : String → String

pub record SseChunkProcessor : Type 0 where
  pub incomplete_event_buffer : List ℕ

unfoldable pub new : SseChunkProcessor
new = record { incomplete_event_buffer = [] }

module _ (encoding : Encoding) where
  unfoldable pub is_incomplete_json : String → Bool
  is_incomplete_json error =
      let error_str = encoding.to_lowercase error in
      contains error_str "eof while parsing"
      || contains error_str "unexpected end of json"
      || contains error_str "unexpected eof"

  module _ (transform_event : SseEvent → Result String SseEvent) where
    abbrev pub transformed_one :
        SseEvent → Result String SseEvent → List SseEvent × List ℕ → List SseEvent × List ℕ
    transformed_one e (ok t) rest = (t ∷ rest.0, rest.1)
    transformed_one e (err text) rest =
        if is_incomplete_json text then ([], encoding.as_bytes e.raw_line) else rest

    -- The loop over the events: those that are transformed, and the bytes that are kept.
    unfoldable pub transform_events : List SseEvent → List SseEvent × List ℕ
    transform_events [] = ([], [])
    transform_events (e ∷ events) = transformed_one e (transform_event e) (transform_events events)

    abbrev pub process_text :
        Result String String → Result String (List SseEvent) × SseChunkProcessor
    process_text (err text) = (err ("Failed to create SSE iterator: " <> text), new)
    process_text (ok s) =
        let r = transform_events (sse_stream_iter (lines s)) in
        (ok r.0, record { incomplete_event_buffer = r.1 })

    unfoldable pub process_chunk :
        List ℕ → SseChunkProcessor → Result String (List SseEvent) × SseChunkProcessor
    process_chunk chunk p = process_text (encoding.from_utf8 (p.incomplete_event_buffer ++ chunk))
