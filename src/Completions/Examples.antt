-- ===== src/Completions/Examples.antt =====
-- The translations at a concrete response.
use plano.Prelude.{List, [], ◌∷◌, String, ◌≡◌, refl}
use plano.State.{Result, ok}
use plano.Streaming.Sse.{MessagesContentBlock, MessagesStopReason, text, tool_use_block}
use plano.Streaming.Transforms.{Clock}
use plano.Streaming.Transforms.Deltas.RoundTrip.{tool_use}
use plano.Completions.Transforms.{messages_response_to_chat}
use plano.Completions.RoundTrip.{
  no_calls, a_call, answered, then_response, chat_response-messages_response,
}

abbrev noon : Clock
noon = record { seconds = 1700000000; nanos = "1700000000000000000" }

-- A reader of values that are printed already.
abbrev read_printed : String → Result String String
read_printed s = ok s

abbrev searching : List MessagesContentBlock
searching = text "Let me look." ∷ tool_use_block "t1" "search" "{\"q\":1}" ∷ []

chat_response-messages_response_example :
    then_response read_printed (
      messages_response_to_chat noon
        (answered "msg" "claude" searching MessagesStopReason.tool_use 12 5))
    ≡ ok (answered "msg" "claude" searching MessagesStopReason.tool_use 12 5)
chat_response-messages_response_example =
    chat_response-messages_response read_printed noon "msg" "claude" "Let me look." 12 5 refl
      (a_call "t1" "search" "{\"q\":1}" refl no_calls) tool_use
