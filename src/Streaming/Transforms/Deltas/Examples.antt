-- ===== src/Streaming/Transforms/Deltas/Examples.antt =====
-- The transforms at concrete streams.
use plano.Prelude.{List, [], ◌∷◌, ◌≡◌}
use plano.State.{ok}
use plano.Streaming.Sse.{
  MessagesStreamEvent, MessagesContentBlock, MessagesStopReason, content_block_start,
  content_block_delta, message_stop, tool_use_block, text_delta, input_json_delta, thinking_delta,
  other_block,
}
use plano.Streaming.Converse.{
  ConverseStreamEvent, ContentBlockDelta, tool_use_start, tool_use_delta,
}
use plano.Streaming.Transforms.{Clock}
use plano.Streaming.Transforms.ToChat.{messages_to_chat}
use plano.Streaming.Transforms.ToMessages.{stopped}
use plano.Streaming.Transforms.Deltas.RoundTrip.{
  counted, then_messages, ending, tool_use, chat_to_messages-messages_to_chat,
}

abbrev pub noon : Clock
noon = record { seconds = 1700000000; nanos = "1700000000000000000" }

abbrev pub bedrock_stream : List ConverseStreamEvent
bedrock_stream =
    ConverseStreamEvent.content_block_delta
      (record { content_block_index = 0; delta = ContentBlockDelta.text "Let me look." })
    ∷ ConverseStreamEvent.content_block_start (record {
      content_block_index = 1;
      start = tool_use_start (record { tool_use_id = "t1"; name = "search" });
    })
    ∷ ConverseStreamEvent.content_block_delta (record {
      content_block_index = 1;
      delta = tool_use_delta (record { input = "{\"q\":1}" });
    })
    ∷ ConverseStreamEvent.throttling_exception "{}"
    ∷ []

abbrev messages_stream : List MessagesStreamEvent
messages_stream =
    content_block_start 0 (other_block "{}")
    ∷ content_block_delta 0 (thinking_delta "hm")
    ∷ content_block_start 1 (MessagesContentBlock.text "")
    ∷ content_block_delta 1 (text_delta "Let me look.")
    ∷ content_block_start 2 (tool_use_block "t1" "search" "{}")
    ∷ content_block_delta 2 (input_json_delta "{}")
    ∷ message_stop
    ∷ []

chat_to_messages-messages_to_chat_example :
    then_messages (messages_to_chat noon (stopped MessagesStopReason.tool_use (counted 12 5)))
    ≡ ok (stopped MessagesStopReason.tool_use (counted 12 5))
chat_to_messages-messages_to_chat_example =
    chat_to_messages-messages_to_chat noon (ending 12 5 tool_use)
