-- ===== src/Streaming/Transforms/Deltas.antt =====
-- What a stream says, whichever protocol it is in: texts, calls and their arguments, in order. The
-- transforms are compared by what a reader of the events is told.
pub mod Agreement
pub mod RoundTrip
pub mod Examples
use plano.Prelude.{
  ℕ, Option, none, some, List, [], ◌∷◌, ◌++◌, String, ◌<>◌, is_empty, if◌then◌else◌,
}
use plano.State.{Result, ok, err}
use plano.Streaming.Chat.{
  FunctionCallDelta, ToolCallDelta, StreamChoice, ChatCompletionsStreamResponse,
}
use plano.Streaming.Sse.{
  MessagesStreamEvent, MessagesContentBlock, MessagesContentDelta, content_block_start,
  content_block_delta, text, tool_use_block, server_tool_use_block, mcp_tool_use_block, text_delta,
  input_json_delta, thinking_delta,
}
use plano.Streaming.Converse.{
  ConverseStreamEvent, ContentBlockStart, ContentBlockDelta, tool_use_start, tool_use_delta,
}
use plano.Streaming.ResponsesApi.{
  ResponsesApiStreamEvent, response_output_text_delta, response_function_call_arguments_delta,
}

-- One thing said: a piece of text, a call by its identifier and name, or a piece of its arguments.
pub data Delta : Type 0 where
  says arguments : String → Delta
  calls : String → String → Delta

-- An empty piece says nothing.
abbrev pub said : String → List Delta
said t = if is_empty t then [] else says t ∷ []

abbrev pub argued : String → List Delta
argued t = if is_empty t then [] else arguments t ∷ []

abbrev pub said? : Option String → List Delta
said? none = []
said? (some t) = said t

abbrev pub argued? : Option String → List Delta
argued? none = []
argued? (some t) = argued t

abbrev pub called : Option String → Option String → List Delta
called (some id) (some name) = calls id name ∷ []
called _ _ = []

abbrev pub function_deltas : Option String → Option FunctionCallDelta → List Delta
function_deltas id none = []
function_deltas id (some function) = called id function.name ++ argued? function.arguments

abbrev pub call_deltas : List ToolCallDelta → List Delta
call_deltas [] = []
call_deltas (call ∷ rest) = function_deltas call.id call.function ++ call_deltas rest

abbrev pub tool_deltas : Option (List ToolCallDelta) → List Delta
tool_deltas none = []
tool_deltas (some l) = call_deltas l

abbrev pub choice_deltas : List StreamChoice → List Delta
choice_deltas [] = []
choice_deltas (choice ∷ choices) =
    (said? choice.delta.content ++ tool_deltas choice.delta.tool_calls) ++ choice_deltas choices

-- What a chunk says, in all its choices and all their calls.
abbrev pub chat_deltas : ChatCompletionsStreamResponse → List Delta
chat_deltas chunk = choice_deltas chunk.choices

abbrev pub block_deltas : MessagesContentBlock → List Delta
block_deltas (text t) = said t
block_deltas (tool_use_block id name input) = calls id name ∷ []
block_deltas (server_tool_use_block id name input) = calls id name ∷ []
block_deltas (mcp_tool_use_block id name input) = calls id name ∷ []
block_deltas _ = []

-- A thought is shown as text, with a prefix.
abbrev pub content_deltas : MessagesContentDelta → List Delta
content_deltas (text_delta t) = said t
content_deltas (input_json_delta t) = argued t
content_deltas (thinking_delta t) = said ("thinking: " <> t)
content_deltas _ = []

abbrev pub messages_deltas : MessagesStreamEvent → List Delta
messages_deltas (content_block_start index block) = block_deltas block
messages_deltas (content_block_delta index delta) = content_deltas delta
messages_deltas _ = []

abbrev pub start_deltas : ContentBlockStart → List Delta
start_deltas (tool_use_start start) = calls start.tool_use_id start.name ∷ []

abbrev pub piece_deltas : ContentBlockDelta → List Delta
piece_deltas (ContentBlockDelta.text t) = said t
piece_deltas (tool_use_delta delta) = argued delta.input

abbrev pub converse_deltas : ConverseStreamEvent → List Delta
converse_deltas (ConverseStreamEvent.content_block_start e) = start_deltas e.start
converse_deltas (ConverseStreamEvent.content_block_delta e) = piece_deltas e.delta
converse_deltas _ = []

abbrev pub responses_deltas : ResponsesApiStreamEvent → List Delta
responses_deltas (response_output_text_delta i o c t l f n) = said t
responses_deltas (response_function_call_arguments_delta o i t n call_id name) =
    called call_id name ++ argued t
responses_deltas _ = []

-- What the events of a stream say.
abbrev pub stream_deltas {ℓ} : {A : Type ℓ} → (A → List Delta) → List A → List Delta
stream_deltas f [] = []
stream_deltas f (a ∷ l) = f a ++ stream_deltas f l

-- An event that is not transformed is left out, as the processor of chunks does.
abbrev pub transformed : {E B : Type 0} → Result E B → List B → List B
transformed (ok b) rest = b ∷ rest
transformed (err e) rest = rest

abbrev pub transform : {E A B : Type 0} → (A → Result E B) → List A → List B
transform f [] = []
transform f (a ∷ l) = transformed (f a) (transform f l)

-- What a transformed event says.
abbrev pub result_deltas : {E A : Type 0} → (A → List Delta) → Result E A → List Delta
result_deltas f (ok a) = f a
result_deltas f (err e) = []
