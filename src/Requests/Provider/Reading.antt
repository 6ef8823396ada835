-- ===== src/Requests/Provider/Reading.antt =====
-- What the gateway reads of a request: the operations of `ProviderRequest`.
pub mod Parts
use mathlib.Core.Option
use mathlib.Core.List.{reverse}
use plano.Prelude.{
  Bool, false, Option, none, some, List, [], ◌∷◌, ◌++◌, map, String, ◌<>◌, string_key, get, remove,
}
use plano.State
use plano.State.{Result, ok, err, MessageRole, InputContent, InputMessage, InputItem, InputParam}
use plano.Streaming.Chat.{Role}
use plano.Streaming.Converse.{ConversationRole}
use plano.Streaming.Sse.{MessagesRole}
use plano.Completions.{ConverseMessage, ContentBlock}
use plano.Completions.Transforms.{join_parts}
use plano.Requests.{
  ContentPart, MessageContent, Message, Tool, ChatCompletionsRequest, plain_message,
}
use plano.Requests.Messages.{
  MessagesMessage, MessagesMessageContent, MessagesSystemPrompt, MessagesTool, block_texts,
}
use plano.Requests.Converse.{SystemContentBlock, ToolSpecDefinition, ConverseRequest}
use plano.Requests.Responses.{ResponsesTool}
use plano.Requests.FromMessages.{system_messages, all_openai_messages}
use plano.Requests.FromChat.ToConverse.{is_some}
use plano.Requests.ResponsesTools.{Json}
use plano.Requests.FromResponses.{input_messages}
use plano.Requests.Provider.{
  ProviderRequestType, chat_completions_request, messages_request, bedrock_converse,
  bedrock_converse_stream, responses_api_request,
}
use plano.Requests.Provider.Reading.Parts.{
  join_words, first_text, options_of, and_then, shown_part, shown_content, fold_text, plain_text,
  last_message, tool_name, names_or, chat_tool_names, prompt_texts, message_texts, all_texts,
  user_texts, recent_text, converse_text, system_text, concat_map, converse_message_texts,
  only_text, recent_converse, chat_system, chat_role, chat_message, converse_chat_messages,
  input_text, first_input, user_input, recent_input, recent_of_input, responses_tool_name,
  input_shown,
}

-- The trait's operations.
unfoldable pub get_recent_user_message : ProviderRequestType → Option String
get_recent_user_message (chat_completions_request req) = last_message (reverse req.messages)
get_recent_user_message (messages_request req) = recent_text (reverse req.messages)
get_recent_user_message (bedrock_converse req) =
    and_then req.messages (λ ms. recent_converse (reverse ms))
get_recent_user_message (bedrock_converse_stream req) =
    and_then req.messages (λ ms. recent_converse (reverse ms))
get_recent_user_message (responses_api_request req) = recent_of_input req.input

abbrev pub converse_tool_names : ConverseRequest → Option (List String)
converse_tool_names req =
    and_then req.tool_config
      (λ c. Option.map (map (λ (spec : ToolSpecDefinition). spec.name)) c.tools)

unfoldable pub get_tool_names : ProviderRequestType → Option (List String)
get_tool_names (chat_completions_request req) = chat_tool_names req
get_tool_names (messages_request req) =
    Option.map (map (λ (tool : MessagesTool). tool.name)) req.tools
get_tool_names (bedrock_converse req) = converse_tool_names req
get_tool_names (bedrock_converse_stream req) = converse_tool_names req
get_tool_names (responses_api_request req) = Option.map (concat_map responses_tool_name) req.tools

abbrev pub converse_temperature : ConverseRequest → Option String
converse_temperature req = and_then req.inference_config (λ c. c.temperature)

unfoldable pub get_temperature : ProviderRequestType → Option String
get_temperature (chat_completions_request req) = req.temperature
get_temperature (messages_request req) = req.temperature
get_temperature (bedrock_converse req) = converse_temperature req
get_temperature (bedrock_converse_stream req) = converse_temperature req
get_temperature (responses_api_request req) = req.temperature

unfoldable pub get_messages : Json → ProviderRequestType → List Message
get_messages json (chat_completions_request req) = req.messages
get_messages json (messages_request req) =
    system_messages req.system_prompt ++ all_openai_messages req.messages
get_messages json (bedrock_converse req) = converse_chat_messages req
get_messages json (bedrock_converse_stream req) = converse_chat_messages req
get_messages json (responses_api_request req) = input_messages json req.input req.instructions

unfoldable pub metadata : ProviderRequestType → Option (List (String × String))
metadata (chat_completions_request req) = req.metadata
metadata (messages_request req) = req.metadata
metadata (bedrock_converse req) = req.metadata
metadata (bedrock_converse_stream req) = req.metadata
metadata (responses_api_request req) = req.metadata

abbrev pub without_key :
    String → Option (List (String × String)) → Option (List (String × String)) × Bool
without_key key none = (none, false)
without_key key (some fields) = (some (remove fields key), is_some (get fields key))

-- `remove_metadata_key`, which says whether the key was there.
unfoldable pub remove_metadata_key : String → ProviderRequestType → ProviderRequestType × Bool
remove_metadata_key key (chat_completions_request req) =
    let (m, there) = without_key key req.metadata in
    (chat_completions_request (record req { metadata = m }), there)
remove_metadata_key key (messages_request req) =
    let (m, there) = without_key key req.metadata in
    (messages_request (record req { metadata = m }), there)
remove_metadata_key key (bedrock_converse req) =
    let (m, there) = without_key key req.metadata in
    (bedrock_converse (record req { metadata = m }), there)
remove_metadata_key key (bedrock_converse_stream req) =
    let (m, there) = without_key key req.metadata in
    (bedrock_converse_stream (record req { metadata = m }), there)
remove_metadata_key key (responses_api_request req) =
    let (m, there) = without_key key req.metadata in
    (responses_api_request (record req { metadata = m }), there)

abbrev pub converse_words : ConverseRequest → String
converse_words req = join_words (
    options_of (concat_map converse_message_texts) req.messages
    ++ options_of (concat_map system_text) req.system_blocks)

unfoldable pub extract_messages_text : ProviderRequestType → String
extract_messages_text (chat_completions_request req) = fold_text "" req.messages
extract_messages_text (messages_request req) =
    join_words (prompt_texts req.system_prompt ++ all_texts req.messages)
extract_messages_text (bedrock_converse req) = converse_words req
extract_messages_text (bedrock_converse_stream req) = converse_words req
extract_messages_text (responses_api_request req) = input_shown req.input
