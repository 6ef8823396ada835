-- ===== src/Requests/Examples.antt =====
-- The translations at concrete requests.
use plano.Prelude.{
  true, none, some, List, [], ◌∷◌, ◌++◌, String, strip_prefix, split_once, ◌≡◌, ◌↔◌, refl, All,
}
use plano.State.{Result, ok, err}
use plano.Streaming.Chat.{Role}
use plano.Streaming.Sse.{
  MessagesRole, MessagesImageSource, ResultBlock, ToolResultContent, text, tool_use_block,
  image_block, tool_result_block,
}
use plano.Completions.Transforms.{all_calls, call_blocks}
use plano.Completions.RoundTrip.{no_calls, a_call}
use plano.Requests.{
  Message, MessageContent, ChatCompletionsRequest, default_request, plain_message, extract_text,
  content_text,
}
use plano.Requests.Messages.{
  MessagesMessage, MessagesMessageContent, MessagesSystemPrompt, MessagesTool, MessagesToolChoice,
  MessagesToolChoiceType, MessagesRequest,
}
use plano.Requests.FromMessages.{messages_request_to_chat}
use plano.Requests.FromChat.{
  chat_request_to_messages, messages_of, messages_message_of, last_system,
  convert_openai_message_to_anthropic_content, build_anthropic_content, convert_openai_tool_choice,
}
use plano.Requests.FromChat.Errors.{IsOk, IsTranslatable, chat_request_to_messages-IsOk}
use plano.Requests.FromChat.Prompt.{chat_request_to_messages-last_prompt}
use plano.Requests.FromChat.RoundTrip.Images.{inline}
use plano.Requests.FromChat.RoundTrip.Messages.{
  IsShared, said, built, replied, IsSpeaker, no_parts, a_text, an_image,
}
use plano.Requests.FromChat.RoundTrip.Options.{named, a_choice, a_prompt}
use plano.Requests.FromChat.RoundTrip.Whole.{
  shared_request, then_messages, chat_request-messages_request,
}
use plano.Requests.ResponsesTools.{Json}
use plano.Requests.FromResponses.{input_messages}
use plano.State
use plano.State.{InputItem, InputParam, MessageRole}
use plano.Requests.FromResponses.Told.{turns, turns-input_messages, instruction_turns, input_turns}

-- A reader of values that are printed already, and printers that leave a text as it is.
abbrev pub read_printed : String → Result String String
read_printed s = ok s

abbrev pub printed : Json
printed = record {
  read_object = λ s. none;
  read_string = λ s. none;
  print_object = λ fields. "{}";
  print_string = λ s. s;
  print_number = λ n. "1";
}

abbrev photo : MessagesImageSource
photo = MessagesImageSource.base64 "image/png" "AAAA"

abbrev conversation : List MessagesMessage
conversation =
    record {
      role = MessagesRole.user;
      content = MessagesMessageContent.blocks (text "What is this?" ∷ image_block photo ∷ []);
    }
    ∷ record {
      role = MessagesRole.assistant;
      content = MessagesMessageContent.blocks (tool_use_block "t1" "look" "{\"q\":1}" ∷ []);
    }
    ∷ record {
      role = MessagesRole.user;
      content = MessagesMessageContent.blocks (
          tool_result_block "t1" none (ToolResultContent.blocks (ResultBlock.text "a cat" ∷ []))
          ∷ []);
    }
    ∷ record { role = MessagesRole.assistant; content = MessagesMessageContent.single "A cat." }
    ∷ []

abbrev tools : List MessagesTool
tools = record { name = "look"; description = none; input_schema = "{}" } ∷ []

abbrev look : MessagesToolChoice
look = record {
  kind = MessagesToolChoiceType.tool;
  name = some "look";
  disable_parallel_tool_use = some true;
}

abbrev sampling : MessagesRequest
sampling = record {
  model = "";
  messages = [];
  max_tokens = 0;
  container = none;
  mcp_servers = none;
  system_prompt = none;
  metadata = none;
  service_tier = none;
  thinking = none;
  temperature = some "0.5";
  top_p = none;
  top_k = none;
  stream = some true;
  stop_sequences = none;
  tools = none;
  tool_choice = none;
}

abbrev question : MessagesRequest
question =
    shared_request read_printed "claude" (some (MessagesSystemPrompt.single "Be brief."))
      conversation 100 (some tools) (some look) sampling

conversation-IsShared : All (IsShared read_printed) conversation
unfolding split_once all_calls
conversation-IsShared = (
  built IsSpeaker.user
      (a_text "What is this?" (an_image (inline "image/png" "AAAA" refl refl) no_parts)) no_calls
      refl,
  (
    built IsSpeaker.assistant no_parts (a_call "t1" "look" "{\"q\":1}" refl no_calls) refl,
    (replied "t1" "a cat", (said "A cat." IsSpeaker.assistant refl, tt)),
  ),
)

chat_request-messages_request_example :
    then_messages read_printed (messages_request_to_chat question) ≡ ok question
unfolding strip_prefix
chat_request-messages_request_example =
    chat_request-messages_request read_printed "claude" conversation 100 (some tools) sampling refl
      (a_prompt "Be brief.") conversation-IsShared (a_choice (named "look" (some true)))

abbrev said_by : Role → String → Message
said_by role t = plain_message role (some (MessageContent.text t)) none none

abbrev pub briefed : ChatCompletionsRequest
briefed = record default_request {
  model = "gpt-4o";
  messages =
      said_by Role.system "Be kind."
      ∷ said_by Role.user "Hello"
      ∷ said_by Role.developer "Be brief."
      ∷ said_by Role.user ""
      ∷ [];
  stream = some true;
}

chat_request_to_messages-IsOk_example :
    IsOk (chat_request_to_messages read_printed briefed)
    ↔ All (IsTranslatable read_printed) briefed.messages
chat_request_to_messages-IsOk_example = chat_request_to_messages-IsOk read_printed briefed

abbrev briefed_messages : MessagesRequest
briefed_messages = record sampling {
  model = "gpt-4o";
  max_tokens = 4096;
  system_prompt = some (MessagesSystemPrompt.single "Be brief.");
  messages =
      record { role = MessagesRole.user; content = MessagesMessageContent.single "Hello" }
      ∷ record { role = MessagesRole.user; content = MessagesMessageContent.single "" }
      ∷ [];
  temperature = none;
}

briefed-translated : chat_request_to_messages read_printed briefed ≡ ok briefed_messages
unfolding chat_request_to_messages messages_of messages_message_of last_system extract_text
    content_text convert_openai_message_to_anthropic_content build_anthropic_content call_blocks
    convert_openai_tool_choice
briefed-translated = refl

chat_request_to_messages-last_prompt_example :
    briefed_messages.system_prompt ≡ some (MessagesSystemPrompt.single "Be brief.")
unfolding extract_text content_text
chat_request_to_messages-last_prompt_example =
    chat_request_to_messages-last_prompt read_printed briefed
      (said_by Role.system "Be kind." ∷ said_by Role.user "Hello" ∷ [])
      (said_by Role.developer "Be brief.") (said_by Role.user "" ∷ []) briefed_messages refl refl
      (refl, tt) briefed-translated

abbrev asked : InputParam
asked = InputParam.items (
    InputItem.message
      (record { role = MessageRole.assistant; content = State.MessageContent.text "Looking." })
    ∷ InputItem.function_call "function_call" "look" "{}" "c1"
    ∷ InputItem.function_call_output "function_call_output" "c1" "a cat"
    ∷ [])

turns-input_messages_example :
    turns (input_messages printed asked (some "Be brief."))
    ≡ instruction_turns (some "Be brief.") ++ input_turns printed asked
turns-input_messages_example = turns-input_messages printed asked (some "Be brief.")
