-- ===== src/State/Examples.antt =====
-- The theorems at a conversation of one turn in memory, between other states.
use plano.Prelude.{none, some, List, [], ◌∷◌, ◌++◌, ◌≡◌, refl, string_key}
use plano.State.{
  ok, user, assistant, InputItem, InputParam, input_text, OpenAiConversationState,
  extract_input_items, resolve_conversation_state,
}
use plano.State.Outputs.{
  OutputItem, completed, output_message, output_text, refusal, reasoning, outputs_to_inputs,
  convert_responses_output_to_input_items, input_contents, message_of,
}
use plano.State.Memory.{MemoryConversationalStorage, memory, memory-IsReliable}
use plano.State.History.{
  Conversation, first, stored, captured, on_complete, all_carried, resolve-Conversation,
}

abbrev question : InputParam
question = InputParam.text "hello"

abbrev asked : List InputItem
asked = message_of user (input_text "hello" ∷ []) ∷ []

abbrev output : List OutputItem
output =
    reasoning "r" []
    ∷ output_message "m" completed "assistant" (refusal "no" ∷ output_text "hi" [] none ∷ [])
    ∷ []

abbrev answered : List InputItem
answered = message_of assistant (input_text "hi" ∷ []) ∷ []

abbrev elsewhere : OpenAiConversationState
elsewhere = record {
  response_id = "b";
  input_items = [];
  created_at = 5;
  model = "m";
  provider = "p";
}

output_converted : outputs_to_inputs output ≡ answered
unfolding outputs_to_inputs convert_responses_output_to_input_items input_contents
output_converted = refl

abbrev after_turn : MemoryConversationalStorage
after_turn = on_complete memory 7 (captured memory "m" "p" asked "a" output) []

one_turn :
    Conversation memory
      ((memory.put elsewhere after_turn).1)
      "a"
      (extract_input_items question ++ all_carried output)
unfolding extract_input_items resolve_conversation_state
one_turn = stored (first [] question asked 7 "m" "p" "a" output refl) elsewhere refl

resolve-Conversation_example :
    resolve_conversation_state memory
      ((memory.put elsewhere after_turn).1)
      (InputParam.text "more")
      (some "a")
    ≡ ok (
        (extract_input_items question ++ all_carried output)
        ++ extract_input_items (InputParam.text "more"))
resolve-Conversation_example =
    resolve-Conversation memory memory-IsReliable (InputParam.text "more") one_turn
