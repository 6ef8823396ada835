-- ===== src/State/History.antt =====
-- Turns of a conversation: `on_complete` of state/response_state_processor.rs after a request whose
-- history was resolved, on any reliable storage.
use plano.Prelude.{
  ℕ, if◌then◌else◌, Bool, false, Option, none, some, List, [], ◌∷◌, null, ◌++◌, ◌<>◌, append_assoc,
  String, str_eq, ◌≡◌, ◌∙◌, refl, sym, ap,
}
use plano.State.{
  Result, ok, err, InputContent, MessageRole, MessageContent, InputItem, InputParam,
  OpenAiConversationState, StateStorage, IsReliable, merge, extract_input_items,
  retrieve_and_combine_input, resolve_conversation_state,
}
use plano.State.Outputs.{
  OutputItem, OutputContent, outputs_to_inputs, input_contents, message_role, message_of,
  tool_call_text, push, convert_responses_output_to_input_items,
}

-- The fields of the processor that `on_complete` reads once the response is captured.
pub record ResponsesStateProcessor : Type 0 where
  pub original_input : List InputItem
  pub model : String
  pub provider : String
  pub is_openai_upstream : Bool
  pub response_id : Option String
  pub output_items : Option (List OutputItem)

-- The state that is stored; `now` is the time in seconds.
unfoldable pub state_of :
    ℕ → ResponsesStateProcessor → String → List OutputItem → OpenAiConversationState
state_of now p id output = record {
  response_id = id;
  input_items = p.original_input ++ outputs_to_inputs output;
  created_at = now;
  model = p.model;
  provider = p.provider;
}

module _ {S : Type 0} (storage : StateStorage S) where
  abbrev pub store_captured :
      ℕ → ResponsesStateProcessor → Option String → Option (List OutputItem) → S → S
  store_captured now p (some id) (some output) s = (storage.put (state_of now p id output) s).1
  store_captured now p _ _ s = s

  unfoldable pub on_complete : ℕ → ResponsesStateProcessor → S → S
  on_complete now p s =
      if p.is_openai_upstream then s else store_captured now p p.response_id p.output_items s

-- What the next request carries of a response: the texts and the sounds of its messages, under
-- their roles, and its calls, each as a text of the assistant. Nothing is carried of refusals, of
-- reasoning, of the calls of built-in tools or of the outputs of tools.
abbrev pub carried_content : OutputContent → List InputContent
carried_content (OutputContent.output_text t annotations logprobs) = InputContent.input_text t ∷ []
carried_content (OutputContent.output_audio sound transcript) =
    InputContent.input_audio sound none ∷ []
carried_content (OutputContent.refusal r) = []

abbrev pub carried_contents : List OutputContent → List InputContent
carried_contents [] = []
carried_contents (c ∷ cs) = carried_content c ++ carried_contents cs

-- A role that has no name of its own is the assistant's.
abbrev pub role_named : String → MessageRole
role_named name =
    if str_eq name "user"
    then MessageRole.user
    else if str_eq name "assistant"
    then MessageRole.assistant
    else if str_eq name "system"
    then MessageRole.system
    else if str_eq name "developer"
    then MessageRole.developer
    else MessageRole.assistant

abbrev pub said_by : MessageRole → List InputContent → List InputItem
said_by role [] = []
said_by role (c ∷ cs) =
    InputItem.message (record { role = role; content = MessageContent.items (c ∷ cs) }) ∷ []

abbrev pub call_words : Option String → Option String → String
call_words none arguments = "Called a function"
call_words (some name) none = "Called a function"
call_words (some name) (some arguments) =
    "Called function: " <> (name <> (" with arguments: " <> arguments))

abbrev pub carried : OutputItem → List InputItem
carried (OutputItem.output_message id status role content) =
    said_by (role_named role) (carried_contents content)
carried (OutputItem.output_function_call id status call_id name arguments) =
    said_by MessageRole.assistant (InputContent.input_text (call_words name arguments) ∷ [])
carried _ = []

abbrev pub all_carried : List OutputItem → List InputItem
all_carried [] = []
all_carried (o ∷ os) = carried o ++ all_carried os

input_contents_lem : (cs : List OutputContent) → input_contents cs ≡ carried_contents cs
unfolding input_contents
input_contents_lem [] = refl
input_contents_lem (OutputContent.output_text t annotations logprobs ∷ cs) =
    ap (λ l. InputContent.input_text t ∷ l) (input_contents_lem cs)
input_contents_lem (OutputContent.output_audio sound transcript ∷ cs) =
    ap (λ l. InputContent.input_audio sound none ∷ l) (input_contents_lem cs)
input_contents_lem (OutputContent.refusal r ∷ cs) = input_contents_lem cs

message_role_lem : (name : String) → message_role name ≡ role_named name
message_role_lem name = refl

said_by_lem :
    (role : MessageRole) (cs : List InputContent) (items : List InputItem)
    → push (if null cs then none else some (message_of role cs)) items ≡ said_by role cs ++ items
said_by_lem role [] items = refl
said_by_lem role (c ∷ cs) items = refl

call_words_lem :
    (name arguments : Option String) → tool_call_text name arguments ≡ call_words name arguments
call_words_lem none arguments = refl
call_words_lem (some name) none = refl
call_words_lem (some name) (some arguments) = refl

outputs_to_inputs_lem : (os : List OutputItem) → outputs_to_inputs os ≡ all_carried os
unfolding outputs_to_inputs convert_responses_output_to_input_items
outputs_to_inputs_lem [] = refl
outputs_to_inputs_lem (OutputItem.output_message id status role content ∷ os) =
    said_by_lem (message_role role) (input_contents content) (outputs_to_inputs os)
    ∙ rw (input_contents_lem content, message_role_lem role, outputs_to_inputs_lem os) refl
outputs_to_inputs_lem (OutputItem.output_function_call id status call_id name arguments ∷ os) =
    rw (call_words_lem name arguments, outputs_to_inputs_lem os) refl
outputs_to_inputs_lem (_ ∷ os) = outputs_to_inputs_lem os

sent_lem : {E A : Type 0} {a b : A} → Path (Result E A) (ok a) (ok b) → b ≡ a
sent_lem h = cc

module _ {S : Type 0} (storage : StateStorage S) where
  -- A processor that captured a response of a provider without conversations of its own.
  abbrev pub captured :
      String → String → List InputItem → String → List OutputItem → ResponsesStateProcessor
  captured model provider sent id output = record {
    original_input = sent;
    model = model;
    provider = provider;
    is_openai_upstream = false;
    response_id = some id;
    output_items = some output;
  }

  -- The stores in which a response ends a conversation, with the items said in it: the turns of the
  -- conversation, each resolved and stored by the code, among the states that others store and
  -- delete.
  pub data Conversation : S → String → List InputItem → Type 0 where
    first :
        (s : S) (input : InputParam) (sent : List InputItem) (now : ℕ) (model provider id : String)
        (output : List OutputItem)
        → resolve_conversation_state storage s input none ≡ ok sent
        → Conversation
            (on_complete storage now (captured model provider sent id output) s)
            id
            (extract_input_items input ++ all_carried output)
    next :
        {s : S} {prev : String} {said : List InputItem}
        → Conversation s prev said
        → (input : InputParam) (sent : List InputItem) (now : ℕ) (model provider id : String)
          (output : List OutputItem)
        → resolve_conversation_state storage s input (some prev) ≡ ok sent
        → Conversation
            (on_complete storage now (captured model provider sent id output) s)
            id
            (said ++ (extract_input_items input ++ all_carried output))
    stored :
        {s : S} {id : String} {said : List InputItem}
        → Conversation s id said
        → (c : OpenAiConversationState) → str_eq c.response_id id ≡ false
        → Conversation ((storage.put c s).1) id said
    deleted :
        {s : S} {id : String} {said : List InputItem}
        → Conversation s id said
        → (other : String) → str_eq other id ≡ false
        → Conversation ((storage.delete other s).1) id said

  module _ (reliable : IsReliable storage) where
    resolve-found :
        (s : S) (input : InputParam) (prev : String) (c : OpenAiConversationState)
        → storage.get prev s ≡ ok c
        → resolve_conversation_state storage s input (some prev)
          ≡ ok (c.input_items ++ extract_input_items input)
    unfolding resolve_conversation_state retrieve_and_combine_input merge
    resolve-found s input prev c h = rw h refl

    get-on_complete :
        (now : ℕ) (model provider : String) (sent : List InputItem) (id : String)
        (output : List OutputItem) (s : S)
        → storage.get id (on_complete storage now (captured model provider sent id output) s)
          ≡ ok (state_of now (captured model provider sent id output) id output)
    unfolding on_complete state_of
    get-on_complete now model provider sent id output s =
        reliable.get-put (state_of now (captured model provider sent id output) id output) s

    pub Conversation-stored :
        {s : S} {id : String} {said : List InputItem}
        → Conversation s id said
        → (c : OpenAiConversationState) × ((storage.get id s ≡ ok c) × (c.input_items ≡ said))
    unfolding resolve_conversation_state state_of
    Conversation-stored (first s input sent now model provider id output h) = (
      state_of now (captured model provider sent id output) id output,
      (
        get-on_complete now model provider sent id output s,
        ap (λ t. t ++ outputs_to_inputs output) (sent_lem h)
            ∙ ap (λ l. extract_input_items input ++ l) (outputs_to_inputs_lem output),
      ),
    )
    Conversation-stored (next {s} {prev} {said} before input sent now model provider id output h) =
        let (c, (found, same)) = Conversation-stored before in
        (
          state_of now (captured model provider sent id output) id output,
          (
            get-on_complete now model provider sent id output s,
            ap (λ t. t ++ outputs_to_inputs output)
                  (sent_lem (sym (resolve-found s input prev c found) ∙ h))
                ∙ append_assoc c.input_items (extract_input_items input) (outputs_to_inputs output)
                ∙ ap (λ t. t ++ (extract_input_items input ++ outputs_to_inputs output)) same
                ∙ ap (λ l. said ++ (extract_input_items input ++ l)) (outputs_to_inputs_lem output),
          ),
        )
    Conversation-stored (stored {s} {id} {said} before c apart) =
        let (d, (found, same)) = Conversation-stored before in
        (d, (reliable.get-put_other c s id apart ∙ found, same))
    Conversation-stored (deleted {s} {id} {said} before other apart) =
        let (d, (found, same)) = Conversation-stored before in
        (d, (reliable.get-delete_other other s id apart ∙ found, same))

    -- On a reliable storage, a request that names the last response of a conversation is sent with
    -- the inputs of the conversation and what is carried of its outputs (texts and sounds of messages
    -- and calls as texts, but no refusals, reasoning, built-in tool calls or tool outputs), in their
    -- order, and then its own input, whatever other states were stored and deleted in between.
    pub resolve-Conversation :
        {s : S} {prev : String} {said : List InputItem} (input : InputParam)
        → Conversation s prev said
        → resolve_conversation_state storage s input (some prev)
          ≡ ok (said ++ extract_input_items input)
    resolve-Conversation {s} {prev} {said} input h =
        let (c, (found, same)) = Conversation-stored h in
        resolve-found s input prev c found ∙ ap (λ t. ok (t ++ extract_input_items input)) same

    -- On a reliable storage, a request that names a deleted response is refused with the message
    -- that there is no state for it.
    pub resolve-deleted :
        (s : S) (id : String) (input : InputParam)
        → resolve_conversation_state storage ((storage.delete id s).1) input (some id)
          ≡ err ("Conversation state not found for previous_response_id: " <> id)
    unfolding resolve_conversation_state retrieve_and_combine_input
    resolve-deleted s id input = rw (reliable.get-delete id s) refl
