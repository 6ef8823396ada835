-- ===== src/State.antt =====
-- The conversations of the Responses API: state/mod.rs, the items of apis/openai_responses.rs, and
-- what handlers/llm/mod.rs does with a previous response. JSON values stand as their texts.
pub mod Outputs
pub mod Memory
pub mod History
mod Examples
use plano.Prelude.{
  ℕ, Bool, true, false, Option, none, some, List, [], ◌∷◌, ◌++◌, String, ◌≡◌, str_eq, ◌<>◌,
}

pub data Result (E A : Type 0) : Type 0 where
  ok : A → Result E A
  err : E → Result E A

pub data MessageRole : Type 0 where
  user : MessageRole
  assistant : MessageRole
  system : MessageRole
  developer : MessageRole
  tool : MessageRole

pub data InputContent : Type 0 where
  input_text : String → InputContent
  input_image : String → Option String → InputContent
  input_file : String → InputContent
  input_audio : Option String → Option String → InputContent

pub data MessageContent : Type 0 where
  text : String → MessageContent
  items : List InputContent → MessageContent

pub record InputMessage : Type 0 where
  pub role : MessageRole
  pub content : MessageContent

pub data InputItem : Type 0 where
  message : InputMessage → InputItem
  item_reference : (item_type id : String) → InputItem
  function_call : (item_type name arguments call_id : String) → InputItem
  function_call_output : (item_type call_id output : String) → InputItem

pub data InputParam : Type 0 where
  text : String → InputParam
  items : List InputItem → InputParam
  single_item : InputItem → InputParam

pub record OpenAiConversationState : Type 0 where
  pub response_id : String
  pub input_items : List InputItem
  pub created_at : ℕ
  pub model : String
  pub provider : String

pub data StateStorageError : Type 0 where
  not_found : String → StateStorageError
  storage_error : String → StateStorageError
  serialization_error : String → StateStorageError

-- The trait `StateStorage` over a store; what changes the store returns it.
pub record StateStorage (S : Type 0) : Type 0 where
  pub put : OpenAiConversationState → S → Result StateStorageError Unit × S
  pub get : String → S → Result StateStorageError OpenAiConversationState
  pub exists : String → S → Result StateStorageError Bool
  pub delete : String → S → Result StateStorageError Unit × S

abbrev pub is_ok : {E A : Type 0} → Result E A → Bool
is_ok (ok a) = true
is_ok (err e) = false

-- What its clients rely on.
pub record IsReliable {S : Type 0} (storage : StateStorage S) : Type 0 where
  pub put-ok : (c : OpenAiConversationState) (s : S) → (storage.put c s).0 ≡ ok tt
  pub get-put :
      (c : OpenAiConversationState) (s : S) → storage.get c.response_id ((storage.put c s).1) ≡ ok c
  pub get-put_other :
      (c : OpenAiConversationState) (s : S) (id : String)
      → str_eq c.response_id id ≡ false
      → storage.get id ((storage.put c s).1) ≡ storage.get id s
  pub exists-get : (id : String) (s : S) → storage.exists id s ≡ ok (is_ok (storage.get id s))
  pub delete-get :
      (id : String) (s : S) → is_ok ((storage.delete id s).0) ≡ is_ok (storage.get id s)
  pub get-delete :
      (id : String) (s : S) → storage.get id ((storage.delete id s).1) ≡ err (not_found id)
  pub get-delete_other :
      (id : String) (s : S) (other : String)
      → str_eq id other ≡ false
      → storage.get other ((storage.delete id s).1) ≡ storage.get other s

-- The default of the trait, which no store overrides.
unfoldable pub merge : OpenAiConversationState → List InputItem → List InputItem
merge prev_state current_input = prev_state.input_items ++ current_input

unfoldable pub extract_input_items : InputParam → List InputItem
extract_input_items (InputParam.text t) =
    message (record { role = user; content = MessageContent.items (input_text t ∷ []) }) ∷ []
extract_input_items (single_item item) = item ∷ []
extract_input_items (InputParam.items is) = is

abbrev pub merge_found :
    Result StateStorageError OpenAiConversationState
    → List InputItem
    → Result StateStorageError (List InputItem)
merge_found (ok prev_state) current_input = ok (merge prev_state current_input)
merge_found (err e) current_input = err e

module _ {S : Type 0} (storage : StateStorage S) where
  unfoldable pub retrieve_and_combine_input :
      S → String → List InputItem → Result StateStorageError (List InputItem)
  retrieve_and_combine_input s previous_response_id current_input =
      merge_found (storage.get previous_response_id s) current_input

  -- The match on the outcome: the items to send, or the text of a response with status 409.
  abbrev pub with_history :
      InputParam
      → String
      → Result StateStorageError (List InputItem)
      → Result String (List InputItem)
  with_history input id (ok combined_input) = ok combined_input
  with_history input id (err (not_found n)) =
      err ("Conversation state not found for previous_response_id: " <> id)
  with_history input id (err e) = ok (extract_input_items input)

  -- The items that a request whose state is managed is sent with.
  unfoldable pub resolve_conversation_state :
      S → InputParam → Option String → Result String (List InputItem)
  resolve_conversation_state s input none = ok (extract_input_items input)
  resolve_conversation_state s input (some prev_resp_id) =
      with_history input prev_resp_id
        (retrieve_and_combine_input s prev_resp_id (extract_input_items input))
