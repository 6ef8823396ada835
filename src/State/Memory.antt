-- ===== src/State/Memory.antt =====
-- The storage in memory: state/memory.rs.
use plano.Prelude
use plano.Prelude.{
  Bool, true, false, Option, none, some, List, [], ◌∷◌, String, ◌≡◌, refl, str_eq, insert, remove,
  string_key, get-insert, get-insert_at, get-insert_other, get-remove, get-remove_other,
  Option-cases, inl, inr,
}
use plano.State.{
  Result, ok, err, OpenAiConversationState, StateStorageError, not_found, StateStorage, IsReliable,
}

abbrev pub MemoryConversationalStorage : Type 0
MemoryConversationalStorage = List (String × OpenAiConversationState)

unfoldable pub put :
    OpenAiConversationState
    → MemoryConversationalStorage
    → Result StateStorageError Unit × MemoryConversationalStorage
put state storage = (ok tt, insert storage state.response_id state)

abbrev pub found :
    String → Option OpenAiConversationState → Result StateStorageError OpenAiConversationState
found response_id (some state) = ok state
found response_id none = err (not_found response_id)

unfoldable pub get :
    String → MemoryConversationalStorage → Result StateStorageError OpenAiConversationState
get response_id storage = found response_id (Prelude.get storage response_id)

abbrev pub is_some : {A : Type 0} → Option A → Bool
is_some (some a) = true
is_some none = false

unfoldable pub exists : String → MemoryConversationalStorage → Result StateStorageError Bool
exists response_id storage = ok (is_some (Prelude.get storage response_id))

abbrev pub removed : String → Option OpenAiConversationState → Result StateStorageError Unit
removed response_id (some old) = ok tt
removed response_id none = err (not_found response_id)

unfoldable pub delete :
    String
    → MemoryConversationalStorage
    → Result StateStorageError Unit × MemoryConversationalStorage
delete response_id storage =
    (removed response_id (Prelude.get storage response_id), remove storage response_id)

unfoldable pub memory : StateStorage MemoryConversationalStorage
memory = record { put = put; get = get; exists = exists; delete = delete }

-- The storage in memory keeps the state last put under each response, and only that: a put is seen
-- under its response alone, deletion removes one response and reports a missing one, and `exists`
-- says whether there is a state.
pub memory-IsReliable : IsReliable memory
unfolding memory put get exists delete
memory-IsReliable = record {
  put-ok = λ c s. refl;
  get-put = λ c s. rw (get-insert s c.response_id c) refl;
  get-put_other = λ c s id h. rw (get-insert_other s c.response_id c id h) refl;
  exists-get =
      λ id s. elim (Option-cases (Prelude.get s id)) [ inl e ↦ rw e refl | inr (c, e) ↦ rw e refl ];
  delete-get =
      λ id s. elim (Option-cases (Prelude.get s id)) [ inl e ↦ rw e refl | inr (c, e) ↦ rw e refl ];
  get-delete = λ id s. rw (get-remove s id) refl;
  get-delete_other = λ id s other h. rw (get-remove_other s id other h) refl;
}
