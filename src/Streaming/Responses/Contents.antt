-- ===== src/Streaming/Responses/Contents.antt =====
-- What the buffer keeps of an item is what the deltas of the item said, joined.
pub mod Kept
use plano.Prelude.{
  ℕ, Bool, true, false, Option, none, some, List, [], ◌∷◌, ◌++◌, append_assoc, String, ◌<>◌, str_eq,
  ◌≡◌, refl, sym, ap, ◌∙◌, Bool-cases, inl, inr, get, insert, get-insert_at, string_key, number_key,
  if◌then◌else◌, eq_iff,
}
use plano.Streaming.ResponsesApi.{
  ResponsesApiStreamEvent, response_output_text_delta, response_function_call_arguments_delta,
}
use plano.Streaming.Responses.{ResponsesApiStreamBuffer, Work, emit, joined, accumulate}

-- One piece more behind what was heard.
abbrev pub heard_more : Option String → String → Option String
heard_more none delta = some delta
heard_more (some heard) delta = some (heard <> delta)

-- What is heard of an item's text, and of its arguments, with one event more.
abbrev pub text_heard : String → Option String → ResponsesApiStreamEvent → Option String
text_heard id heard (response_output_text_delta item_id o c delta l f n) =
    if str_eq item_id id then heard_more heard delta else heard
text_heard id heard _ = heard

abbrev pub arguments_heard : String → Option String → ResponsesApiStreamEvent → Option String
arguments_heard id heard (response_function_call_arguments_delta o item_id delta n call_id name) =
    if str_eq item_id id then heard_more heard delta else heard
arguments_heard id heard _ = heard

abbrev pub heard_from :
    (Option String → ResponsesApiStreamEvent → Option String)
    → Option String
    → List ResponsesApiStreamEvent
    → Option String
heard_from hear heard [] = heard
heard_from hear heard (e ∷ l) = heard_from hear (hear heard e) l

-- The deltas of an item in the order of the events, joined; none, if it has none.
abbrev pub text_of : String → List ResponsesApiStreamEvent → Option String
text_of id l = heard_from (text_heard id) none l

abbrev pub arguments_of : String → List ResponsesApiStreamEvent → Option String
arguments_of id l = heard_from (arguments_heard id) none l

heard_from-append :
    (hear : Option String → ResponsesApiStreamEvent → Option String) (heard : Option String)
    (l m : List ResponsesApiStreamEvent)
    → heard_from hear heard (l ++ m) ≡ heard_from hear (heard_from hear heard l) m
heard_from-append hear heard [] m = refl
heard_from-append hear heard (e ∷ l) m = heard_from-append hear (hear heard e) l m

-- One event behind the others.
heard_last :
    (hear : Option String → ResponsesApiStreamEvent → Option String)
    (before l : List ResponsesApiStreamEvent) (e : ResponsesApiStreamEvent)
    → heard_from hear none (before ++ (l ++ e ∷ [])) ≡ hear (heard_from hear none (before ++ l)) e
heard_last hear before l e =
    ap (heard_from hear none) (sym (append_assoc before l (e ∷ [])))
    ∙ heard_from-append hear none (before ++ l) (e ∷ [])

joined_lem :
    (heard : Option String) (delta : String) → some (joined heard delta) ≡ heard_more heard delta
joined_lem none delta = refl
joined_lem (some heard) delta = refl

get-accumulate :
    (content : List (String × String)) (item_id delta id : String)
    → get (accumulate content item_id delta) id
      ≡ (if str_eq item_id id then heard_more (get content id) delta else get content id)
get-accumulate content item_id delta id =
    get-insert_at content item_id (joined (get content item_id) delta) id
    ∙ elim (Bool-cases (str_eq item_id id)) [
      | inl same ↦ rw same (
          joined_lem (get content item_id) delta
          ∙ ap (λ k. heard_more (get content k) delta) ((eq_iff item_id id).0 same))
      | inr other ↦ rw other refl
    ]

-- The buffer of a work keeps what was said before it and in it.
pub record Hears (before : List ResponsesApiStreamEvent) (w : Work) : Type 0 where
  pub texts : (id : String) → get w.buffer.text_content id ≡ text_of id (before ++ w.events)
  pub calls :
      (id : String) → get w.buffer.function_arguments id ≡ arguments_of id (before ++ w.events)

-- An event that is no delta.
abbrev pub IsSilent : (ℕ → ResponsesApiStreamEvent) → Type 0
IsSilent event =
    (n : ℕ) (id : String) (heard : Option String)
    → (text_heard id heard (event n) ≡ heard) × (arguments_heard id heard (event n) ≡ heard)

module _ {before : List ResponsesApiStreamEvent} where
  pub with_buffer-Hears :
      (w : Work) (b : ResponsesApiStreamBuffer)
      → (b.text_content ≡ w.buffer.text_content)
        × (b.function_arguments ≡ w.buffer.function_arguments)
      → Hears before w
      → Hears before (record w { buffer = b })
  with_buffer-Hears w b (texts, calls) h = record {
    texts = λ id. ap (λ c. get c id) texts ∙ h.texts id;
    calls = λ id. ap (λ c. get c id) calls ∙ h.calls id;
  }

  pub emit-Hears :
      (event : ℕ → ResponsesApiStreamEvent) (w : Work)
      → IsSilent event
      → Hears before w
      → Hears before (emit event w)
  unfolding emit
  emit-Hears event w silent h =
      let n = w.buffer.sequence_number in
      record {
        texts = λ id.
            h.texts id
            ∙ sym (heard_last (text_heard id) before w.events (event n) ∙ (silent n id _).0);
        calls = λ id.
            h.calls id
            ∙ sym (heard_last (arguments_heard id) before w.events (event n) ∙ (silent n id _).1);
      }

  -- A text delta that is kept and emitted.
  pub emit_text-Hears :
      (item_id delta : String) (o c : ℕ) (l : List String) (f : Option String) (w : Work)
      → Hears before w
      → Hears before (
          emit (response_output_text_delta item_id o c delta l f) (record w {
            buffer = record w.buffer {
              text_content = accumulate w.buffer.text_content item_id delta;
            };
          }))
  unfolding emit
  emit_text-Hears item_id delta o c l f w h =
      let e = response_output_text_delta item_id o c delta l f w.buffer.sequence_number in
      record {
        texts = λ id.
            get-accumulate w.buffer.text_content item_id delta id
            ∙ ap (λ heard. text_heard id heard e) (h.texts id)
            ∙ sym (heard_last (text_heard id) before w.events e);
        calls = λ id. h.calls id ∙ sym (heard_last (arguments_heard id) before w.events e);
      }

  -- A delta of a call's arguments that is kept and emitted.
  pub emit_arguments-Hears :
      (item_id delta : String) (o : ℕ) (call_id name : Option String) (w : Work)
      → Hears before w
      → Hears before (
          emit
            (λ n. response_function_call_arguments_delta o item_id delta n call_id name)
            (record w {
              buffer = record w.buffer {
                function_arguments = accumulate w.buffer.function_arguments item_id delta;
              };
            }))
  unfolding emit
  emit_arguments-Hears item_id delta o call_id name w h =
      let e =
        response_function_call_arguments_delta o item_id delta w.buffer.sequence_number call_id
          name in
      record {
        texts = λ id. h.texts id ∙ sym (heard_last (text_heard id) before w.events e);
        calls = λ id.
            get-accumulate w.buffer.function_arguments item_id delta id
            ∙ ap (λ heard. arguments_heard id heard e) (h.calls id)
            ∙ sym (heard_last (arguments_heard id) before w.events e);
      }
