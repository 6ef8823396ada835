-- ===== src/Router/Conversation.antt =====
-- The conversation that the routing prompt shows: `generate_request` of
-- router/orchestrator_model_v1.rs up to the prompt's text, and `extract_text` of apis/openai.rs.
-- Texts are their UTF-8 bytes.
pub mod Budget
pub mod Window
mod Examples
use mathlib.Core.List.{reverse}
use plano.Prelude.{
  ℕ, ◌+◌, ◌-◌, ◌*◌, ◌/◌, ltb, Bool, true, false, not, ◌&&◌, Option, none, some, List, [], ◌∷◌, ◌++◌,
  drop, length, null, String, if◌then◌else◌,
}
use plano.Router.Trim.{trim_middle_utf8}

pub data Role : Type 0 where
  system user assistant tool developer : Role

pub data ContentPart : Type 0 where
  text_part : List ℕ → ContentPart
  image_url : (url : String) (detail : Option String) → ContentPart

pub data MessageContent : Type 0 where
  text : List ℕ → MessageContent
  parts : List ContentPart → MessageContent

-- The tool calls are not read here, and are kept as their JSON texts.
pub record Message : Type 0 where
  pub role : Role
  pub content : Option MessageContent
  pub name : Option String
  pub tool_calls : Option (List String)
  pub tool_call_id : Option String

-- `filter_map(…).collect().join("\n")`
unfoldable pub texts : List ContentPart → List (List ℕ)
texts [] = []
texts (text_part t ∷ ps) = t ∷ texts ps
texts (image_url u d ∷ ps) = texts ps

unfoldable pub join_lines : List (List ℕ) → List ℕ
join_lines [] = []
join_lines (t ∷ []) = t
join_lines (t ∷ u ∷ ts) = t ++ (b'\n' ∷ join_lines (u ∷ ts))

unfoldable pub extract_text : Option MessageContent → List ℕ
unfolding texts join_lines
extract_text none = []
extract_text (some (text t)) = t
extract_text (some (parts ps)) = join_lines (texts ps)

abbrev pub max_routing_turns : ℕ
max_routing_turns = 16

abbrev pub token_length_divisor : ℕ
token_length_divisor = 4

-- The roles that the router does not look at.
abbrev pub is_routed : Role → Bool
is_routed system = false
is_routed developer = false
is_routed tool = false
is_routed _ = true

abbrev pub is_user : Role → Bool
is_user user = true
is_user _ = false

unfoldable pub keeps : Message → Bool
keeps m = is_routed m.role && not (null (extract_text m.content))

unfoldable pub filtered : List Message → List Message
filtered [] = []
filtered (m ∷ ms) = if keeps m then m ∷ filtered ms else filtered ms

-- `&filtered[filtered.len().saturating_sub(MAX_ROUTING_TURNS)..]`
unfoldable pub messages_vec : List Message → List Message
messages_vec messages = let fs = filtered messages in drop (length fs - max_routing_turns) fs

-- The message that the prompt shows for a text.
abbrev pub plain : Role → List ℕ → Message
plain r t = record {
  role = r;
  content = some (text t);
  name = none;
  tool_calls = none;
  tool_call_id = none;
}

abbrev pub tokens : List ℕ → ℕ
tokens t = length t / token_length_divisor

-- The message that does not fit any more.
unfoldable pub overflow : ℕ → Message → List Message
overflow remaining_tokens m =
    if is_user m.role && ltb 0 remaining_tokens
    then plain user
        (trim_middle_utf8 (extract_text m.content) (remaining_tokens * token_length_divisor))
      ∷ []
    else []

-- The loop over the messages, the latest first.
unfoldable pub select : ℕ → ℕ → List Message → List Message
select max_token_length token_count [] = []
select max_token_length token_count (m ∷ ms) =
    let message_text = extract_text m.content in
    let rest = select max_token_length (token_count + tokens message_text) ms in
    if ltb max_token_length (token_count + tokens message_text)
    then overflow (max_token_length - token_count) m
    else plain m.role message_text ∷ rest

-- `messages_vec.last()`, given the latest message first.
unfoldable pub or_last : List Message → List Message → List Message
or_last [] [] = []
or_last [] (m ∷ latest_first) = plain m.role (extract_text m.content) ∷ []
or_last (m ∷ ms) latest_first = m ∷ ms

-- `prompt_tokens` is the token estimate of the system prompt. The products and sums of the source
-- saturate or are those of `usize`, which no text in memory reaches.
unfoldable pub selected_conversation_list : ℕ → ℕ → List Message → List Message
selected_conversation_list prompt_tokens max_token_length messages =
    let latest_first = reverse (messages_vec messages) in
    reverse (or_last (select max_token_length prompt_tokens latest_first) latest_first)
