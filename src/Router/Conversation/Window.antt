-- ===== src/Router/Conversation/Window.antt =====
-- Which messages the prompt shows.
use mathlib.Core.List.{reverse, reverse-reverse}
use plano.Prelude.{ℕ, ◌+◌, ◌-◌, ◌*◌, ◌<◌, ◌≢◌, false, List, [], ◌∷◌, ◌++◌, ◌≡◌, ◌∙◌, ap, sym, map}
use plano.Router.Trim.{trim_middle_utf8}
use plano.Router.Conversation.{
  Message, user, is_user, token_length_divisor, extract_text, tokens, plain, messages_vec, select,
  or_last, selected_conversation_list,
}

-- A message as the prompt shows it whole.
abbrev pub shown : Message → Message
shown m = plain m.role (extract_text m.content)

-- The tokens of the texts of messages.
abbrev pub shown_tokens : List Message → ℕ
shown_tokens [] = 0
shown_tokens (m ∷ ms) = tokens (extract_text m.content) + shown_tokens ms

-- What is shown of a message that is over the budget: its text, trimmed to the tokens that remain,
-- if it is the user's and any remain, and else nothing.
pub data Lead (remaining : ℕ) (m : Message) : List Message → Type 0 where
  trimmed :
      m.role ≡ user
      → 0 < remaining
      → Lead remaining m (
          plain user (trim_middle_utf8 (extract_text m.content) (remaining * token_length_divisor))
          ∷ [])
  not_users : is_user m.role ≡ false → Lead remaining m []
  no_tokens : remaining ≡ 0 → Lead remaining m []

-- What is shown of messages, the latest first, where `count` tokens are taken: all of them, or those
-- in front of the first that is over the budget with what is shown of it, or, where that is nothing,
-- the latest one.
pub data IsSelected (max count : ℕ) : List Message → List Message → Type 0 where
  everything : {ms : List Message} → IsSelected max count ms (map shown ms)
  until :
      {ms lead : List Message} (kept : List Message) (m : Message) (rest : List Message)
      → ms ≡ kept ++ m ∷ rest
      → max < count + (shown_tokens kept + tokens (extract_text m.content))
      → Lead (max - (count + shown_tokens kept)) m lead
      → map shown kept ++ lead ≢ []
      → IsSelected max count ms (map shown kept ++ lead)
  last_only :
      {m : Message} {rest : List Message}
      → max < count + tokens (extract_text m.content)
      → Lead (max - count) m []
      → IsSelected max count (m ∷ rest) (shown m ∷ [])

-- The same of the loop, which may show nothing.
data Loop (max count : ℕ) (ms selected : List Message) : Type 0 where
  all_shown : selected ≡ map shown ms → Loop max count ms selected
  over :
      (kept : List Message) (m : Message) (rest lead : List Message)
      → ms ≡ kept ++ m ∷ rest
      → max < count + (shown_tokens kept + tokens (extract_text m.content))
      → Lead (max - (count + shown_tokens kept)) m lead
      → selected ≡ map shown kept ++ lead
      → Loop max count ms selected

reverse-ne_nil : (ms : List Message) → ms ≢ [] → reverse ms ≢ []
reverse-ne_nil ms h e = h (sym (reverse-reverse ms) ∙ ap reverse e)

or_last-ne_nil :
    (selected latest_first : List Message) → latest_first ≢ [] → or_last selected latest_first ≢ []
unfolding or_last
or_last-ne_nil [] [] h e = h e
or_last-ne_nil [] (m ∷ ms) h e = cc
or_last-ne_nil (m ∷ ms) latest_first h e = cc

-- Where any message is considered, the conversation in the prompt is not empty.
pub selected-ne_nil :
    (prompt_tokens max_token_length : ℕ) (messages : List Message)
    → messages_vec messages ≢ []
    → selected_conversation_list prompt_tokens max_token_length messages ≢ []
unfolding selected_conversation_list
selected-ne_nil prompt_tokens max messages some_message =
    let latest_first = reverse (messages_vec messages) in
    reverse-ne_nil (or_last (select max prompt_tokens latest_first) latest_first) (
      or_last-ne_nil (select max prompt_tokens latest_first) latest_first
        (reverse-ne_nil (messages_vec messages) some_message))
