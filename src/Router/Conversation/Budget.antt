-- ===== src/Router/Conversation/Budget.antt =====
-- The selected conversation keeps to the token budget and to the number of turns.
use mathlib.Core.List.{reverse, reverse-cons}
use plano.Prelude.{
  ℕ, ◌+◌, ◌-◌, ◌*◌, ◌≤◌, List, [], ◌∷◌, ◌++◌, ◌≡◌, ◌⊎◌, inl, inr, refl, arith, drop, length,
  length-drop, length-reverse, ◌∙◌,
}
use plano.Router.Trim.Length.{length-trim_middle_utf8}
use plano.Router.Conversation.{
  Message, extract_text, tokens, filtered, messages_vec, max_routing_turns, overflow, select,
  or_last, selected_conversation_list,
}

-- The token estimate of a conversation.
unfoldable pub total_tokens : List Message → ℕ
total_tokens [] = 0
total_tokens (m ∷ ms) = tokens (extract_text m.content) + total_tokens ms

overflow-tokens : (remaining : ℕ) (m : Message) → total_tokens (overflow remaining m) ≤ remaining
unfolding overflow total_tokens extract_text
overflow-tokens remaining m =
    ground (arith, length-trim_middle_utf8 (extract_text m.content) (remaining * 4))

-- What the loop selects fits what the count leaves.
select-tokens :
    (max count : ℕ) (ms : List Message)
    → count ≤ max
    → count + total_tokens (select max count ms) ≤ max
unfolding select total_tokens extract_text
select-tokens max count [] h = omega arith
select-tokens max count (m ∷ ms) h = ground (
  arith,
  overflow-tokens (max - count) m,
  select-tokens max (count + tokens (extract_text m.content)) ms,
)

total_tokens-append :
    (ms ns : List Message) → total_tokens (ms ++ ns) ≡ total_tokens ms + total_tokens ns
unfolding total_tokens
total_tokens-append [] ns = omega arith
total_tokens-append (m ∷ ms) ns = omega (arith, total_tokens-append ms ns)

total_tokens-reverse : (ms : List Message) → total_tokens (reverse ms) ≡ total_tokens ms
unfolding total_tokens
total_tokens-reverse [] = refl
total_tokens-reverse (m ∷ ms) =
    rw (reverse-cons, total_tokens-append) (omega (arith, total_tokens-reverse ms))

-- The fallback is used where nothing was selected.
or_last-cases :
    (selected latest_first : List Message)
    → (or_last selected latest_first ≡ selected)
      ⊎ ((selected ≡ []) × (length (or_last selected latest_first) ≡ 1))
unfolding or_last
or_last-cases [] [] = inl refl
or_last-cases [] (m ∷ ms) = inr (refl, refl)
or_last-cases (m ∷ ms) latest_first = inl refl

-- If the system prompt leaves room in the budget, then the system prompt and the selected
-- conversation are within the budget by the code's own estimate, or nothing fitted and the
-- conversation is one message.
pub tokens-selected :
    (prompt_tokens max_token_length : ℕ) (messages : List Message)
    → prompt_tokens ≤ max_token_length
    → (prompt_tokens
          + total_tokens (selected_conversation_list prompt_tokens max_token_length messages)
        ≤ max_token_length)
      ⊎ ((select max_token_length prompt_tokens (reverse (messages_vec messages)) ≡ [])
          × (length (selected_conversation_list prompt_tokens max_token_length messages) ≡ 1))
unfolding selected_conversation_list
tokens-selected prompt_tokens max messages h =
    let latest_first = reverse (messages_vec messages) in
    let selected = select max prompt_tokens latest_first in
    elim (or_last-cases selected latest_first) [
      | inl same ↦
          inl (rw (same, total_tokens-reverse) (select-tokens max prompt_tokens latest_first h))
      | inr (nothing, one) ↦ inr (nothing, length-reverse (or_last selected latest_first) ∙ one)
    ]

length-select : (max count : ℕ) (ms : List Message) → length (select max count ms) ≤ length ms
unfolding select overflow
length-select max count [] = omega arith
length-select max count (m ∷ ms) =
    ground (arith, length-select max (count + tokens (extract_text m.content)) ms)

length-or_last :
    (selected latest_first : List Message)
    → length selected ≤ length latest_first
    → length (or_last selected latest_first) ≤ length latest_first
unfolding or_last
length-or_last [] [] h = omega arith
length-or_last [] (m ∷ ms) h = omega arith
length-or_last (m ∷ ms) latest_first h = h

-- The conversation in the prompt has at most sixteen messages.
pub length-selected :
    (prompt_tokens max_token_length : ℕ) (messages : List Message)
    → length (selected_conversation_list prompt_tokens max_token_length messages)
      ≤ max_routing_turns
unfolding selected_conversation_list messages_vec
length-selected prompt_tokens max messages =
    let window = drop (length (filtered messages) - 16) (filtered messages) in
    omega (
      arith,
      length-reverse (or_last (select max prompt_tokens (reverse window)) (reverse window)),
      length-or_last (select max prompt_tokens (reverse window)) (reverse window)
          (length-select max prompt_tokens (reverse window)),
      length-reverse window,
      length-drop (length (filtered messages) - 16) (filtered messages),
    )
