-- ===== src/Router/Conversation/Examples.antt =====
-- The theorems about trimming and selection at concrete texts and conversations.
use plano.Prelude.{ℕ, ◌≤◌, ◌+◌, ◌≡◌, ◌⊎◌, true, List, [], ◌∷◌, refl, arith, length}
use mathlib.Core.List.{reverse}
use plano.Router.Trim.{
  trim_middle_utf8, trim_marker, back_to_boundary, on_to_boundary, head_end, tail_start,
  is_char_boundary,
}
use plano.Router.Trim.Length.{length-trim_middle_utf8}
use plano.Router.Trim.Valid.{is_utf8, is_utf8_from, is_utf8-trim_middle_utf8}
use plano.Router.Trim.Parts.{IsTrimmed, trim_middle_utf8-IsTrimmed}
use plano.Router.Conversation.{
  Message, user, assistant, system, plain, keeps, filtered, messages_vec, select, or_last,
  selected_conversation_list, overflow, extract_text,
}
use plano.Router.Conversation.Budget.{total_tokens, tokens-selected}

trimming : Unit {0}
unfolding trim_middle_utf8 back_to_boundary on_to_boundary head_end tail_start is_char_boundary
trimming = tt

-- "ééééé": five characters of two bytes each.
abbrev accents : List ℕ
accents = 0xc3 ∷ 0xa9 ∷ 0xc3 ∷ 0xa9 ∷ 0xc3 ∷ 0xa9 ∷ 0xc3 ∷ 0xa9 ∷ 0xc3 ∷ 0xa9 ∷ []

-- Eight bytes leave five for the text: one character in front, and one behind.
trimmed_accents : trim_middle_utf8 accents 8 ≡ 0xc3 ∷ 0xa9 ∷ 0xe2 ∷ 0x80 ∷ 0xa6 ∷ 0xc3 ∷ 0xa9 ∷ []
unfolding trimming
trimmed_accents = refl

length-trim_middle_utf8_example : length (trim_middle_utf8 accents 8) ≤ 8
length-trim_middle_utf8_example = length-trim_middle_utf8 accents 8

is_utf8-trim_middle_utf8_example : is_utf8 (trim_middle_utf8 accents 8) ≡ true
unfolding is_utf8_from
is_utf8-trim_middle_utf8_example = is_utf8-trim_middle_utf8 accents 8 refl

trim_middle_utf8-IsTrimmed_example : IsTrimmed accents 8 (trim_middle_utf8 accents 8)
trim_middle_utf8-IsTrimmed_example = trim_middle_utf8-IsTrimmed accents 8

-- A system message, an answer, and a question longer than the budget.
abbrev chat : List Message
chat =
    plain system (b'a' ∷ [])
    ∷ plain assistant (b'b' ∷ b'c' ∷ b'd' ∷ b'e' ∷ [])
    ∷ plain user accents
    ∷ []

selection : Unit {0}
unfolding trimming messages_vec filtered keeps select or_last selected_conversation_list overflow
    extract_text total_tokens
selection = tt

-- One token is left for the question, and four bytes hold the marker and no character.
selected_chat : selected_conversation_list 3 4 chat ≡ plain user trim_marker ∷ []
unfolding selection
selected_chat = refl

tokens-selected_example :
    (3 + total_tokens (selected_conversation_list 3 4 chat) ≤ 4)
    ⊎ ((select 4 3 (reverse (messages_vec chat)) ≡ [])
        × (length (selected_conversation_list 3 4 chat) ≡ 1))
tokens-selected_example = tokens-selected 3 4 chat (omega arith)
