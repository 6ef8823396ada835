-- ===== src/Requests/FromChat/RoundTrip/Options.antt =====
-- The tools, the tool choice and the prompt of a request, as chat completions and back.
use mathlib.Core.Option
use plano.Prelude.{Bool, true, false, not, Option, none, some, List, [], ◌∷◌, String, ◌≡◌, refl, ap}
use plano.Requests.Messages.{
  MessagesSystemPrompt, MessagesTool, MessagesToolChoice, MessagesToolChoiceType,
}
use plano.Requests.FromMessages.{convert_anthropic_tools, convert_anthropic_tool_choice}
use plano.Requests.FromChat.{convert_openai_tools, convert_openai_tool_choice}

-- The choices that chat completions have.
pub data IsSharedChoice : MessagesToolChoice → Type 0 where
  auto :
      (disable : Option Bool)
      → IsSharedChoice (record {
        kind = MessagesToolChoiceType.auto;
        name = none;
        disable_parallel_tool_use = disable;
      })
  anything :
      (disable : Option Bool)
      → IsSharedChoice (record {
        kind = MessagesToolChoiceType.anything;
        name = none;
        disable_parallel_tool_use = disable;
      })
  never : IsSharedChoice (record {
    kind = MessagesToolChoiceType.never;
    name = none;
    disable_parallel_tool_use = none;
  })
  named :
      (name : String) (disable : Option Bool)
      → IsSharedChoice (record {
        kind = MessagesToolChoiceType.tool;
        name = some name;
        disable_parallel_tool_use = disable;
      })

pub data IsSharedOption : Option MessagesToolChoice → Type 0 where
  no_choice : IsSharedOption none
  a_choice : {choice : MessagesToolChoice} → IsSharedChoice choice → IsSharedOption (some choice)

pub data IsSharedPrompt : Option MessagesSystemPrompt → Type 0 where
  no_prompt : IsSharedPrompt none
  a_prompt : (t : String) → IsSharedPrompt (some (MessagesSystemPrompt.single t))

not-not : (disable : Option Bool) → Option.map not (Option.map not disable) ≡ disable
not-not none = refl
not-not (some true) = refl
not-not (some false) = refl

pub choice_back :
    {choice : Option MessagesToolChoice}
    → IsSharedOption choice
    → convert_openai_tool_choice
        (convert_anthropic_tool_choice choice).0
        (convert_anthropic_tool_choice choice).1
      ≡ choice
unfolding convert_openai_tool_choice convert_anthropic_tool_choice
choice_back no_choice = refl
choice_back (a_choice (auto disable)) = rw (not-not disable) refl
choice_back (a_choice (anything disable)) = rw (not-not disable) refl
choice_back (a_choice never) = refl
choice_back (a_choice (named name disable)) = rw (not-not disable) refl

tools_back :
    (tools : List MessagesTool) → convert_openai_tools (convert_anthropic_tools tools) ≡ tools
unfolding convert_openai_tools convert_anthropic_tools
tools_back [] = refl
tools_back (tool ∷ tools) = ap (λ ts. tool ∷ ts) (tools_back tools)

pub some_tools_back :
    (tools : Option (List MessagesTool))
    → Option.map convert_openai_tools (Option.map convert_anthropic_tools tools) ≡ tools
some_tools_back none = refl
some_tools_back (some tools) = ap some (tools_back tools)
