-- ===== src/Requests/FromResponses/Told.antt =====
-- What the input of a Responses request says, against what its chat messages say.
use mathlib.Core.Option
use mathlib.Core.List.{reverse, reverse-cons}
use plano.Prelude.{
  Option, none, some, List, [], ◌∷◌, ◌++◌, map, map-append, append_assoc, append-nil, String, ◌≡◌,
  refl, sym, ap, ◌∙◌,
}
use plano.State
use plano.State.{InputItem, InputParam, InputContent, MessageRole}
use plano.Streaming.Chat.{Role}
use plano.Completions.{ToolCall}
use plano.Completions.Transforms.{function_call}
use plano.Requests.{ContentPart, MessageContent, Message}
use plano.Requests.ResponsesTools.{Json}
use plano.Requests.FromResponses.{
  openai_role, content_parts, openai_content, more_calls, call_message, attach_to, attach,
  instruction_messages, output_text, add_item, add_items, input_messages,
}

-- A piece of a content: a text, or a picture at a URL.
pub data Piece : Type 0 where
  words picture : String → Piece

-- A turn of a conversation: a content under a role, the answer to a call, or a call with its
-- identifier, name and arguments.
pub data Turn : Type 0 where
  spoken : Role → List Piece → Turn
  answered : String → List Piece → Turn
  called : String → String → String → Turn

abbrev pub part_piece : ContentPart → Piece
part_piece (ContentPart.text t) = words t
part_piece (ContentPart.image_url image) = picture image.url

abbrev pub pieces : MessageContent → List Piece
pieces (MessageContent.text t) = words t ∷ []
pieces (MessageContent.parts ps) = map part_piece ps

abbrev pub content_turns : Role → Option MessageContent → Option String → List Turn
content_turns role none id = []
content_turns role (some content) none = spoken role (pieces content) ∷ []
content_turns role (some content) (some id) = answered id (pieces content) ∷ []

abbrev pub call_turn : ToolCall → Turn
call_turn call = called call.id call.function.name call.function.arguments

abbrev pub call_turns : Option (List ToolCall) → List Turn
call_turns none = []
call_turns (some calls) = map call_turn calls

-- A message says its content and then makes its calls.
abbrev pub message_turns : Message → List Turn
message_turns m = content_turns m.role m.content m.tool_call_id ++ call_turns m.tool_calls

unfoldable pub turns : List Message → List Turn
turns [] = []
turns (m ∷ ms) = message_turns m ++ turns ms

abbrev pub role_of : MessageRole → Role
role_of MessageRole.user = Role.user
role_of MessageRole.assistant = Role.assistant
role_of MessageRole.system = Role.system
role_of MessageRole.developer = Role.developer
role_of MessageRole.tool = Role.tool

-- A file or a sound says nothing, and of an image only where it is.
abbrev pub input_piece : InputContent → List Piece
input_piece (InputContent.input_text t) = words t ∷ []
input_piece (InputContent.input_image url detail) = picture url ∷ []
input_piece _ = []

abbrev pub input_pieces : List InputContent → List Piece
input_pieces [] = []
input_pieces (c ∷ cs) = input_piece c ++ input_pieces cs

abbrev pub message_pieces : State.MessageContent → List Piece
message_pieces (State.MessageContent.text t) = words t ∷ []
message_pieces (State.MessageContent.items cs) = input_pieces cs

module _ (json : Json) where
  -- The answer to a call: the string that the output is, or the output as it is printed.
  abbrev pub answer_words : String → List Piece
  answer_words output = words (Option.get_or (json.read_string output) output) ∷ []

  -- What an item of the input says; a reference says nothing.
  abbrev pub item_turns : InputItem → List Turn
  item_turns (InputItem.message m) = spoken (role_of m.role) (message_pieces m.content) ∷ []
  item_turns (InputItem.item_reference item_type id) = []
  item_turns (InputItem.function_call item_type name arguments call_id) =
      called call_id name arguments ∷ []
  item_turns (InputItem.function_call_output item_type call_id output) =
      answered call_id (answer_words output) ∷ []

  unfoldable pub items_turns : List InputItem → List Turn
  items_turns [] = []
  items_turns (item ∷ items) = item_turns item ++ items_turns items

  abbrev pub input_turns : InputParam → List Turn
  input_turns (InputParam.text t) = spoken Role.user (words t ∷ []) ∷ []
  input_turns (InputParam.items items) = items_turns items
  input_turns (InputParam.single_item item) = item_turns item

abbrev pub instruction_turns : Option String → List Turn
instruction_turns none = []
instruction_turns (some t) = spoken Role.system (words t ∷ []) ∷ []

openai_role_lem : (role : MessageRole) → openai_role role ≡ role_of role
openai_role_lem MessageRole.user = refl
openai_role_lem MessageRole.assistant = refl
openai_role_lem MessageRole.system = refl
openai_role_lem MessageRole.developer = refl
openai_role_lem MessageRole.tool = refl

content_parts_lem : (cs : List InputContent) → map part_piece (content_parts cs) ≡ input_pieces cs
unfolding content_parts
content_parts_lem [] = refl
content_parts_lem (InputContent.input_text t ∷ cs) = ap (λ l. words t ∷ l) (content_parts_lem cs)
content_parts_lem (InputContent.input_image url detail ∷ cs) =
    ap (λ l. picture url ∷ l) (content_parts_lem cs)
content_parts_lem (_ ∷ cs) = content_parts_lem cs

openai_content_lem :
    (content : State.MessageContent) → pieces (openai_content content) ≡ message_pieces content
openai_content_lem (State.MessageContent.text t) = refl
openai_content_lem (State.MessageContent.items []) = content_parts_lem []
openai_content_lem (State.MessageContent.items (InputContent.input_text t ∷ [])) = refl
openai_content_lem (State.MessageContent.items (InputContent.input_text t ∷ c ∷ cs)) =
    content_parts_lem (InputContent.input_text t ∷ c ∷ cs)
openai_content_lem (State.MessageContent.items (InputContent.input_image url detail ∷ cs)) =
    content_parts_lem (InputContent.input_image url detail ∷ cs)
openai_content_lem (State.MessageContent.items (InputContent.input_file f ∷ cs)) =
    content_parts_lem (InputContent.input_file f ∷ cs)
openai_content_lem (State.MessageContent.items (InputContent.input_audio d u ∷ cs)) =
    content_parts_lem (InputContent.input_audio d u ∷ cs)

turns-append : (xs ys : List Message) → turns (xs ++ ys) ≡ turns xs ++ turns ys
unfolding turns
turns-append [] ys = refl
turns-append (m ∷ xs) ys =
    ap (λ t. message_turns m ++ t) (turns-append xs ys)
    ∙ sym (append_assoc (message_turns m) (turns xs) (turns ys))

turns-reverse :
    (m : Message) (ms : List Message)
    → turns (reverse (m ∷ ms)) ≡ turns (reverse ms) ++ message_turns m
unfolding turns
turns-reverse m ms =
    ap turns (reverse-cons m ms)
    ∙ turns-append (reverse ms) (m ∷ [])
    ∙ ap (λ t. turns (reverse ms) ++ t) (append-nil (message_turns m))

call_turns-more :
    (call : ToolCall) (calls : Option (List ToolCall))
    → call_turns (some (more_calls call calls)) ≡ call_turns calls ++ call_turn call ∷ []
call_turns-more call none = refl
call_turns-more call (some calls) = map-append call_turn calls (call ∷ [])

-- A call is the last turn, whether it joins a message or makes one.
turns-joined :
    (call : ToolCall) (last : Message) (before : List Message)
    → turns (reverse (record last { tool_calls = some (more_calls call last.tool_calls) } ∷ before))
      ≡ turns (reverse (last ∷ before)) ++ call_turn call ∷ []
turns-joined call last before =
    turns-reverse (record last { tool_calls = some (more_calls call last.tool_calls) }) before
    ∙ ap
        (λ t.
          turns (reverse before) ++ (content_turns last.role last.content last.tool_call_id ++ t))
        (call_turns-more call last.tool_calls)
    ∙ ap (λ t. turns (reverse before) ++ t)
        (sym (
          append_assoc (content_turns last.role last.content last.tool_call_id)
            (call_turns last.tool_calls) (call_turn call ∷ [])))
    ∙ sym (append_assoc (turns (reverse before)) (message_turns last) (call_turn call ∷ []))
    ∙ ap (λ t. t ++ call_turn call ∷ []) (sym (turns-reverse last before))

turns-attach_to :
    (role : Role) (call : ToolCall) (last : Message) (before : List Message)
    → turns (reverse (attach_to role call last before))
      ≡ turns (reverse (last ∷ before)) ++ call_turn call ∷ []
turns-attach_to Role.assistant call last before = turns-joined call last before
turns-attach_to Role.system call last before = turns-reverse (call_message call) (last ∷ before)
turns-attach_to Role.user call last before = turns-reverse (call_message call) (last ∷ before)
turns-attach_to Role.tool call last before = turns-reverse (call_message call) (last ∷ before)
turns-attach_to Role.developer call last before = turns-reverse (call_message call) (last ∷ before)

turns-attach :
    (call : ToolCall) (before : List Message)
    → turns (reverse (attach call before)) ≡ turns (reverse before) ++ call_turn call ∷ []
turns-attach call [] = turns-reverse (call_message call) []
turns-attach call (last ∷ before) = turns-attach_to last.role call last before

module _ (json : Json) where
  output_text_lem :
      (output : String) → output_text json output ≡ Option.get_or (json.read_string output) output
  output_text_lem output = read_or_printed (json.read_string output)
    where
      read_or_printed :
          (o : Option String) → (elim o [ none ↦ output | some s ↦ s ]) ≡ Option.get_or o output
      read_or_printed none = refl
      read_or_printed (some t) = refl

  turns-add_item :
      (item : InputItem) (before : List Message)
      → turns (reverse (add_item json item before)) ≡ turns (reverse before) ++ item_turns json item
  turns-add_item (InputItem.message m) before =
      turns-reverse _ before
      ∙ ap (λ r. turns (reverse before) ++ spoken r (pieces (openai_content m.content)) ∷ [])
          (openai_role_lem m.role)
      ∙ ap (λ ps. turns (reverse before) ++ spoken (role_of m.role) ps ∷ [])
          (openai_content_lem m.content)
  turns-add_item (InputItem.item_reference item_type id) before =
      sym (append-nil (turns (reverse before)))
  turns-add_item (InputItem.function_call item_type name arguments call_id) before =
      turns-attach (function_call call_id name arguments) before
  turns-add_item (InputItem.function_call_output item_type call_id output) before =
      turns-reverse _ before
      ∙ ap (λ t. turns (reverse before) ++ answered call_id (words t ∷ []) ∷ [])
          (output_text_lem output)

  turns-add_items :
      (items : List InputItem) (before : List Message)
      → turns (reverse (add_items json items before))
        ≡ turns (reverse before) ++ items_turns json items
  unfolding add_items items_turns
  turns-add_items [] before = sym (append-nil (turns (reverse before)))
  turns-add_items (item ∷ items) before =
      turns-add_items items (add_item json item before)
      ∙ ap (λ t. t ++ items_turns json items) (turns-add_item item before)
      ∙ append_assoc (turns (reverse before)) (item_turns json item) (items_turns json items)

  turns-instructions :
      (instructions : Option String)
      → turns (instruction_messages instructions) ≡ instruction_turns instructions
  unfolding turns
  turns-instructions none = refl
  turns-instructions (some t) = refl

  turns-reverse_instructions :
      (instructions : Option String)
      → turns (reverse (instruction_messages instructions)) ≡ instruction_turns instructions
  unfolding turns
  turns-reverse_instructions none = refl
  turns-reverse_instructions (some t) = refl

  -- The chat messages of a Responses request say what its instructions and its input say: the texts
  -- and the places of the images of every message under its role, every call with its identifier,
  -- name and arguments, and every answer to a call, in their order. Files, sounds and the detail of
  -- an image are not said.
  pub turns-input_messages :
      (input : InputParam) (instructions : Option String)
      → turns (input_messages json input instructions)
        ≡ instruction_turns instructions ++ input_turns json input
  unfolding input_messages turns items_turns
  turns-input_messages (InputParam.text t) instructions =
      turns-append (instruction_messages instructions) _
      ∙ ap (λ x. x ++ spoken Role.user (words t ∷ []) ∷ []) (turns-instructions instructions)
  turns-input_messages (InputParam.items items) instructions =
      turns-add_items items (instruction_messages instructions)
      ∙ ap (λ t. t ++ items_turns json items) (turns-reverse_instructions instructions)
  turns-input_messages (InputParam.single_item item) instructions =
      turns-add_items (item ∷ []) (instruction_messages instructions)
      ∙ ap (λ t. t ++ items_turns json (item ∷ [])) (turns-reverse_instructions instructions)
      ∙ ap (λ t. instruction_turns instructions ++ t) (append-nil (item_turns json item))
