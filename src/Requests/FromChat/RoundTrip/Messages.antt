-- ===== src/Requests/FromChat/RoundTrip/Messages.antt =====
-- A message of the Messages API, as chat messages and back.
use plano.Prelude.{
  Bool, true, false, none, some, List, [], ◌∷◌, ◌++◌, map, String, is_empty, ◌≡◌, refl, ap, ◌∙◌,
}
use plano.State.{Result, ok}
use plano.Streaming.Chat.{Role}
use plano.Streaming.Sse.{
  MessagesRole, MessagesContentBlock, ResultBlock, ToolResultContent, text, image_block,
  tool_result_block,
}
use plano.Streaming.Transforms.{TransformError}
use plano.Completions.{ToolCall}
use plano.Completions.Transforms.{join_parts, if_any, call_blocks, calls_of, all_calls, behind}
use plano.Completions.RoundTrip.{AreCalls, no_calls, a_call, call_blocks-all_calls}
use plano.Requests.{ContentPart, MessageContent, Message, plain_message, extract_text, content_text}
use plano.Requests.Messages.{MessagesMessage, MessagesMessageContent, result_text, result_texts}
use plano.Requests.FromMessages.{
  Split, split_for_openai, build_openai_content, main_message, split_messages, openai_role,
  openai_messages_of,
}
use plano.Requests.FromChat.{
  part_block, content_blocks, build_anthropic_content, with_messages_role,
  convert_openai_message_to_anthropic_content, of_role, messages_message_of,
}
use plano.Requests.FromChat.ToConverse.{system_role}
use plano.Requests.FromChat.RoundTrip.Images.{IsSource, auto_url, convert_image_url-auto_url}

-- Texts and images, with the parts that they become.
pub data AreParts : List MessagesContentBlock → List ContentPart → Type 0 where
  no_parts : AreParts [] []
  a_text :
      {blocks : List MessagesContentBlock} {ps : List ContentPart} (t : String)
      → AreParts blocks ps
      → AreParts (text t ∷ blocks) (ContentPart.text t ∷ ps)
  an_image :
      {blocks : List MessagesContentBlock} {ps : List ContentPart} {source : _}
      → IsSource source
      → AreParts blocks ps
      → AreParts (image_block source ∷ blocks) (ContentPart.image_url (auto_url source) ∷ ps)

-- Nothing, or a lone text, has another form in the Messages API.
abbrev pub has_one_form : List ContentPart → List ToolCall → Bool
has_one_form [] [] = false
has_one_form (ContentPart.text t ∷ []) [] = false
has_one_form _ _ = true

-- The roles of a chat.
pub data IsSpeaker : MessagesRole → Type 0 where
  user : IsSpeaker MessagesRole.user
  assistant : IsSpeaker MessagesRole.assistant

module _ (read_value : String → Result String String) where
  -- The messages that chat completions can carry whole: a text, texts and images in front of the calls,
  -- and the text that answers one call.
  pub data IsShared : MessagesMessage → Type 0 where
    said :
        {role : MessagesRole} (t : String)
        → IsSpeaker role
        → is_empty t ≡ false
        → IsShared (record { role = role; content = MessagesMessageContent.single t })
    built :
        {role : MessagesRole} {blocks uses : List MessagesContentBlock} {ps : List ContentPart}
        → IsSpeaker role
        → AreParts blocks ps
        → AreCalls read_value uses
        → has_one_form ps (all_calls uses) ≡ true
        → IsShared
            (record { role = role; content = MessagesMessageContent.blocks (blocks ++ uses) })
    replied :
        (id t : String)
        → IsShared (record {
          role = MessagesRole.user;
          content =
              MessagesMessageContent.blocks (
                tool_result_block id none (ToolResultContent.blocks (ResultBlock.text t ∷ []))
                ∷ []);
        })

  abbrev split_of : List ContentPart → List ToolCall → Split
  split_of ps calls = record { content_parts = ps; tool_calls = calls; tool_results = [] }

  split-calls :
      {uses : List MessagesContentBlock}
      → AreCalls read_value uses
      → split_for_openai uses ≡ split_of [] (all_calls uses)
  unfolding split_for_openai all_calls
  split-calls no_calls = refl
  split-calls (a_call id name input is rest) = rw (split-calls rest) refl

  split-parts :
      {blocks uses : List MessagesContentBlock} {ps : List ContentPart}
      → AreParts blocks ps
      → AreCalls read_value uses
      → split_for_openai (blocks ++ uses) ≡ split_of ps (all_calls uses)
  unfolding split_for_openai
  split-parts no_parts calls = split-calls calls
  split-parts (a_text t rest) calls = rw (split-parts rest calls) refl
  split-parts (an_image source rest) calls = rw (split-parts rest calls) refl

  map-part_block :
      {blocks : List MessagesContentBlock} {ps : List ContentPart}
      → AreParts blocks ps
      → map part_block ps ≡ blocks
  map-part_block no_parts = refl
  map-part_block (a_text t rest) = ap (λ bs. text t ∷ bs) (map-part_block rest)
  map-part_block (an_image source rest) =
      rw (convert_image_url-auto_url source, map-part_block rest) refl

  abbrev content_of :
      List ContentPart → List ToolCall → Result TransformError (List MessagesContentBlock)
  content_of ps calls =
      behind read_value (content_blocks (build_openai_content ps calls))
        (call_blocks read_value (calls_of read_value (if_any calls)))

  content_of_lem :
      (ps : List ContentPart) (calls : List ToolCall) {uses : List MessagesContentBlock}
      → call_blocks read_value calls ≡ ok uses
      → has_one_form ps calls ≡ true
      → content_of ps calls ≡ ok (map part_block ps ++ uses)
  unfolding build_openai_content
  content_of_lem [] [] made one_form = cc
  content_of_lem [] (call ∷ calls) made one_form = rw made refl
  content_of_lem (ContentPart.text t ∷ []) [] made one_form = cc
  content_of_lem (ContentPart.image_url image ∷ []) [] made one_form = rw made refl
  content_of_lem (part ∷ []) (call ∷ calls) made one_form = rw made refl
  content_of_lem (part ∷ q ∷ ps) [] made one_form = rw made refl
  content_of_lem (part ∷ q ∷ ps) (call ∷ calls) made one_form = rw made refl

  build_anthropic-blocks :
      {blocks uses : List MessagesContentBlock} {ps : List ContentPart}
      → AreParts blocks ps
      → AreCalls read_value uses
      → has_one_form ps (all_calls uses) ≡ true
      → build_anthropic_content (blocks ++ uses) ≡ MessagesMessageContent.blocks (blocks ++ uses)
  unfolding build_anthropic_content all_calls
  build_anthropic-blocks no_parts no_calls one_form = cc
  build_anthropic-blocks no_parts (a_call id name input is rest) one_form = refl
  build_anthropic-blocks (a_text t no_parts) no_calls one_form = cc
  build_anthropic-blocks (a_text t no_parts) (a_call id name input is rest) one_form = refl
  build_anthropic-blocks (a_text t (a_text u rest)) calls one_form = refl
  build_anthropic-blocks (a_text t (an_image source rest)) calls one_form = refl
  build_anthropic-blocks (an_image source rest) calls one_form = refl

  -- The lone message that parts and calls make, as a message of the Messages API.
  abbrev main_of : MessagesRole → List ContentPart → List ToolCall → Message
  main_of role ps calls =
      plain_message (openai_role role) (build_openai_content ps calls) (if_any calls) none

  main_message_lem :
      (role : MessagesRole) (ps : List ContentPart) (calls : List ToolCall)
      → has_one_form ps calls ≡ true
      → main_message role ps calls ≡ main_of role ps calls ∷ []
  main_message_lem role [] [] one_form = cc
  main_message_lem role [] (call ∷ calls) one_form = refl
  main_message_lem role (part ∷ ps) [] one_form = refl
  main_message_lem role (part ∷ ps) (call ∷ calls) one_form = refl

  -- A chat message of a speaker is translated by its content.
  speaker-message :
      {role : MessagesRole} (m : Message)
      → IsSpeaker role
      → m.role ≡ openai_role role
      → messages_message_of read_value m
        ≡ with_messages_role role (convert_openai_message_to_anthropic_content read_value m)
  unfolding messages_message_of
  speaker-message m user is_user = ap (λ r. of_role read_value r m) is_user
  speaker-message m assistant is_assistant = ap (λ r. of_role read_value r m) is_assistant

  system_role-speaker :
      {role : MessagesRole} → IsSpeaker role → system_role (openai_role role) ≡ false
  system_role-speaker user = refl
  system_role-speaker assistant = refl

  main_of-message :
      {role : MessagesRole} {blocks uses : List MessagesContentBlock} {ps : List ContentPart}
      → IsSpeaker role
      → AreParts blocks ps
      → AreCalls read_value uses
      → has_one_form ps (all_calls uses) ≡ true
      → messages_message_of read_value (main_of role ps (all_calls uses))
        ≡ ok (record { role = role; content = MessagesMessageContent.blocks (blocks ++ uses) })
  unfolding convert_openai_message_to_anthropic_content
  main_of-message {role} {blocks} {uses} {ps} speaker parts calls one_form =
      speaker-message (main_of role ps (all_calls uses)) speaker refl
      ∙ ap (with_messages_role role) (
          content_of_lem ps (all_calls uses) (call_blocks-all_calls read_value calls) one_form
          ∙ ap (λ bs. ok (bs ++ uses)) (map-part_block parts))
      ∙ ap (λ c. ok (record { role = role; content = c }))
          (build_anthropic-blocks parts calls one_form)

  -- The one chat message that a message becomes, and what it is translated to.
  pub record Single (message : MessagesMessage) : Type 0 where
    pub sent : Message
    pub is_all : openai_messages_of message ≡ sent ∷ []
    pub is_said : system_role sent.role ≡ false
    pub comes_back : messages_message_of read_value sent ≡ ok message

  pub IsShared-Single : {message : MessagesMessage} → IsShared message → Single message
  IsShared-Single (said {role} t speaker some_text) = record {
    sent = plain_message (openai_role role) (some (MessageContent.text t)) none none;
    is_all = unfold openai_messages_of in refl;
    is_said = system_role-speaker speaker;
    comes_back =
        speaker-message (plain_message (openai_role role) (some (MessageContent.text t)) none none)
          speaker refl
        ∙ unfold convert_openai_message_to_anthropic_content build_anthropic_content call_blocks in
          rw some_text refl;
  }
  IsShared-Single (built {role} {blocks} {uses} {ps} speaker parts calls one_form) = record {
    sent = main_of role ps (all_calls uses);
    is_all =
        unfold openai_messages_of in
        ap (split_messages role) (split-parts parts calls)
        ∙ main_message_lem role ps (all_calls uses) one_form;
    is_said = system_role-speaker speaker;
    comes_back = main_of-message speaker parts calls one_form;
  }
  IsShared-Single (replied id t) = record {
    sent = plain_message Role.tool (some (MessageContent.text t)) none (some id);
    is_all = unfold openai_messages_of split_for_openai result_text result_texts join_parts in refl;
    is_said = refl;
    comes_back = unfold messages_message_of extract_text content_text in refl;
  }
