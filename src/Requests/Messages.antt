-- ===== src/Requests/Messages.antt =====
-- The request of the Messages API: apis/anthropic.rs. What the transforms do not read is kept as its
-- JSON text.
use plano.Prelude.{ℕ, Bool, Option, List, [], ◌∷◌, String}
use plano.Completions.Transforms.{join_parts}
use plano.Streaming.Sse.{MessagesRole, MessagesContentBlock, ResultBlock, ToolResultContent, text}

pub data MessagesMessageContent : Type 0 where
  single : String → MessagesMessageContent
  blocks : List MessagesContentBlock → MessagesMessageContent

pub data MessagesSystemPrompt : Type 0 where
  single : String → MessagesSystemPrompt
  blocks : List MessagesContentBlock → MessagesSystemPrompt

pub record MessagesMessage : Type 0 where
  pub role : MessagesRole
  pub content : MessagesMessageContent

pub record MessagesTool : Type 0 where
  pub name : String
  pub description : Option String
  pub input_schema : String

pub data MessagesToolChoiceType : Type 0 where
  auto anything tool never : MessagesToolChoiceType

pub record MessagesToolChoice : Type 0 where
  pub kind : MessagesToolChoiceType
  pub name : Option String
  pub disable_parallel_tool_use : Option Bool

pub record MessagesRequest : Type 0 where
  pub model : String
  pub messages : List MessagesMessage
  pub max_tokens : ℕ
  pub container : Option String
  pub mcp_servers : Option String
  pub system_prompt : Option MessagesSystemPrompt
  pub metadata : Option (List (String × String))
  pub service_tier : Option String
  pub thinking : Option String
  pub temperature : Option String
  pub top_p : Option String
  pub top_k : Option ℕ
  pub stream : Option Bool
  pub stop_sequences : Option (List String)
  pub tools : Option (List MessagesTool)
  pub tool_choice : Option MessagesToolChoice

-- `extract_text` of blocks, of the blocks of a result, and of a result
unfoldable pub block_texts : List MessagesContentBlock → List String
block_texts [] = []
block_texts (text t ∷ bs) = t ∷ block_texts bs
block_texts (_ ∷ bs) = block_texts bs

unfoldable pub extract_text : List MessagesContentBlock → String
extract_text bs = join_parts (block_texts bs)

unfoldable pub result_texts : List ResultBlock → List String
result_texts [] = []
result_texts (ResultBlock.text t ∷ bs) = t ∷ result_texts bs
result_texts (ResultBlock.other_block json ∷ bs) = result_texts bs

unfoldable pub result_text : ToolResultContent → String
result_text (ToolResultContent.text t) = t
result_text (ToolResultContent.blocks bs) = join_parts (result_texts bs)

unfoldable pub prompt_text : MessagesSystemPrompt → String
prompt_text (MessagesSystemPrompt.single t) = t
prompt_text (MessagesSystemPrompt.blocks bs) = extract_text bs
