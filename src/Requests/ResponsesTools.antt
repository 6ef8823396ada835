-- ===== src/Requests/ResponsesTools.antt =====
-- The tools of a Responses request as those of chat completions: transforms/request/from_openai.rs. What
-- serde_json does with JSON texts is a parameter.
use plano.Prelude.{
  ℕ, ◌+◌, Bool, false, Option, none, some, List, [], ◌∷◌, ◌++◌, String, ◌<>◌, string_key, get,
  insert,
}
use plano.State.{Result, ok, err}
use plano.Streaming.Transforms.{TransformError, unsupported_conversion}
use plano.Requests.{Tool}
use plano.Requests.Responses.{UserLocation, ResponsesTool}

-- JSON texts: the fields of an object, the text of a string, and their printing, as of the number of a
-- tool.
pub record Json : Type 0 where
  pub read_object : String → Option (List (String × String))
  pub read_string : String → Option String
  pub print_object : List (String × String) → String
  pub print_string : String → String
  pub print_number : ℕ → String

abbrev pub function_tool : String → Option String → String → Option Bool → Tool
function_tool name description parameters strict = record {
  tool_type = "function";
  function = record {
    name = name;
    description = description;
    parameters = parameters;
    strict = strict;
  };
}

-- The tools so far, and the options of the web search.
abbrev pub Converted : Type 0
Converted = List Tool × Option String

module _ (json : Json) where
  abbrev pub with_properties : List (String × String) → List (String × String)
  with_properties fields = elim (get fields "properties") [
    | none ↦ insert fields "properties" (json.print_object [])
    | some properties ↦ fields
  ]

  abbrev pub schema_fields : Option (List (String × String)) → List (String × String)
  schema_fields none =
      ("type", json.print_string "object") ∷ ("properties", json.print_object []) ∷ []
  schema_fields (some fields) = with_properties (insert fields "type" (json.print_string "object"))

  abbrev pub read_parameters : Option String → Option (List (String × String))
  read_parameters none = none
  read_parameters (some parameters) = json.read_object parameters

  abbrev pub with_format : Option String → List (String × String) → List (String × String)
  with_format none fields = fields
  with_format (some extra) fields = insert fields "x-custom-format" extra

  -- `normalize_function_parameters` on the object that the parameters are, if they are one
  unfoldable pub normalize_function_parameters :
      Option (List (String × String)) → Option String → String
  normalize_function_parameters parameters fallback_extra =
      json.print_object (with_format fallback_extra (schema_fields parameters))

  abbrev pub set_field : String → Option String → List (String × String) → List (String × String)
  set_field name none fields = fields
  set_field name (some s) fields = insert fields name (json.print_string s)

  abbrev pub approximate : UserLocation → String
  approximate loc = json.print_object (
      set_field "timezone" loc.timezone (
        set_field "region" loc.region
          (set_field "country" loc.country (set_field "city" loc.city []))))

  abbrev pub location_field : Option UserLocation → List (String × String) → List (String × String)
  location_field none fields = fields
  location_field (some loc) fields = insert fields "user_location" (
      json.print_object
        (("type", json.print_string loc.location_type) ∷ ("approximate", approximate loc) ∷ []))

  -- The options of the first web search count.
  abbrev pub web_search : Option String → Option String → Option UserLocation → Option String
  web_search (some options) size location = some options
  web_search none size location =
      some (json.print_object (location_field location (set_field "search_context_size" size [])))

  abbrev pub custom_schema : List (String × String)
  custom_schema =
      ("type", json.print_string "object")
      ∷ (
        "properties",
        json.print_object
            (("input", json.print_object (("type", json.print_string "string") ∷ [])) ∷ []),
      )
      ∷ ("required", "[\"input\"]")
      ∷ ("additionalProperties", "true")
      ∷ []

  abbrev pub custom_name : ℕ → Option String → String
  custom_name idx none = "custom_tool_" <> json.print_number (idx + 1)
  custom_name idx (some name) = name

  abbrev pub unsupported : String → Result TransformError Converted
  unsupported message = err (unsupported_conversion message)

  abbrev pub add_tool : ℕ → ResponsesTool → Converted → Result TransformError Converted
  add_tool idx (ResponsesTool.function name description parameters strict) (tools, options) = ok (
    tools
        ++ function_tool name description
            (normalize_function_parameters (read_parameters parameters) none) strict
          ∷ [],
    options,
  )
  add_tool idx (ResponsesTool.web_search_preview domains size location) (tools, options) =
      ok (tools, web_search options size location)
  add_tool idx (ResponsesTool.custom name description format) (tools, options) = ok (
    tools
        ++ function_tool (custom_name idx name) description
            (normalize_function_parameters (some custom_schema) format) (some false)
          ∷ [],
    options,
  )
  add_tool idx (ResponsesTool.file_search rest) c =
      unsupported
        "FileSearch tool is not supported in ChatCompletions API. Only function/custom/web search tools are supported in this conversion."
  add_tool idx ResponsesTool.code_interpreter c =
      unsupported "CodeInterpreter tool is not supported in ChatCompletions API conversion."
  add_tool idx (ResponsesTool.computer rest) c =
      unsupported "Computer tool is not supported in ChatCompletions API conversion."

  abbrev pub then_tools :
      Result TransformError Converted
      → (Converted → Result TransformError Converted)
      → Result TransformError Converted
  then_tools (ok c) more = more c
  then_tools (err e) more = err e

  -- The loop over the tools, which ends at the first that chat completions do not have.
  unfoldable pub convert_tools :
      ℕ → List ResponsesTool → Converted → Result TransformError Converted
  convert_tools idx [] c = ok c
  convert_tools idx (tool ∷ tools) c =
      then_tools (add_tool idx tool c) (λ c'. convert_tools (idx + 1) tools c')

  abbrev pub tools_of : Option (List ResponsesTool) → Result TransformError Converted
  tools_of none = ok ([], none)
  tools_of (some tools) = convert_tools 0 tools ([], none)
