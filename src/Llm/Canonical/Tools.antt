-- ===== src/Llm/Canonical/Tools.antt =====
-- koraku/llm/canonical.py and koraku/tools/tool_def.py: the definitions of tools for a provider.
use koraku.Prelude.{
  Bool, false, ◌||◌, Option, none, some, List, [], ◌∷◌, ◌++◌, if◌then◌else◌, text_equality,
}
use koraku.Prelude.Text.{Text, text, join}
use koraku.Prelude.Json.{
  Value, str, arr, obj, Fields, end, field, Items, nil, cons, get, is_text, text_or, dict,
}

-- A `Tool`, with what its schemas read.
pub record ToolDef : Type 0 where
  pub name : Text
  pub description : Text
  pub input_schema : Value

-- An entry of the tools of a request: a `Tool`, or a value of another kind.
pub data ToolSchema : Type 0 where
  tool_object : ToolDef → ToolSchema
  raw_schema : Value → ToolSchema

abbrev pub newline : Text
newline = 10 ∷ []

abbrev pub to_anthropic_schema : ToolDef → Value
to_anthropic_schema t = dict (
    (text "name", str t.name)
    ∷ (text "description", str t.description)
    ∷ (text "input_schema", t.input_schema)
    ∷ [])

abbrev pub function_tool : Value → Value → Value → Value
function_tool name description parameters = dict (
    (text "type", str (text "function"))
    ∷ (
      text "function",
      dict (
          (text "name", name)
          ∷ (text "description", description)
          ∷ (text "parameters", parameters)
          ∷ []),
    )
    ∷ [])

abbrev pub to_openai_schema : ToolDef → Value
to_openai_schema t = function_tool (str t.name) (str t.description) t.input_schema

-- The name and the schema of a dict that has both.
abbrev pub raw_parts : Value → Option (Value × Value)
raw_parts v = elim (get v (text "name")) [
  | none ↦ none
  | some name ↦ elim (get v (text "input_schema")) [
    | none ↦ none
    | some schema ↦ some (name, schema)
  ]
]

abbrev pub value_or : Value → Option Value → Value
value_or default none = default
value_or default (some v) = v

unfoldable pub anthropic_tool_definitions : List ToolSchema → List Value
anthropic_tool_definitions [] = []
anthropic_tool_definitions (tool_object t ∷ rest) =
    to_anthropic_schema t ∷ anthropic_tool_definitions rest
anthropic_tool_definitions (raw_schema v ∷ rest) =
    let later = anthropic_tool_definitions rest in
    elim (raw_parts v) [ none ↦ later | some _ ↦ v ∷ later ]

unfoldable pub openai_tool_definitions : List ToolSchema → List Value
openai_tool_definitions [] = []
openai_tool_definitions (tool_object t ∷ rest) = to_openai_schema t ∷ openai_tool_definitions rest
openai_tool_definitions (raw_schema v ∷ rest) =
    let later = openai_tool_definitions rest in
    elim (raw_parts v) [
      | none ↦ later
      | some (name, schema) ↦
          function_tool name (value_or (str []) (get v (text "description"))) schema ∷ later
    ]

-- pname in req, where `req` is a list
abbrev pub is_listed : Items → Text → Bool
is_listed nil name = false
is_listed (cons v rest) name = is_text (some v) name || is_listed rest name

abbrev pub is_required : Option Value → Text → Bool
is_required (some (arr req)) name = is_listed req name
is_required _ name = false

module _ (repr : Value → Text) where
  -- The lines of the properties; each is a dict.
  abbrev pub param_lines : Option Value → Fields → List Text
  param_lines req end = []
  param_lines req (field pname pinfo rest) =
      let mark : Text = if is_required req pname then text "*" else [] in
      (text "  "
        ++ (pname
            ++ (mark
                ++ (text " ("
                    ++ (text_or repr (text "any") (get pinfo (text "type"))
                        ++ (text "): " ++ text_or repr [] (get pinfo (text "description"))))))))
      ∷ param_lines req rest

  abbrev pub properties_of : Option Value → Fields
  properties_of (some (obj props)) = props
  properties_of _ = end

  unfoldable pub to_compact_prompt : ToolDef → Text
  to_compact_prompt t = join newline (
      (t.name ++ (text ": " ++ t.description))
      ∷ param_lines (get t.input_schema (text "required"))
          (properties_of (get t.input_schema (text "properties"))))

  -- The lines of a tool; an entry that is no `Tool` is a dict.
  abbrev pub compact_lines : List ToolSchema → List Text
  compact_lines [] = []
  compact_lines (tool_object t ∷ rest) = to_compact_prompt t ∷ [] ∷ compact_lines rest
  compact_lines (raw_schema v ∷ rest) =
      (text_or repr (text "Unknown") (get v (text "name"))
        ++ (text ": " ++ text_or repr [] (get v (text "description"))))
      ∷ []
      ∷ compact_lines rest

  abbrev pub prompt_head : List Text
  prompt_head =
      []
      ∷ text
          "TOOLS: Emit exactly one JSON object per call (double quotes, colons — not Ruby ``=>``):"
      ∷ text "{\"tool\":\"Name\",\"parameters\":{...}}"
      ∷ text
          "Do not use [TOOL_CALL] tags, ``[Call ToolName]:`` prose, ``tool =>`` syntax, or XML tags."
      ∷ text
          "Never paste tool JSON inside your user-facing answer — only emit the JSON tool object."
      ∷ []
      ∷ []

  unfoldable pub build_compact_tool_prompt : List ToolSchema → Text
  build_compact_tool_prompt tools = join newline (
      prompt_head
      ++ (compact_lines tools
          ++ text "Call tools when needed. Provide final answer when done." ∷ []))
