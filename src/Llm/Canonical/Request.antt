-- ===== src/Llm/Canonical/Request.antt =====
-- koraku/llm/canonical.py: `CanonicalChatRequest`, and the bodies that the providers are sent.
use koraku.Prelude.{Bool, true, Option, none, some, List, [], ◌∷◌, ◌++◌, if◌then◌else◌}
use koraku.Prelude.Text.{Text, text, or_empty}
use koraku.Prelude.Json.{Value, bool, str, arr, items, dict}
use koraku.Agent.Message.{AgentMessage}
use koraku.Llm.Canonical.Tools.{
  ToolSchema, anthropic_tool_definitions, openai_tool_definitions, build_compact_tool_prompt,
}
use koraku.Llm.Canonical.Messages.{
  openai_chat_messages_from_agent_messages, anthropic_messages_from_agent_messages,
}

-- What the request reads of the settings; the numbers are JSON values.
pub record ChatSettings : Type 0 where
  pub max_tokens : Value
  pub temperature : Value
  pub top_p : Value
  pub top_k : Value
  pub chat_openai_native_tools : Bool

pub record CanonicalChatRequest : Type 0 where
  pub model_id : Text
  pub messages : List AgentMessage
  pub tool_schemas : List ToolSchema
  pub system_prompt : Option Text
  pub max_tokens : Option Value
  pub temperature : Option Value
  pub top_p : Option Value
  pub top_k : Option Value

-- value if value is not None else default
abbrev pub or_setting : Option Value → Value → Value
or_setting none default = default
or_setting (some v) default = v

unfoldable pub for_turn :
    ChatSettings → Text → List AgentMessage → List ToolSchema → Option Text → CanonicalChatRequest
for_turn settings model_id messages tool_schemas system_prompt = record {
  model_id = model_id;
  messages = messages;
  tool_schemas = tool_schemas;
  system_prompt = system_prompt;
  max_tokens = some settings.max_tokens;
  temperature = some settings.temperature;
  top_p = some settings.top_p;
  top_k = some settings.top_k;
}

-- The entry of a list that is not empty, of a text that is not blank.
abbrev pub tools_entry : Text → List Value → List (Text × Value)
tools_entry key [] = []
tools_entry key (t ∷ ts) = (key, arr (items (t ∷ ts))) ∷ []

abbrev pub system_entry : Option Text → List (Text × Value)
system_entry (some (c ∷ s)) = (text "system", str (c ∷ s)) ∷ []
system_entry _ = []

unfoldable pub anthropic_stream_kwargs : ChatSettings → CanonicalChatRequest → Value
anthropic_stream_kwargs settings request = dict (
    (text "model", str request.model_id)
    ∷ (text "max_tokens", or_setting request.max_tokens settings.max_tokens)
    ∷ (text "messages", arr (items (anthropic_messages_from_agent_messages request.messages)))
    ∷ (text "stream", bool true)
    ∷ (tools_entry (text "tools") (anthropic_tool_definitions request.tool_schemas)
        ++ system_entry request.system_prompt))

abbrev pub openai_native_tool_hint : Text
openai_native_tool_hint =
    text
      "\n\nTools are bound via function calling. Invoke tools through the API tool channel only — never embed ``{\"tool\":...}``, ``[Call ToolName]:``, or similar JSON in plain assistant text."

abbrev pub native_tools : ChatSettings → CanonicalChatRequest → List Value
native_tools settings request =
    if settings.chat_openai_native_tools then openai_tool_definitions request.tool_schemas else []

module _ (repr dumps dumps_plain : Value → Text) where
  abbrev pub tool_prompt : List ToolSchema → Text
  tool_prompt [] = []
  tool_prompt (t ∷ ts) = build_compact_tool_prompt repr (t ∷ ts)

  abbrev pub tool_instructions : List Value → List ToolSchema → Text
  tool_instructions [] schemas = tool_prompt schemas
  tool_instructions (n ∷ ns) schemas = openai_native_tool_hint

  unfoldable pub full_system : ChatSettings → CanonicalChatRequest → Text
  full_system settings request =
      or_empty request.system_prompt
      ++ tool_instructions (native_tools settings request) request.tool_schemas

  abbrev pub system_message : Text → List Value
  system_message [] = []
  system_message (c ∷ s) =
      dict ((text "role", str (text "system")) ∷ (text "content", str (c ∷ s)) ∷ []) ∷ []

  unfoldable pub openai_messages : ChatSettings → CanonicalChatRequest → List Value
  openai_messages settings request =
      system_message (full_system settings request)
      ++ openai_chat_messages_from_agent_messages repr dumps dumps_plain request.messages

  abbrev pub native_entries : List Value → List (Text × Value)
  native_entries [] = []
  native_entries (t ∷ ts) =
      (text "tools", arr (items (t ∷ ts))) ∷ (text "tool_choice", str (text "auto")) ∷ []

  unfoldable pub openai_chat_completions_body : ChatSettings → CanonicalChatRequest → Value
  openai_chat_completions_body settings request = dict (
      (text "model", str request.model_id)
      ∷ (text "messages", arr (items (openai_messages settings request)))
      ∷ (text "stream", bool true)
      ∷ (text "max_tokens", or_setting request.max_tokens settings.max_tokens)
      ∷ (text "temperature", or_setting request.temperature settings.temperature)
      ∷ (text "top_p", or_setting request.top_p settings.top_p)
      ∷ (text "top_k", or_setting request.top_k settings.top_k)
      ∷ native_entries (native_tools settings request))
