-- ===== src/Llm/Canonical/Tests.antt =====
-- A request with two tool calls and their results.
use koraku.Prelude.{
  ℕ, zero, suc, true, ◌≡◌, refl, Option, none, some, List, [], ◌∷◌, map, length, nat_equality,
  text_equality,
}
use koraku.Prelude.Text.{Text, text, strip}
use koraku.Prelude.Json.{Value, null, num, str, arr, dict, fields, items, get}
use koraku.Agent.Message.{AgentMessage, message, user, assistant, plain, blocks}
use koraku.Llm.Canonical.Tools.{
  ToolDef, tool_object, raw_schema, to_compact_prompt, openai_tool_definitions,
}
use koraku.Llm.Canonical.Messages.{tool_calls_from}
use koraku.Llm.Canonical.Request.{ChatSettings, CanonicalChatRequest, openai_messages}
use koraku.Llm.Canonical.Protocol.{answered_from}
use koraku.Llm.Canonical.Answered.{openai_messages_answered}
use koraku.Llm.Canonical.RoundTrip.{Call, block_of, streamed_from, blocks-deltas-calls}
use koraku.Llm.ToolDeltas.{accumulate_openai_tool_call_deltas, tool_call_slots_to_blocks}

abbrev path_of : Text → Value
path_of s = dict ((text "path", str s) ∷ [])

-- A `json.dumps` and a `json.loads` of objects with the key "path".
abbrev dumps_path : Value → Text
dumps_path v = elim (get v (text "path")) [ some (str s) ↦ s | _ ↦ [] ]

abbrev loads_path : Text → Option Value
loads_path s = some (path_of s)

abbrev no_repr : Value → Text
no_repr v = []

-- An index is written in strokes.
abbrev strokes : ℕ → Text
strokes zero = []
strokes (suc n) = 124 ∷ strokes n

abbrev index_value : ℕ → Value
index_value n = num (strokes n)

abbrev index_of : Option Value → ℕ
index_of (some (num s)) = length s
index_of _ = 0

reads_index : (n : ℕ) → index_of (some (index_value n)) ≡ n
reads_index zero = refl
reads_index (suc n) = rw (reads_index n) refl

abbrev two_calls : List Call
two_calls =
    record {
      id = text "a";
      name = text "Read";
      input = fields ((text "path", str (text "x.md")) ∷ []);
    }
    ∷ record {
      id = text "b";
      name = text "Glob";
      input = fields ((text "path", str (text "src")) ∷ []);
    }
    ∷ []

blocks-deltas-calls_example :
    tool_call_slots_to_blocks loads_path (
      accumulate_openai_tool_call_deltas no_repr index_of [] (
        streamed_from index_value 0
          (tool_calls_from no_repr no_repr dumps_path 0 (map block_of two_calls))))
    ≡ map block_of two_calls
unfolding strip
blocks-deltas-calls_example =
    blocks-deltas-calls no_repr no_repr dumps_path loads_path index_of index_value reads_index
      two_calls
      ((refl, refl), (refl, refl), refl, refl, ((refl, refl), (refl, refl), refl, refl, tt))

abbrev result_block : Text → Value
result_block id = dict (
    (text "type", str (text "tool_result"))
    ∷ (text "tool_use_id", str id)
    ∷ (text "content", str (text "done"))
    ∷ [])

abbrev conversation : List AgentMessage
conversation =
    message user (plain (text "read both"))
    ∷ message assistant (blocks (map block_of two_calls))
    ∷ message user (blocks (result_block (text "a") ∷ result_block (text "b") ∷ []))
    ∷ message assistant (
        blocks (
          dict ((text "type", str (text "text")) ∷ (text "text", str (text "both read")) ∷ [])
          ∷ []))
    ∷ []

abbrev read_tool : ToolDef
read_tool = record {
  name = text "Read";
  description = text "reads a file";
  input_schema = dict (
      (text "properties", dict ((text "path", dict ((text "type", str (text "string")) ∷ [])) ∷ []))
      ∷ (text "required", arr (items (str (text "path") ∷ [])))
      ∷ []);
}

abbrev some_settings : ChatSettings
some_settings = record {
  max_tokens = num (text "1000");
  temperature = num (text "1");
  top_p = num (text "1");
  top_k = num (text "40");
  chat_openai_native_tools = true;
}

abbrev some_request : CanonicalChatRequest
some_request = record {
  model_id = text "m";
  messages = conversation;
  tool_schemas = tool_object read_tool ∷ raw_schema null ∷ [];
  system_prompt = some (text "Be brief.");
  max_tokens = none;
  temperature = none;
  top_p = none;
  top_k = none;
}

openai_messages_answered_example :
    answered_from [] (openai_messages no_repr no_repr dumps_path some_settings some_request) ≡ true
openai_messages_answered_example =
    openai_messages_answered no_repr no_repr dumps_path some_settings some_request refl refl

compact : to_compact_prompt no_repr read_tool ≡ text "Read: reads a file\n  path* (string): "
unfolding to_compact_prompt
compact = refl

one_definition : length (openai_tool_definitions some_request.tool_schemas) ≡ 1
unfolding openai_tool_definitions
one_definition = refl
