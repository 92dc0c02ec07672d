-- ===== src/Streaming/KorakuSse/ToolEvents.antt =====
-- koraku/streaming/koraku_sse.py: the start and the end of a tool call, and the ids of nested agents.
use koraku.Prelude.{
  ℕ, ◌-◌, Bool, true, false, not, Option, none, some, List, [], ◌∷◌, ◌++◌, map, keep, ltb, length,
  take, contains, if◌then◌else◌, ◌==◌, text_equality,
}
use koraku.Prelude.Text.{
  Text, text, join, split, strip, rstrip, lower, is_empty, or_text, starts_with,
}
use koraku.Prelude.Dict
use koraku.Prelude.Dict.{Dict}
use koraku.Prelude.Json.{
  Value, null, bool, str, arr, obj, end, get, is_dict, as_text, truthy, dict, to_list, items,
}
use koraku.Agent.Message.{or_blank}
use koraku.Streaming.KorakuSse.Payloads.{Outer, envelope}
use koraku.Streaming.KorakuSse.State.{KorakuStreamState}

-- The agent that an event comes from, where it is nested in the turn.
pub data Subagent : Type 0 where
  composio : List Text → Subagent
  task : Text → Subagent

abbrev pub is_set : Value → Text → Bool
is_set v key = elim (get v key) [ none ↦ false | some w ↦ truthy w ]

abbrev pub list_of : Option Value → List Value
list_of (some (arr vs)) = to_list vs
list_of _ = []

-- [str(x) for x in xs if str(x).strip()]
abbrev pub visible_texts : (Value → Text) → List Value → List Text
visible_texts repr vs = keep (λ s. not (is_empty (strip s))) (map (as_text repr) vs)

unfoldable pub nested_subagent_payload : (Value → Text) → Value → Option Subagent
nested_subagent_payload repr event = elim (get event (text "subagent")) [
  | none ↦ none
  | some sub_raw ↦
      if not (is_dict sub_raw)
      then none
      else if is_set sub_raw (text "composio")
      then some (composio (visible_texts repr (list_of (get sub_raw (text "toolkits")))))
      else if is_set sub_raw (text "task")
      then some (task (strip (or_blank repr (get sub_raw (text "agent")))))
      else none
]

-- The payload as it is sent.
abbrev pub subagent_value : Subagent → Value
subagent_value (composio toolkits) =
    dict ((text "composio", bool true) ∷ (text "toolkits", arr (items (map str toolkits))) ∷ [])
subagent_value (task agent) = dict ((text "task", bool true) ∷ (text "agent", str agent) ∷ [])

abbrev pub is_nested_subagent_event : (Value → Text) → Value → Bool
is_nested_subagent_event repr event = elim (nested_subagent_payload repr event) [
  | none ↦ false
  | some _ ↦ true
]

-- The prefix of the ids of an agent.
abbrev pub id_prefix : Subagent → Text
id_prefix (composio toolkits) = text "composio:"
id_prefix (task agent) =
    text "task:"
    ++ (or_text (lower (strip (or_text agent (text "task")))) (text "task") ++ text ":")

abbrev pub prefixed : Text → Text → Text
prefixed prefix [] = []
prefixed prefix (c ∷ s) = if starts_with (c ∷ s) prefix then c ∷ s else prefix ++ c ∷ s

unfoldable pub scoped_tool_use_id : Text → Option Subagent → Text
scoped_tool_use_id tool_use_id none = strip tool_use_id
scoped_tool_use_id tool_use_id (some sub) = prefixed (id_prefix sub) (strip tool_use_id)

-- `dumps` is `json.dumps` with `default=str`, which raises on no value.
unfoldable pub short_text : (Value → Text) → Option Value → ℕ → Text
short_text dumps value max_chars =
    let written : Text = elim value [ some (str s) ↦ s | some v ↦ dumps v | none ↦ dumps null ] in
    let one_line = join (text " ") (split written) in
    if ltb max_chars (length one_line)
    then rstrip (take (max_chars - 1) one_line) ++ text "…"
    else one_line

abbrev pub json_len : (Value → Text) → Value → ℕ
json_len dumps value = length (dumps value)

-- What a tool event says.
pub record ToolEvent : Type 0 where
  pub phase : Text
  pub tool_use_id : Text
  pub tool_name : Text
  pub tool_input : Value
  pub mode : Value
  pub is_error : Value
  pub output_summary : Value
  pub truncated : Value
  pub subagent : Option Subagent

abbrev pub subagent_entry : Option Subagent → List (Text × Value)
subagent_entry none = []
subagent_entry (some sub) = (text "subagent", subagent_value sub) ∷ []

abbrev pub status_of : Text → Text
status_of phase =
    if phase == text "started"
    then text "running"
    else if phase == text "failed"
    then text "error"
    else text "completed"

unfoldable pub tool_event : Text → KorakuStreamState → ToolEvent → Outer
tool_event uuid state e = envelope (
    dict (
      (text "type", str (text "tool_event"))
      ∷ (text "phase", str e.phase)
      ∷ (text "status", str (status_of e.phase))
      ∷ (text "tool_use_id", str e.tool_use_id)
      ∷ (text "tool_name", str e.tool_name)
      ∷ (text "tool_input", e.tool_input)
      ∷ (text "mode", e.mode)
      ∷ (text "is_error", e.is_error)
      ∷ (text "output_summary", e.output_summary)
      ∷ (text "truncated", e.truncated)
      ∷ (text "run_id", str state.run_id)
      ∷ (text "session_id", str state.inner_session_id)
      ∷ (text "parent_tool_use_id", str e.tool_use_id)
      ∷ (text "uuid", str uuid)
      ∷ subagent_entry e.subagent))

-- {key: true} when the test holds, else {}
abbrev pub flag : Text → Bool → Value
flag key true = dict ((key, bool true) ∷ [])
flag key false = obj end

-- started_tool_use_ids.add(id)
abbrev pub add_id : List Text → Text → List Text
add_id ids id = if contains ids id then ids else ids ++ id ∷ []

abbrev pub tool_input_trunc_bytes : ℕ
tool_input_trunc_bytes = 8000

-- What is known of a call that starts.
pub record Start : Type 0 where
  pub tool_use_id : Text
  pub tool_name : Text
  pub tool_input : Value
  pub mode : Value
  pub subagent : Option Subagent

abbrev pub start_named :
    (Value → Text) → KorakuStreamState → Text → Text → Start → Text → KorakuStreamState × List Outer
start_named dumps state uuid tool_name start id = (
  record state {
    tool_calls_by_id =
        Dict.put state.tool_calls_by_id id (record { tool = tool_name; input = start.tool_input });
    started_tool_use_ids = add_id state.started_tool_use_ids id;
  },
  tool_event uuid state (record {
    phase = text "started";
    tool_use_id = id;
    tool_name = tool_name;
    tool_input = start.tool_input;
    mode = start.mode;
    is_error = null;
    output_summary = null;
    truncated = flag (text "args") (ltb tool_input_trunc_bytes (json_len dumps start.tool_input));
    subagent = start.subagent;
  })
      ∷ [],
)

unfoldable pub tool_started_events :
    (Value → Text) → KorakuStreamState → Text → Start → KorakuStreamState × List Outer
tool_started_events dumps state uuid start =
    let tool_name = or_text (strip (or_text start.tool_name (text "tool"))) (text "tool") in
    elim (strip start.tool_use_id) [
      | [] ↦ (state, [])
      | c ∷ s ↦ start_named dumps state uuid tool_name start (c ∷ s)
    ]
