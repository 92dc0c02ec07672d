-- ===== src/Streaming/KorakuSse/MapEvents.antt =====
-- koraku/streaming/koraku_sse.py: `map_koraku_stream_events`, an event of the run as what is sent.
use koraku.Prelude.{
  ℕ, suc, Bool, true, false, Option, none, some, List, [], ◌∷◌, ◌++◌, map, ltb, if◌then◌else◌, ◌==◌,
  text_equality,
}
use koraku.Prelude.Text.{Text, text, is_empty}
use koraku.Prelude.Dict
use koraku.Prelude.Dict.{Dict}
use koraku.Prelude.Json.{
  Value, null, bool, str, arr, obj, Fields, end, field, get, has_type, text_or, truthy, dict,
  to_list, items,
}
use koraku.Agent.Message.{or_blank}
use koraku.Streaming.KorakuSse.Payloads.{Outer, outer, or_null, koraku_trace, extended}
use koraku.Streaming.KorakuSse.State.{ToolCall, KorakuStreamState, truthy_or, completion_sequence}
use koraku.Streaming.KorakuSse.ToolEvents.{
  Subagent, task, visible_texts, nested_subagent_payload, is_nested_subagent_event,
  scoped_tool_use_id, tool_started_events, tool_event, short_text, json_len, flag, is_set,
}
use koraku.Streaming.KorakuSse.StreamEvents.{map_stream_event}

-- The calls of the program's surroundings: the texts of values, the clock, and new identifiers, by
-- their number among those of one event.
pub record Python : Type 0 where
  pub repr : Value → Text
  pub dumps : Value → Text
  pub int_of : Value → Value
  pub now : ℕ
  pub uuid : ℕ → Text

-- data if it is a dict else {}
abbrev pub data_or_empty : Value → Value
data_or_empty event = elim (get event (text "data")) [ some (obj fs) ↦ obj fs | _ ↦ obj end ]

-- event.get("data") or {}; what is truthy is a dict
abbrev pub truthy_data : Value → Value
truthy_data event = elim (get event (text "data")) [
  | none ↦ obj end
  | some v ↦ if truthy v then v else obj end
]

abbrev pub remove_field : Fields → Text → Fields
remove_field end key = end
remove_field (field k v rest) key =
    let later = remove_field rest key in elim (k == key) [ true ↦ later | false ↦ field k v later ]

abbrev pub without_key : Value → Text → Value
without_key (obj fs) key = obj (remove_field fs key)
without_key v key = v

abbrev pub text_or_null_value : Text → Value
text_or_null_value [] = null
text_or_null_value (c ∷ s) = str (c ∷ s)

-- tool_calls_by_id.pop(id, {}) if id else {}
abbrev pub popped : KorakuStreamState → Text → KorakuStreamState
popped state [] = state
popped state (c ∷ s) = record state {
  tool_calls_by_id = Dict.remove state.tool_calls_by_id (c ∷ s);
}

abbrev pub call_of : KorakuStreamState → Text → Option ToolCall
call_of state [] = none
call_of state (c ∷ s) = Dict.get state.tool_calls_by_id (c ∷ s)

abbrev pub call_name : Option ToolCall → Text
call_name none = text "tool"
call_name (some call) = if is_empty call.tool then text "tool" else call.tool

abbrev pub call_input : Option ToolCall → Value
call_input none = null
call_input (some call) = call.input

module _ (python : Python) where
  abbrev pub trace_of : KorakuStreamState → Text → Value → KorakuStreamState × List Outer
  trace_of state trace data_of =
      (state, koraku_trace (python.uuid 0) state.inner_session_id state.run_id trace data_of ∷ [])

  -- agent.trace
  abbrev pub map_trace : KorakuStreamState → Value → KorakuStreamState × List Outer
  map_trace state event =
      let data_of = data_or_empty event in
      trace_of state (truthy_or python.repr (get data_of (text "trace")) (text "status"))
        (without_key data_of (text "trace"))

  -- tool_execution
  unfoldable pub map_tool_execution : KorakuStreamState → Value → KorakuStreamState × List Outer
  map_tool_execution state event =
      let data_of = data_or_empty event in
      let sub = nested_subagent_payload python.repr event in
      tool_started_events python.dumps state (python.uuid 0) (record {
        tool_use_id = scoped_tool_use_id (or_blank python.repr (get data_of (text "id"))) sub;
        tool_name = truthy_or python.repr (get data_of (text "tool")) (text "tool");
        tool_input = or_null (get data_of (text "input"));
        mode = text_or_null_value (or_blank python.repr (get data_of (text "mode")));
        subagent = sub;
      })

  -- agent.subagent
  abbrev pub toolkits_entry : Option Value → List (Text × Value)
  toolkits_entry (some (arr vs)) =
      (text "toolkits", arr (items (map str (visible_texts python.repr (to_list vs))))) ∷ []
  toolkits_entry _ = []

  abbrev pub agent_of : Text → Value → Value
  agent_of (c ∷ s) data_of = str (c ∷ s)
  agent_of [] data_of =
      if is_set data_of (text "agent") then or_null (get data_of (text "agent")) else str []

  abbrev pub agent_entries : Option Subagent → Value → List (Text × Value)
  agent_entries (some (task agent)) data_of =
      (text "task", bool true) ∷ (text "agent", agent_of agent data_of) ∷ []
  agent_entries sub data_of =
      let composio_entry : List (Text × Value) = elim sub [
        | some _ ↦ (text "composio", bool true) ∷ []
        | none ↦ []
      ] in
      let named : List (Text × Value) =
        (text "agent", str (or_blank python.repr (get data_of (text "agent")))) ∷ [] in
      composio_entry ++ (if is_set data_of (text "agent") then named else [])

  abbrev pub map_subagent : KorakuStreamState → Value → KorakuStreamState × List Outer
  map_subagent state event =
      let data_of = data_or_empty event in
      let body = dict (
        (text "phase", str (or_blank python.repr (get data_of (text "phase"))))
        ∷ (toolkits_entry (get data_of (text "toolkits"))
            ++ agent_entries (nested_subagent_payload python.repr event) data_of)) in
      (state, outer (text "koraku.subagent") body ∷ [])

  -- The end of the call that a tool result answers.
  unfoldable pub finished_event :
      Text → KorakuStreamState → Option Subagent → Value → KorakuStreamState × Outer
  finished_event uuid state sub block =
      let id = scoped_tool_use_id (or_blank python.repr (get block (text "tool_use_id"))) sub in
      let call = call_of state id in
      let is_error = is_set block (text "is_error") in
      (
        popped state id,
        tool_event uuid state (record {
          phase = if is_error then text "failed" else text "completed";
          tool_use_id = id;
          tool_name = call_name call;
          tool_input = call_input call;
          mode = null;
          is_error = bool is_error;
          output_summary = str (short_text python.dumps (get block (text "content")) 500);
          truncated =
              flag (text "result")
                (ltb 500 (json_len python.dumps (or_null (get block (text "content")))));
          subagent = sub;
        }),
      )

  -- `n` events of the message have been made before.
  unfoldable pub finished_events :
      ℕ → KorakuStreamState → Option Subagent → List Value → KorakuStreamState × List Outer
  finished_events n state sub [] = (state, [])
  finished_events n state sub (b ∷ bs) =
      let skipped = finished_events n state sub bs in
      let (next, event) = finished_event (python.uuid n) state sub b in
      let (last, events) = finished_events (suc n) next sub bs in
      if has_type b (text "tool_result") then (last, event ∷ events) else skipped

  abbrev pub result_blocks : Option Value → List Value
  result_blocks (some (arr vs)) = to_list vs
  result_blocks (some v) = v ∷ []
  result_blocks none = []

  unfoldable pub map_user : KorakuStreamState → Value → KorakuStreamState × List Outer
  map_user state event = elim (get event (text "message")) [
    | some (obj fs) ↦
        finished_events 0 state (nested_subagent_payload python.repr event)
          (result_blocks (get (obj fs) (text "content")))
    | _ ↦ (state, [])
  ]

  -- The ends of a run; those of a nested agent are not sent.
  abbrev pub completion :
      KorakuStreamState → Value → Value → Bool → Option Text → Bool → KorakuStreamState × List Outer
  completion state event data_of failed error cancelled =
      if is_nested_subagent_event python.repr event then (state, []) else (
        state,
        completion_sequence python.repr python.now (python.uuid 0) state data_of failed error
            cancelled,
      )

  abbrev pub cancelled_data : KorakuStreamState → Value → Value
  cancelled_data state data_of =
      let model : Value =
        if is_set data_of (text "model")
        then or_null (get data_of (text "model"))
        else str state.resolved_model in
      extended (extended data_of (text "model") model) (text "reason") (str (text "cancelled"))

  abbrev pub dict_event : KorakuStreamState → Text → Value → KorakuStreamState × List Outer
  dict_event state type event = (state, outer type (data_or_empty event) ∷ [])

  unfoldable pub map_koraku_stream_events :
      KorakuStreamState → Value → KorakuStreamState × List Outer
  map_koraku_stream_events state event =
      if has_type event (text "agent.mode")
      then trace_of state (text "mode") (truthy_data event)
      else if has_type event (text "agent.tools")
      then trace_of state (text "tools") (truthy_data event)
      else if has_type event (text "agent.context")
      then trace_of state (text "context") (truthy_data event)
      else if has_type event (text "agent.history")
      then trace_of state (text "history") (truthy_data event)
      else if has_type event (text "agent.trace")
      then map_trace state event
      else if has_type event (text "tool_execution")
      then map_tool_execution state event
      else if has_type event (text "agent.memory")
      then trace_of state (text "memory") (truthy_data event)
      else if has_type event (text "agent.skill")
      then trace_of state (text "skill") (data_or_empty event)
      else if has_type event (text "agent.question")
      then dict_event state (text "koraku.question") event
      else if has_type event (text "agent.approval")
      then dict_event state (text "koraku.approval") event
      else if has_type event (text "agent.action")
      then dict_event state (text "koraku.action") event
      else if has_type event (text "agent.run_log")
      then trace_of state (text "run_log") (data_or_empty event)
      else if has_type event (text "agent.subagent")
      then map_subagent state event
      else if has_type event (text "stream_event")
      then map_stream_event python.repr python.dumps python.int_of (python.uuid 0) state event
      else if has_type event (text "user")
      then map_user state event
      else if has_type event (text "agent.completed")
      then completion state event (data_or_empty event) false none false
      else if has_type event (text "agent.cancelled")
      then completion state event (cancelled_data state (data_or_empty event)) false none true
      else if has_type event (text "agent.error")
      then completion state event (obj end) true
          (some
            (text_or python.repr (text "unknown error") (get (truthy_data event) (text "error"))))
          false
      else (state, [])

  -- The events of a run, one after another.
  abbrev pub map_all_events : KorakuStreamState → List Value → KorakuStreamState × List Outer
  map_all_events state [] = (state, [])
  map_all_events state (e ∷ es) =
      let (next, sent) = map_koraku_stream_events state e in
      let (last, later) = map_all_events next es in (last, sent ++ later)
