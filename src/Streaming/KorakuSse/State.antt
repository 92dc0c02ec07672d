-- ===== src/Streaming/KorakuSse/State.antt =====
-- koraku/streaming/koraku_sse.py: `KorakuStreamState`, and what a stream begins and ends with.
use koraku.Prelude.{
  ℕ, ◌-◌, Bool, not, ◌&&◌, Option, none, some, List, [], ◌∷◌, ◌++◌, if◌then◌else◌, text_equality,
}
use koraku.Prelude.Text.{Text, text, or_text}
use koraku.Prelude.Dict.{Dict}
use koraku.Prelude.Json.{Value, str, dict, get, truthy, as_text}
use koraku.Streaming.KorakuSse.Payloads.{
  Outer, envelope, outer, number, route_decision_data, build_system_init_inner, ResultOf,
  result_inner, koraku_completed, koraku_output_marker,
}

-- A call that has started: its name and its input.
pub record ToolCall : Type 0 where
  pub tool : Text
  pub input : Value

-- An index of a content block is kept as the text of its number.
pub record KorakuStreamState : Type 0 where
  pub pty_session_id : Text
  pub sandbox_id : Text
  pub inner_session_id : Text
  pub run_id : Text
  pub started_ms : ℕ
  pub resolved_model : Text
  pub eff_provider : Text
  pub suppressed_tool_block_indexes : List Text
  pub tool_calls_by_id : Dict Text ToolCall
  pub started_tool_use_ids : List Text

abbrev pub chat_session_entry : Option Text → List (Text × Value)
chat_session_entry (some (c ∷ s)) = (text "chatSessionId", str (c ∷ s)) ∷ []
chat_session_entry _ = []

unfoldable pub started_payload : KorakuStreamState → Text → Option Text → Outer
started_payload state model chat_session_id = outer (text "koraku.started") (
    dict (
      (text "ptySessionId", str state.pty_session_id)
      ∷ (text "sandboxId", str state.sandbox_id)
      ∷ (text "model", str model)
      ∷ (text "startedAt", number state.started_ms)
      ∷ (text "runId", str state.run_id)
      ∷ chat_session_entry chat_session_id))

unfoldable pub s2_stream_payload : KorakuStreamState → Outer
s2_stream_payload state =
    outer (text "koraku.s2-stream")
      (dict ((text "uri", str (text "s2://koraku/" ++ state.pty_session_id)) ∷ []))

unfoldable pub route_decision_payload : KorakuStreamState → Outer
route_decision_payload state =
    outer (text "koraku.route_decision")
      (route_decision_data state.eff_provider state.resolved_model)

unfoldable pub system_init_payload : KorakuStreamState → List Value → Text → Text → Value → Outer
system_init_payload state tools uuid cwd koraku =
    envelope
      (build_system_init_inner tools uuid cwd state.inner_session_id state.resolved_model koraku)

-- str(value) of a truthy value, else the other text
abbrev pub truthy_or : (Value → Text) → Option Value → Text → Text
truthy_or repr none default = default
truthy_or repr (some v) default = if truthy v then as_text repr v else default

-- What a run ends with; `now` is the time in milliseconds, and the model of the data is a text.
unfoldable pub completion_sequence :
    (Value → Text) → ℕ → Text → KorakuStreamState → Value → Bool → Option Text → Bool → List Outer
completion_sequence repr now uuid state data_of failed error cancelled =
    let model =
      truthy_or repr (get data_of (text "model")) (or_text state.resolved_model (text "auto")) in
    let reason =
      truthy_or repr (get data_of (text "reason")) (
        if failed then text "error" else if cancelled then text "cancelled" else text "end_turn") in
    let stop_reason : Text =
      if cancelled then text "cancelled" else if failed then text "error" else reason in
    let ended : ResultOf = record {
      model = model;
      failed = failed && not cancelled;
      stop_reason = stop_reason;
      duration_ms = now - state.started_ms;
      cancelled = cancelled;
    } in
    let exit_code : ℕ = if cancelled then 130 else if failed then 1 else 0 in
    envelope (result_inner uuid state.inner_session_id state.run_id ended)
    ∷ koraku_completed state.pty_session_id state.sandbox_id exit_code (failed && not cancelled)
        error cancelled
    ∷ koraku_output_marker
    ∷ []
