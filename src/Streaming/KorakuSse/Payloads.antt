-- ===== src/Streaming/KorakuSse/Payloads.antt =====
-- koraku/streaming/koraku_sse.py: the objects that are sent, without the state of a stream.
use koraku.Prelude.{
  ℕ, Bool, false, Option, none, some, List, [], ◌∷◌, if◌then◌else◌, ◌==◌, text_equality,
}
use koraku.Prelude.Text.{Text, text, strip, lower, is_empty, or_text, decimal}
use koraku.Prelude.Json.{Value, null, bool, num, str, arr, obj, set_field, get, truthy, dict, items}

-- An object of the outer stream: a `koraku.event`, whose data is the text of an inner object, or one
-- of another type.
pub data Outer : Type 0 where
  envelope : Value → Outer
  outer : Text → Value → Outer

-- The dict that is sent; `dumps` is `json.dumps`.
abbrev pub payload_of : (Value → Text) → Outer → Value
payload_of dumps (envelope inner) =
    dict ((text "type", str (text "koraku.event")) ∷ (text "data", str (dumps inner)) ∷ [])
payload_of dumps (outer type data_of) = dict ((text "type", str type) ∷ (text "data", data_of) ∷ [])

abbrev pub number : ℕ → Value
number n = num (decimal n)

abbrev pub or_null : Option Value → Value
or_null none = null
or_null (some v) = v

abbrev pub text_or_none : Option Text → Value
text_or_none none = null
text_or_none (some s) = str s

abbrev pub route_data : Text → Text → Text → Value
route_data runtime model provider = dict (
    (text "runtime", str runtime)
    ∷ (text "model", str model)
    ∷ (text "meta", dict ((text "isByok", bool false) ∷ (text "provider", str provider) ∷ []))
    ∷ [])

unfoldable pub route_decision_data : Text → Text → Value
route_decision_data provider_id model =
    let pid = lower (strip provider_id) in
    if pid == text "anthropic"
    then route_data (text "claude") model (text "anthropic")
    else if pid == text "fireworks"
    then route_data (text "fireworks") model (text "fireworks")
    else route_data (text "custom_openai") model (or_text pid (text "openai_compat"))

-- The list that `koraku` has under a key, else the empty one.
abbrev pub list_or_empty : Option Value → Value
list_or_empty (some (arr vs)) = arr vs
list_or_empty _ = arr (items [])

abbrev pub permission_mode_of : Option Value → Text
permission_mode_of (some (str s)) = if is_empty (strip s) then text "default" else lower (strip s)
permission_mode_of _ = text "default"

abbrev pub koraku_entry : Value → List (Text × Value)
koraku_entry koraku = if truthy koraku then (text "koraku", koraku) ∷ [] else []

-- `tools` are the schemas of `available_tools`; a `koraku` that is absent is `null`.
unfoldable pub build_system_init_inner : List Value → Text → Text → Text → Text → Value → Value
build_system_init_inner tools uuid cwd inner_session_id model koraku = dict (
    (text "type", str (text "system"))
    ∷ (text "subtype", str (text "init"))
    ∷ (text "cwd", str cwd)
    ∷ (text "session_id", str inner_session_id)
    ∷ (text "tools", arr (items tools))
    ∷ (text "mcp_servers", list_or_empty (get koraku (text "mcp_servers")))
    ∷ (text "model", str model)
    ∷ (text "permissionMode", str (permission_mode_of (get koraku (text "permission_mode"))))
    ∷ (text "slash_commands", list_or_empty (get koraku (text "slash_commands")))
    ∷ (text "apiKeySource", str (text "koraku"))
    ∷ (text "output_style", str (text "default"))
    ∷ (text "uuid", str uuid)
    ∷ koraku_entry koraku)

-- What a result says of the run.
pub record ResultOf : Type 0 where
  pub model : Text
  pub failed : Bool
  pub stop_reason : Text
  pub duration_ms : ℕ
  pub cancelled : Bool

abbrev pub zero_usage : Value
zero_usage = dict (
    (text "input_tokens", num (text "0"))
    ∷ (text "output_tokens", num (text "0"))
    ∷ (text "cache_creation_input_tokens", num (text "0"))
    ∷ (text "cache_read_input_tokens", num (text "0"))
    ∷ [])

abbrev pub zero_model_usage : Value
zero_model_usage = dict (
    (text "inputTokens", num (text "0"))
    ∷ (text "outputTokens", num (text "0"))
    ∷ (text "cacheReadInputTokens", num (text "0"))
    ∷ (text "cacheCreationInputTokens", num (text "0"))
    ∷ (text "webSearchRequests", num (text "0"))
    ∷ (text "costUSD", num (text "0.0"))
    ∷ (text "contextWindow", num (text "200000"))
    ∷ [])

unfoldable pub result_inner : Text → Text → Text → ResultOf → Value
result_inner uuid inner_session_id run_id r =
    let subtype : Text =
      if r.cancelled then text "cancelled" else if r.failed then text "error" else text "success" in
    dict (
      (text "type", str (text "result"))
      ∷ (text "subtype", str subtype)
      ∷ (text "duration_ms", number r.duration_ms)
      ∷ (text "duration_api_ms", number r.duration_ms)
      ∷ (text "is_error", bool r.failed)
      ∷ (text "result", str [])
      ∷ (text "session_id", str inner_session_id)
      ∷ (text "run_id", str run_id)
      ∷ (text "uuid", str uuid)
      ∷ (text "total_cost_usd", num (text "0.0"))
      ∷ (text "usage", zero_usage)
      ∷ (text "stop_reason", str r.stop_reason)
      ∷ (text "modelUsage", dict ((r.model, zero_model_usage) ∷ []))
      ∷ [])

unfoldable pub koraku_completed : Text → Text → ℕ → Bool → Option Text → Bool → Outer
koraku_completed pty_session_id sandbox_id exit_code failed error cancelled =
    outer (text "koraku.completed") (
      dict (
        (text "ptySessionId", str pty_session_id)
        ∷ (text "sandboxId", str sandbox_id)
        ∷ (text "exitCode", number exit_code)
        ∷ (text "failed", bool failed)
        ∷ (text "error", text_or_none error)
        ∷ (text "cancelled", bool cancelled)
        ∷ (text "postflightBackgrounded", bool false)
        ∷ []))

abbrev pub koraku_output_marker : Outer
koraku_output_marker =
    outer (text "koraku.output") (dict ((text "marker", str (text "__KORAKU_DONE__:0")) ∷ []))

-- {**data, key: v}; the data is a dict
abbrev pub extended : Value → Text → Value → Value
extended (obj fs) key v = obj (set_field fs key v)
extended _ key v = dict ((key, v) ∷ [])

unfoldable pub koraku_trace : Text → Text → Text → Text → Value → Outer
koraku_trace uuid inner_session_id run_id trace data_of = envelope (
    dict (
      (text "type", str (text "koraku.trace"))
      ∷ (text "trace", str trace)
      ∷ (text "data", extended data_of (text "run_id") (str run_id))
      ∷ (text "session_id", str inner_session_id)
      ∷ (text "run_id", str run_id)
      ∷ (text "uuid", str uuid)
      ∷ []))
