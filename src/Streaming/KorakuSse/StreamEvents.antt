-- ===== src/Streaming/KorakuSse/StreamEvents.antt =====
-- koraku/streaming/koraku_sse.py: `map_koraku_stream_events` on the events of a model's stream.
use koraku.Prelude.{
  ℕ, Bool, false, not, ◌&&◌, ◌||◌, Option, none, some, List, [], ◌∷◌, ◌++◌, map, keep, all, any,
  leb, nat_beq, contains, if◌then◌else◌, ◌==◌, text_equality,
}
use koraku.Prelude.Text.{Text, text}
use koraku.Prelude.Json.{
  Value, null, num, str, arr, obj, end, get, has_type, truthy, is_nonzero, dict, to_list, items,
}
use koraku.Agent.Message.{or_blank}
use koraku.Agent.React.{is_tool_use}
use koraku.Streaming.KorakuSse.Payloads.{Outer, envelope, outer, or_null, extended}
use koraku.Streaming.KorakuSse.State.{KorakuStreamState, truthy_or}
use koraku.Streaming.KorakuSse.ToolEvents.{
  Subagent, subagent_value, nested_subagent_payload, scoped_tool_use_id, Start, tool_started_events,
}

unfoldable pub wrap_stream_event : Text → KorakuStreamState → Value → Outer
wrap_stream_event uuid state raw_event = envelope (
    dict (
      (text "type", str (text "stream_event"))
      ∷ (text "event", raw_event)
      ∷ (text "run_id", str state.run_id)
      ∷ (text "session_id", str state.inner_session_id)
      ∷ (text "parent_tool_use_id", null)
      ∷ (text "uuid", str uuid)
      ∷ []))

-- The event with the content of its message; the message and the content are a dict and a list.
abbrev pub with_content : Value → Value → List Value → Value
with_content raw_event message content =
    extended raw_event (text "message") (extended message (text "content") (arr (items content)))

abbrev pub without_calls : Value → Value → List Value → Option Value
without_calls raw_event message [] = none
without_calls raw_event message (b ∷ bs) = some (with_content raw_event message (b ∷ bs))

abbrev pub message_without_calls : Value → Option Value → Option Value
message_without_calls raw_event (some (obj fs)) = elim (get (obj fs) (text "content")) [
  | some (arr content) ↦
      without_calls raw_event (obj fs) (keep (λ b. not (is_tool_use b)) (to_list content))
  | _ ↦ some raw_event
]
message_without_calls raw_event _ = some raw_event

unfoldable pub assistant_message_without_tool_calls : Value → Option Value
assistant_message_without_tool_calls raw_event =
    message_without_calls raw_event (get raw_event (text "message"))

-- isinstance(idx, int): a number without a fraction; an index is no boolean
abbrev pub is_digit_or_sign : ℕ → Bool
is_digit_or_sign c = leb 48 c && leb c 57 || nat_beq c 45

abbrev pub int_index : Option Value → Option Text
int_index (some (num t)) = if all is_digit_or_sign t then some t else none
int_index _ = none

-- The number under a key is greater than zero.
abbrev pub is_negative : Text → Bool
is_negative [] = false
is_negative (c ∷ s) = nat_beq c 45

abbrev pub is_positive : Option Value → Bool
is_positive (some (num t)) = not (is_negative t) && is_nonzero t
is_positive _ = false

abbrev pub usage_keys : List Text
usage_keys =
    text "input_tokens"
    ∷ text "output_tokens"
    ∷ text "cache_creation_input_tokens"
    ∷ text "cache_read_input_tokens"
    ∷ []

-- The keys of `raw` that the branches read.
abbrev pub block_is_call : Value → Bool
block_is_call raw = elim (get raw (text "content_block")) [
  | some block ↦ is_tool_use block
  | none ↦ false
]

abbrev pub is_input_delta : Value → Bool
is_input_delta raw = elim (get raw (text "delta")) [
  | some delta ↦ has_type delta (text "input_json_delta")
  | none ↦ false
]

abbrev pub is_suppressed : KorakuStreamState → Option Text → Bool
is_suppressed state none = false
is_suppressed state (some idx) = contains state.suppressed_tool_block_indexes idx

abbrev pub suppress : KorakuStreamState → Text → KorakuStreamState
suppress state idx = record state {
  suppressed_tool_block_indexes =
      if contains state.suppressed_tool_block_indexes idx
      then state.suppressed_tool_block_indexes
      else idx ∷ state.suppressed_tool_block_indexes;
}

abbrev pub discard : KorakuStreamState → Option Text → KorakuStreamState
discard state none = state
discard state (some idx) = record state {
  suppressed_tool_block_indexes = keep (λ i. not (i == idx)) state.suppressed_tool_block_indexes;
}

-- `repr` is `str` of a value that is no string, `dumps` is `json.dumps` with `default=str`, and
-- `int_of` is `int` of a number.
module _ (repr dumps : Value → Text) (int_of : Value → Value) where
  abbrev pub int_or_zero : Option Value → Value
  int_or_zero none = num (text "0")
  int_or_zero (some v) = if truthy v then int_of v else num (text "0")

  -- usage if it is a dict else {}
  abbrev pub usage_of : Option Value → Value
  usage_of (some (obj fs)) = obj fs
  usage_of _ = obj end

  abbrev pub turn_usage : KorakuStreamState → Value → List Outer
  turn_usage state u =
      if any (λ k. is_positive (get u k)) usage_keys
      then outer (text "koraku.turn_usage") (
          dict (
            (text "runId", str state.run_id)
            ∷ (text "innerSessionId", str state.inner_session_id)
            ∷ map (λ k. (k, int_or_zero (get u k))) usage_keys))
        ∷ []
      else []

  -- The start of the call that a content block begins.
  abbrev pub block_start : Option Subagent → Value → Start
  block_start sub block = record {
    tool_use_id = scoped_tool_use_id (or_blank repr (get block (text "id"))) sub;
    tool_name = truthy_or repr (get block (text "name")) (text "tool");
    tool_input = elim (get block (text "input")) [ some (obj fs) ↦ obj fs | _ ↦ obj end ];
    mode = null;
    subagent = sub;
  }

  abbrev pub pending_start : Option Subagent → Value → Start
  pending_start sub raw = record {
    tool_use_id = scoped_tool_use_id (or_blank repr (get raw (text "tool_use_id"))) sub;
    tool_name = truthy_or repr (get raw (text "name")) (text "tool");
    tool_input = or_null (get raw (text "input"));
    mode = null;
    subagent = sub;
  }

  abbrev pub with_subagent : Value → Option Subagent → Value
  with_subagent raw none = raw
  with_subagent raw (some sub) = extended raw (text "subagent") (subagent_value sub)

  abbrev pub forward : Text → KorakuStreamState → Value → KorakuStreamState × List Outer
  forward uuid state raw = (state, wrap_stream_event uuid state raw ∷ [])

  abbrev pub forward_message :
      Text → KorakuStreamState → Option Value → KorakuStreamState × List Outer
  forward_message uuid state none = (state, [])
  forward_message uuid state (some safe) = forward uuid state safe

  abbrev pub block_begins :
      Text → KorakuStreamState → Option Subagent → Value → KorakuStreamState × List Outer
  block_begins uuid state sub raw = elim (int_index (get raw (text "index"))) [
    | none ↦ forward uuid state raw
    | some idx ↦
        if block_is_call raw
        then tool_started_events dumps (suppress state idx) uuid
            (block_start sub (or_null (get raw (text "content_block"))))
        else forward uuid state raw
  ]

  -- A raw event by its type; `raw` has the agent that it comes from.
  unfoldable pub map_raw_event :
      Text → KorakuStreamState → Option Subagent → Value → KorakuStreamState × List Outer
  map_raw_event uuid state sub raw =
      let raw_type = or_blank repr (get raw (text "type")) in
      let idx = int_index (get raw (text "index")) in
      if raw_type == text "message_delta"
      then (
        state,
        turn_usage state (usage_of (get raw (text "usage")))
            ++ wrap_stream_event uuid state raw ∷ [],
      )
      else if raw_type == text "tool_use_pending"
      then tool_started_events dumps state uuid (pending_start sub raw)
      else if raw_type == text "content_block_start"
      then block_begins uuid state sub raw
      else if raw_type == text "content_block_delta"
      then if is_suppressed state idx || is_input_delta raw
        then (state, [])
        else forward uuid state raw
      else if raw_type == text "content_block_stop"
      then if is_suppressed state idx then (discard state idx, []) else forward uuid state raw
      else if raw_type == text "assistant_message"
      then forward_message uuid state (assistant_message_without_tool_calls raw)
      else forward uuid state raw

  unfoldable pub map_stream_event :
      Text → KorakuStreamState → Value → KorakuStreamState × List Outer
  map_stream_event uuid state event = elim (get event (text "event")) [
    | some (obj fs) ↦
        let sub = nested_subagent_payload repr event in
        map_raw_event uuid state sub (with_subagent (obj fs) sub)
    | _ ↦ (state, [])
  ]
