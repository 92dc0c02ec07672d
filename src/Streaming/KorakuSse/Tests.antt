-- ===== src/Streaming/KorakuSse/Tests.antt =====
-- Streams of a turn with a call, and of a turn beside a nested agent.
use koraku.Prelude.{◌≡◌, refl, true, none, some, List, [], ◌∷◌, text_equality}
use koraku.Prelude.Text.{Text, text, strip}
use koraku.Prelude.Json.{Value, num, str, arr, items, dict, null}
use koraku.Streaming.KorakuSse.State.{KorakuStreamState}
use koraku.Streaming.KorakuSse.ToolEvents.{task, Start, tool_started_events, scoped_tool_use_id}
use koraku.Streaming.KorakuSse.StreamEvents.{map_raw_event}
use koraku.Streaming.KorakuSse.MapEvents.{Python, map_all_events, finished_event, call_of}
use koraku.Streaming.KorakuSse.Shown.{is_clean}
use koraku.Streaming.KorakuSse.Hidden.{sent_is_clean}
use koraku.Streaming.KorakuSse.Lifecycle.{
  inner_field, start_name, at_once, other_start, ends_as_started,
}
use koraku.Streaming.KorakuSse.Suppressed.{nested_call_hides_text}

abbrev python : Python
python = record {
  repr = λ v. [];
  dumps = λ v. text "{}";
  int_of = λ v. v;
  now = 2000;
  uuid = λ n. text "u";
}

abbrev fresh_state : KorakuStreamState
fresh_state = record {
  pty_session_id = text "p";
  sandbox_id = text "s";
  inner_session_id = text "i";
  run_id = text "r";
  started_ms = 1000;
  resolved_model = text "m";
  eff_provider = text "anthropic";
  suppressed_tool_block_indexes = [];
  tool_calls_by_id = [];
  started_tool_use_ids = [];
}

abbrev call_block : Text → Value
call_block id = dict (
    (text "type", str (text "tool_use"))
    ∷ (text "id", str id)
    ∷ (text "name", str (text "Read"))
    ∷ (text "input", dict ((text "path", str (text "x.md")) ∷ []))
    ∷ [])

abbrev stream_of : Value → Value
stream_of raw = dict ((text "type", str (text "stream_event")) ∷ (text "event", raw) ∷ [])

abbrev block_starts : Value
block_starts = dict (
    (text "type", str (text "content_block_start"))
    ∷ (text "index", num (text "1"))
    ∷ (text "content_block", call_block (text "t1"))
    ∷ [])

abbrev text_delta : Value
text_delta = dict (
    (text "type", str (text "content_block_delta"))
    ∷ (text "index", num (text "1"))
    ∷ (
      text "delta",
      dict ((text "type", str (text "text_delta")) ∷ (text "text", str (text "hi")) ∷ []),
    )
    ∷ [])

abbrev whole_message : Value
whole_message = dict (
    (text "type", str (text "assistant_message"))
    ∷ (text "message", dict ((text "content", arr (items (call_block (text "t1") ∷ []))) ∷ []))
    ∷ [])

abbrev result_block : Text → Value
result_block id = dict (
    (text "type", str (text "tool_result"))
    ∷ (text "tool_use_id", str id)
    ∷ (text "content", str (text "ok"))
    ∷ [])

abbrev user_event : Value
user_event = dict (
    (text "type", str (text "user"))
    ∷ (text "message", dict ((text "content", arr (items (result_block (text "t1") ∷ []))) ∷ []))
    ∷ [])

abbrev turn : List Value
turn =
    stream_of block_starts
    ∷ stream_of whole_message
    ∷ user_event
    ∷ dict ((text "type", str (text "agent.completed")) ∷ [])
    ∷ []

sent_is_clean_example : is_clean ((map_all_events python fresh_state turn).1) ≡ true
sent_is_clean_example = sent_is_clean python fresh_state turn

abbrev start_of : Text → Text → Start
start_of id name = record {
  tool_use_id = id;
  tool_name = name;
  tool_input = dict ((text "path", str (text "x.md")) ∷ []);
  mode = null;
  subagent = none;
}

abbrev after_first : KorakuStreamState
after_first =
    (tool_started_events python.dumps fresh_state (text "u") (start_of (text "t1") (text "Read"))).0

abbrev after_second : KorakuStreamState
after_second =
    (tool_started_events python.dumps after_first (text "u") (start_of (text "t2") (text "Glob"))).0

ends_as_started_example :
    let (last, sent) =
      finished_event python (text "u") after_second none (result_block (text "t1")) in
    (inner_field sent (text "tool_use_id") ≡ some (str (strip (text "t1"))))
    × (inner_field sent (text "tool_name")
        ≡ some (str (start_name (start_of (text "t1") (text "Read")))))
    × (inner_field sent (text "tool_input") ≡ some (dict ((text "path", str (text "x.md")) ∷ [])))
    × (call_of last (strip (text "t1")) ≡ none)
unfolding strip scoped_tool_use_id
ends_as_started_example =
    ends_as_started python fresh_state after_second (text "u") (start_of (text "t1") (text "Read"))
      none (result_block (text "t1")) refl refl
      (other_start (at_once after_first) (text "u") (start_of (text "t2") (text "Glob")) refl)

nested_call_hides_text_example :
    (map_raw_event
      (λ v. [])
      (λ v. text "{}")
      (λ v. v)
      (text "u")
      ((map_raw_event
        (λ v. [])
        (λ v. text "{}")
        (λ v. v)
        (text "u")
        fresh_state
        (some (task (text "explore")))
        block_starts).0)
      none
      text_delta).1
    ≡ []
nested_call_hides_text_example =
    nested_call_hides_text (λ v. []) (λ v. text "{}") (λ v. v) (text "u") (text "u") fresh_state
      (task (text "explore")) block_starts text_delta (text "1") refl refl refl refl refl
