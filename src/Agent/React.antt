-- ===== src/Agent/React.antt =====
-- koraku/agent/run.py: `_iterate_react_steps` and `_synthesize_final_reply`, the loop that calls the
-- model and runs the tools that it asks for.
pub mod Rounds
pub mod Cases
pub mod Ends
pub mod History
pub mod Answered
pub mod Paired
pub mod Finishes
pub mod Tests
use koraku.Prelude.{
  ◌>>=◌, ℕ, zero, suc, ◌+◌, ◌-◌, Bool, true, false, not, ◌&&◌, Option, none, some, List, [], ◌∷◌,
  ◌++◌, ltb, leb, if◌then◌else◌, length, keep, map,
}
use koraku.Prelude.Text.{Text, text, decimal}
use koraku.Prelude.Json.{Value, null, bool, num, str, arr, obj, get, has_type, as_text}
use koraku.Agent.Message.{
  Role, user, assistant, Content, plain, blocks, AgentMessage, message, SessionState, add_message,
}
use koraku.Agent.ContextManager.{ContextManager, process_messages, estimate_tokens}
use koraku.Agent.ToolExecutor.{Tool, ToolUse, ActiveRun}
use koraku.Agent.ToolExecutor.Execution.{
  Phase, results, phase_escaped, execute_tools_parallel, tool_result,
}
use koraku.Agent.Budget.{
  TurnLimits, warn_rounds, wall_exhausted, LoopTracker, new_tracker, record_calls, has_repeat,
}
use koraku.Agent.WorkingMemory.{Finding, format_working_memory_context, update_working_memory}

-- The events of a provider's stream: an assistant message with its content, or another event.
pub data StreamEvent : Type 0 where
  assistant_message : List Value → StreamEvent
  other_event : Value → StreamEvent

-- How the reading of a stream ends: the stream is over, it stalls past its time, the client goes
-- away, or it raises.
pub data StreamEnd : Type 0 where
  ended stalled disconnected : StreamEnd
  stream_raised : Text → StreamEnd

pub record Stream : Type 0 where
  pub events : List StreamEvent
  pub ending : StreamEnd

-- What a round meets: the clock at its two tests, the client, the model's answer to a context, and
-- the tools with their outcomes in this round.
pub record Round : Type 0 where
  pub now_at_start : ℕ
  pub cancelled_at_start : Bool
  pub now_at_warning : ℕ
  pub stream : List AgentMessage → Stream
  pub cancelled_after_stream : Bool
  pub active_run : ActiveRun
  pub active_tools : List Tool
  pub tools_time_out : Bool

-- The text functions of Python's libraries, and what the run is given. A round is found by the
-- number of the rounds before it; in `final_stream` only `stream_raised` and the other ends differ.
pub record Env : Type 0 where
  pub repr : Value → Text
  pub loads : Text → Option Value
  pub dumps : Content → Text
  pub digest : Value → Text
  pub bind_error : Value → Option Text
  pub scale : ℕ → ℕ
  pub tool_phase_timeout : ℕ
  pub manager : ContextManager
  pub limits : TurnLimits
  pub round : ℕ → Round
  pub final_stream : List AgentMessage → Stream

-- The events that the loop yields; `reason` of a completed run, and the steps of the session.
pub data Event : Type 0 where
  context : ℕ → ℕ → Event
  stream_event : StreamEvent → Event
  user_event : Value → Event
  memory_event : ℕ → Event
  completed : Text → ℕ → Event
  cancelled : ℕ → Event
  stream_timeout : Event

-- The loop returns, or an exception leaves it.
pub data Ending : Type 0 where
  finished : Ending
  crashed : Text → Ending

pub record Outcome : Type 0 where
  pub events : List Event
  pub session : SessionState
  pub ending : Ending

-- The variables of the loop.
pub record Loop : Type 0 where
  pub session : SessionState
  pub memory : List Finding
  pub budget_steering_sent : Bool
  pub tracker : LoopTracker

-- A round ends the run, or the next one follows.
pub data Turn : Type 0 where
  stop : Outcome → Turn
  go_on : List Event → Loop → Turn

abbrev pub loop_steering_user : Text
loop_steering_user =
    text
      "System: You repeated the same tool with the same arguments. Stop retrying. Use what you already learned, or return a concise partial answer to the user."

abbrev pub budget_steering_user : Text
budget_steering_user =
    text
      "System: Turn time or step budget is almost exhausted. Finish now: give the user a clear, concise answer summarizing what you accomplished and any blockers. Do not call tools."

abbrev pub budget_exhausted_user : Text
budget_exhausted_user =
    text
      "System: Turn budget is exhausted. Reply to the user now with your best summary. Do not call any tools."

abbrev pub stopped : List Event → SessionState → Outcome
stopped events session = record { events = events; session = session; ending = finished }

abbrev pub crash : List Event → SessionState → Text → Outcome
crash events session e = record { events = events; session = session; ending = crashed e }

-- The content of the last assistant message of a stream.
abbrev pub content_from : List Value → List StreamEvent → List Value
content_from content [] = content
content_from content (assistant_message bs ∷ rest) = content_from bs rest
content_from content (other_event e ∷ rest) = content_from content rest

abbrev pub reply_message : Text → List Value → AgentMessage
reply_message reason bs = record {
  role = assistant;
  content = blocks bs;
  stop_reason = some reason;
}

-- tool_use["name"], tool_use["input"], tool_use["id"]: `none` where one is missing
abbrev pub tool_use_of : Value → Option ToolUse
tool_use_of block = do
  name ← get block (text "name")
  input ← get block (text "input")
  id ← get block (text "id")
  some (record { name = name; input = input; id = id })

unfoldable pub tool_uses_of : List Value → Option (List ToolUse)
tool_uses_of [] = some []
tool_uses_of (block ∷ rest) = elim (tool_use_of block) [
  | none ↦ none
  | some u ↦ elim (tool_uses_of rest) [ none ↦ none | some us ↦ some (u ∷ us) ]
]

abbrev pub is_tool_use : Value → Bool
is_tool_use block = has_type block (text "tool_use")

abbrev pub timeout_message : ℕ → Text
timeout_message seconds =
    text "Error: Tool execution exceeded " ++ (decimal seconds ++ text "s for this step.")

module _ (env : Env) where
  unfoldable pub synthesize_final_reply : Text → SessionState → Outcome
  synthesize_final_reply reason session =
      let asked = add_message session (message user (plain budget_exhausted_user)) in
      let stream =
        env.final_stream (process_messages env.repr env.loads env.manager asked.messages) in
      let events = map stream_event stream.events in
      let answered =
        add_message asked (reply_message (text "end_turn") (content_from [] stream.events)) in
      elim stream.ending [
        | stream_raised e ↦ crash events asked e
        | _ ↦ stopped (events ++ completed reason answered.step_count ∷ []) answered
      ]

  -- What follows the loop.
  unfoldable pub after_rounds : SessionState → Outcome
  after_rounds session =
      if env.limits.synthesize_on_exhaust
      then synthesize_final_reply (text "max_rounds_reached") session
      else stopped (completed (text "max_steps_reached") session.step_count ∷ []) session
