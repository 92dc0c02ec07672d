-- ===== src/Agent/React/Cases.antt =====
-- The branches of a round, as a rule: what holds at every end of `take_round` holds of it.
use koraku.Prelude.{
  suc, ◌≡◌, refl, Bool, true, false, not, List, [], ◌∷◌, ◌++◌, if◌then◌else◌, length, keep, map,
  all,
}
use koraku.Prelude.Text.{Text, text}
use koraku.Prelude.Json.{Value}
use koraku.Agent.Message.{AgentMessage, SessionState, add_message}
use koraku.Agent.ContextManager.{estimate_tokens}
use koraku.Agent.ToolExecutor.Execution.{Phase, results, phase_escaped}
use koraku.Agent.React.{
  StreamEvent, StreamEnd, ended, stalled, disconnected, stream_raised, Stream, Round, Env, Event,
  context, stream_event, completed, cancelled, stream_timeout, Loop, Turn, stop, go_on, stopped,
  crash, content_from, reply_message, is_tool_use, synthesize_final_reply,
}
use koraku.Agent.React.Rounds.{
  warns, context_messages, tool_phase, after_tools, result_events, run_tools, after_stream,
  call_model, count_round, take_round,
}

-- The run ends with this event.
abbrev pub is_terminal : Event → Bool
is_terminal (completed _ _) = true
is_terminal (cancelled _) = true
is_terminal stream_timeout = true
is_terminal _ = false

abbrev pub goes_on : List Event → Bool
goes_on events = all (λ e. not (is_terminal e)) events

pub if_cases :
    {A : Type 0} (P : A → Type 0) {x y : A} (b : Bool) → P x → P y → P (if b then x else y)
if_cases P true h k = h
if_cases P false h k = k

pub stream_events-goes_on : (es : List StreamEvent) → goes_on (map stream_event es) ≡ true
stream_events-goes_on [] = refl
stream_events-goes_on (e ∷ es) = stream_events-goes_on es

-- The round that the loop is in, and the answer of its model to a context.
abbrev pub round_of : Env → Loop → Round
round_of env loop = env.round loop.session.step_count

abbrev pub content_of : Env → Loop → List AgentMessage → List Value
content_of env loop sent = content_from [] ((round_of env loop).stream sent).events

abbrev pub phase_of : Env → Loop → List AgentMessage → Phase
phase_of env loop sent =
    tool_phase env (round_of env loop) (keep is_tool_use (content_of env loop sent))

module _ (env : Env) (loop : Loop) (P : Turn → Type 0)
    (out_of_time : P (
      stop (
        synthesize_final_reply env (text "wall_clock_exhausted") ((count_round env loop).session))))
    (client_gone : (events : List Event)
      → goes_on events ≡ true
      → P (
          stop (
            stopped
              (events ++ cancelled (suc loop.session.step_count) ∷ [])
              ((count_round env loop).session))))
    (stream_stalled : (events : List Event)
      → goes_on events ≡ true
      → P (stop (stopped (events ++ stream_timeout ∷ []) ((count_round env loop).session))))
    (raises : (sent : List AgentMessage) (events : List Event) (e : Text)
      → goes_on events ≡ true
      → ((round_of env loop).stream sent).ending ≡ stream_raised e
      → P (stop (crash events ((count_round env loop).session) e)))
    (answers : (sent : List AgentMessage) (events : List Event)
      → goes_on events ≡ true
      → keep is_tool_use (content_of env loop sent) ≡ []
      → P (
          stop (
            stopped (events ++ completed (text "end_turn") (suc loop.session.step_count) ∷ []) (
              add_message
                ((count_round env loop).session)
                (reply_message (text "end_turn") (content_of env loop sent))))))
    (tool_raises : (sent : List AgentMessage) (events : List Event) (e : Text)
      → goes_on events ≡ true
      → phase_of env loop sent ≡ phase_escaped e
      → P (
          stop (
            crash events
              (add_message
                ((count_round env loop).session)
                (reply_message (text "tool_use") (content_of env loop sent)))
              e)))
    (tools_answer : (sent : List AgentMessage) (flag : Bool) (events : List Event)
        (answer : List Value)
      → goes_on events ≡ true
      → phase_of env loop sent ≡ results answer
      → let counted : Loop = record (count_round env loop) { budget_steering_sent = flag } in
        let next : Loop =
          after_tools env counted
            (add_message counted.session
              (reply_message (text "tool_use") (content_of env loop sent)))
            (keep is_tool_use (content_of env loop sent))
            answer in
        P (go_on (result_events env events counted answer next) next)) where
  run_tools_cases :
      (sent : List AgentMessage) (flag : Bool) (events : List Event)
      → goes_on events ≡ true
      → P (
          run_tools env
            (round_of env loop)
            events
            (record (count_round env loop) { budget_steering_sent = flag })
            (content_of env loop sent))
  unfolding run_tools
  run_tools_cases sent flag events h = by_phase (phase_of env loop sent) refl
    where
      by_phase :
          (phase : Phase)
          → phase_of env loop sent ≡ phase
          → let counted : Loop = record (count_round env loop) { budget_steering_sent = flag } in
            let content : List Value = content_of env loop sent in
            let session : SessionState =
              add_message counted.session (reply_message (text "tool_use") content) in
            P (elim phase [
              | phase_escaped e ↦ stop (crash events session e)
              | results answer ↦
                  let next = after_tools env counted session (keep is_tool_use content) answer in
                  go_on (result_events env events counted answer next) next
            ])
      by_phase (results answer) same = tools_answer sent flag events answer h same
      by_phase (phase_escaped e) same = tool_raises sent events e h same

  after_stream_cases :
      (sent : List AgentMessage) (flag : Bool) (events : List Event)
      → goes_on events ≡ true
      → P (
          after_stream env
            (round_of env loop)
            events
            (record (count_round env loop) { budget_steering_sent = flag })
            (content_of env loop sent))
  unfolding after_stream add_message
  after_stream_cases sent flag events h =
      if_cases P ((round_of env loop).cancelled_after_stream) (client_gone events h)
        (by_calls (keep is_tool_use (content_of env loop sent)) refl)
    where
      by_calls :
          (calls : List Value)
          → keep is_tool_use (content_of env loop sent) ≡ calls
          → let counted : Loop = record (count_round env loop) { budget_steering_sent = flag } in
            let content : List Value = content_of env loop sent in
            P (elim calls [
              | [] ↦
                  let session =
                    add_message counted.session (reply_message (text "end_turn") content) in
                  stop (
                    stopped (events ++ completed (text "end_turn") session.step_count ∷ []) session)
              | _ ∷ _ ↦ run_tools env (round_of env loop) events counted content
            ])
      by_calls [] none_left = answers sent events h none_left
      by_calls (c ∷ cs) some_left = run_tools_cases sent flag events h

  call_model_cases : P (call_model env (round_of env loop) (count_round env loop))
  unfolding call_model
  call_model_cases = by_ending (stream.ending) refl
    where
      here : Round
      here = round_of env loop

      counted : Loop
      counted = count_round env loop

      sent : List AgentMessage
      sent =
          context_messages env (round_of env loop) (count_round env loop)
            ((count_round env loop).session)

      stream : Stream
      stream = (round_of env loop).stream sent

      before : List Event
      before =
          context (length sent) (estimate_tokens env.dumps sent) ∷ map stream_event stream.events

      flag : Bool
      flag = if warns env here counted counted.session then true else counted.budget_steering_sent

      by_ending :
          (ending : StreamEnd)
          → stream.ending ≡ ending
          → P (elim ending [
            | ended ↦
                after_stream env here before
                  (record counted { budget_steering_sent = flag })
                  (content_from [] stream.events)
            | stalled ↦ stop (stopped (before ++ stream_timeout ∷ []) counted.session)
            | disconnected ↦
                stop (stopped (before ++ cancelled counted.session.step_count ∷ []) counted.session)
            | stream_raised e ↦ stop (crash before counted.session e)
          ])
      by_ending ended same =
          after_stream_cases sent flag before (stream_events-goes_on stream.events)
      by_ending stalled same = stream_stalled before (stream_events-goes_on stream.events)
      by_ending disconnected same = client_gone before (stream_events-goes_on stream.events)
      by_ending (stream_raised e) same =
          raises sent before e (stream_events-goes_on stream.events) same

  pub take_round_cases : P (take_round env loop)
  unfolding take_round
  take_round_cases = if_cases P _ out_of_time (if_cases P _ (client_gone [] refl) call_model_cases)
