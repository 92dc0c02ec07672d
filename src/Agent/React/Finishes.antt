-- ===== src/Agent/React/Finishes.antt =====
-- When a run returns: its models do not raise, and its tool phases do not either.
use koraku.Prelude.{
  ℕ, zero, suc, ◌-◌, ◌≡◌, refl, sym, ◌∙◌, Bool, true, false, none, some, List, [], ◌∷◌, ◌++◌, ltb,
  if◌then◌else◌, keep, map, arith,
}
use koraku.Prelude.Text.{Text, text}
use koraku.Prelude.Json.{Value}
use koraku.Agent.Message.{user, plain, AgentMessage, message, SessionState, add_message}
use koraku.Agent.ToolExecutor.{ToolUse}
use koraku.Agent.ToolExecutor.Execution.{results, execute_tools_parallel, tool_result}
use koraku.Agent.ToolExecutor.Answers.{parallel_returns}
use koraku.Agent.ContextManager.{process_messages}
use koraku.Agent.React.{
  content_from, tool_uses_of, is_tool_use, budget_exhausted_user, timeout_message, StreamEnd, ended,
  stalled, disconnected, stream_raised, Stream, Round, Env, completed, finished, Outcome, Loop,
  Turn, stop, go_on, stopped, crash, reply_message, synthesize_final_reply, after_rounds,
  stream_event,
}
use koraku.Agent.React.Rounds.{
  tool_phase, count_round, take_round, after_events, iterate_rounds, first_loop,
  iterate_react_steps,
}
use koraku.Agent.React.Cases.{if_cases, content_of, take_round_cases}

-- The stream comes to an end of any kind but an exception.
abbrev pub EndsWell : Stream → Type 0
EndsWell stream = (e : Text) → ¬ (stream.ending ≡ stream_raised e)

-- The tool calls have a name, an input and an id.
abbrev pub IsComplete : List Value → Type 0
IsComplete content = (uses : List ToolUse) × (tool_uses_of (keep is_tool_use content) ≡ some uses)

module _ (env : Env)
    (rounds_end : (n : ℕ) (sent : List AgentMessage) → EndsWell ((env.round n).stream sent))
    (final_ends : (sent : List AgentMessage) → EndsWell (env.final_stream sent))
    (complete : (n : ℕ) (sent : List AgentMessage)
      → IsComplete (content_from [] ((env.round n).stream sent).events))
    (no_hooks : (n : ℕ) → (env.round n).active_run.pre_tool_use ≡ none) where
  synthesize_finishes :
      (reason : Text) (session : SessionState)
      → (synthesize_final_reply env reason session).ending ≡ finished
  unfolding synthesize_final_reply
  synthesize_finishes reason session = by_ending stream.ending refl
    where
      asked : SessionState
      asked = add_message session (message user (plain budget_exhausted_user))

      sent : List AgentMessage
      sent = process_messages env.repr env.loads env.manager asked.messages

      stream : Stream
      stream = env.final_stream sent

      answered : SessionState
      answered = add_message asked (reply_message (text "end_turn") (content_from [] stream.events))

      by_ending :
          (ending : StreamEnd)
          → stream.ending ≡ ending
          → (elim ending as (λ _. Outcome) [
            | stream_raised e ↦ crash (map stream_event stream.events) asked e
            | _ ↦
                stopped
                  (map stream_event stream.events ++ completed reason answered.step_count ∷ [])
                  answered
          ]).ending
            ≡ finished
      by_ending (stream_raised e) same = absurd (final_ends sent e same)
      by_ending ended same = refl
      by_ending stalled same = refl
      by_ending disconnected same = refl

  after_rounds_finish : (session : SessionState) → (after_rounds env session).ending ≡ finished
  unfolding after_rounds
  after_rounds_finish session =
      if_cases {A = Outcome} (λ o. o.ending ≡ finished) env.limits.synthesize_on_exhaust
        (synthesize_finishes (text "max_rounds_reached") session) refl

  -- A tool phase whose calls are complete ends with results.
  phase_returns :
      (n : ℕ) (content : List Value)
      → IsComplete content
      → (answer : List Value) × (tool_phase env (env.round n) (keep is_tool_use content)
          ≡ results answer)
  unfolding tool_phase
  phase_returns n content (uses, found) =
      rw (tool_phase, found) (by_time (env.round n).tools_time_out)
    where
      late : List Value
      late = map (λ u. tool_result u.id (timeout_message env.tool_phase_timeout) true) uses

      here : Round
      here = env.round n

      by_time :
          (b : Bool)
          → (answer : List Value) × ((if b
                then results late
                else execute_tools_parallel env.repr env.bind_error here.active_run
                    here.active_tools uses)
              ≡ results answer)
      by_time true = (late, refl)
      by_time false =
          parallel_returns env.repr env.bind_error here.active_run here.active_tools uses
            (no_hooks n)

  abbrev FinishesTurn : Turn → Type 0
  FinishesTurn (stop outcome) = outcome.ending ≡ finished
  FinishesTurn (go_on events next) = Unit {0}

  take_round-FinishesTurn : (loop : Loop) → FinishesTurn (take_round env loop)
  take_round-FinishesTurn loop =
      take_round_cases env loop FinishesTurn
        (synthesize_finishes (text "wall_clock_exhausted") ((count_round env loop).session))
        (λ events on. refl) (λ events on. refl)
        (λ sent events e on raised. absurd (rounds_end loop.session.step_count sent e raised))
        (λ sent events on none_left. refl)
        (λ sent events e on escapes.
          let (answer, returns) =
            phase_returns loop.session.step_count (content_of env loop sent)
              (complete loop.session.step_count sent) in
          absurd (grind (arith, sym returns ∙ escapes)))
        (λ sent flag events answer on eq. tt)

  iterate_finishes : (fuel : ℕ) (loop : Loop) → (iterate_rounds env fuel loop).ending ≡ finished
  unfolding iterate_rounds
  iterate_finishes zero loop = after_rounds_finish loop.session
  iterate_finishes (suc fuel) loop =
      if_cases {A = Outcome} (λ o. o.ending ≡ finished)
        (ltb loop.session.step_count env.limits.max_rounds)
        (by_turn (λ next. iterate_finishes fuel next) (take_round env loop)
          (take_round-FinishesTurn loop))
        (after_rounds_finish loop.session)
    where
      by_turn :
          ((next : Loop) → (iterate_rounds env fuel next).ending ≡ finished)
          → (turn : Turn) → FinishesTurn turn
          → (elim turn as (λ _. Outcome) [
            | stop outcome ↦ outcome
            | go_on events next ↦ after_events env events (iterate_rounds env fuel next)
          ]).ending
            ≡ finished
      by_turn later (stop outcome) h = h
      by_turn later (go_on events next) h = later next

  -- A run returns when no stream raises, every tool call that a model sends has a name, an input and
  -- an id, and no round has a `pre_tool_use` hook: whatever the handlers of the tools raise, however
  -- long they take, and whatever the approvals are, no exception leaves the loop.
  pub run_finishes : (session : SessionState) → (iterate_react_steps env session).ending ≡ finished
  unfolding iterate_react_steps
  run_finishes session =
      iterate_finishes (env.limits.max_rounds - session.step_count) (first_loop env session)
