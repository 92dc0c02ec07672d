-- ===== src/Agent/React/Rounds.antt =====
-- koraku/agent/run.py: a round of `_iterate_react_steps`, and the loop of the rounds.
use koraku.Prelude.{
  ℕ, zero, suc, ◌-◌, Bool, true, false, not, ◌&&◌, none, some, List, [], ◌∷◌, ◌++◌, ltb, leb,
  if◌then◌else◌, length, keep, map,
}
use koraku.Prelude.Text.{text}
use koraku.Prelude.Json.{Value}
use koraku.Agent.Message.{user, plain, blocks, AgentMessage, message, SessionState, add_message}
use koraku.Agent.ContextManager.{process_messages, estimate_tokens}
use koraku.Agent.ToolExecutor.{ToolUse}
use koraku.Agent.ToolExecutor.Execution.{
  Phase, results, phase_escaped, execute_tools_parallel, tool_result,
}
use koraku.Agent.Budget.{warn_rounds, wall_exhausted, new_tracker, record_calls, has_repeat}
use koraku.Agent.WorkingMemory.{Finding, format_working_memory_context, update_working_memory}
use koraku.Agent.React.{
  ended, stalled, disconnected, stream_raised, Round, Env, Event, context, stream_event, user_event,
  memory_event, completed, cancelled, stream_timeout, Outcome, Loop, Turn, stop, go_on,
  loop_steering_user, budget_steering_user, stopped, crash, content_from, reply_message,
  tool_uses_of, is_tool_use, timeout_message, synthesize_final_reply, after_rounds,
}

module _ (env : Env) where
  -- The steering message is added to the context of the first late round.
  abbrev pub warns : Round → Loop → SessionState → Bool
  warns here loop session =
      not loop.budget_steering_sent
      && leb (warn_rounds env.scale env.limits) session.step_count
      && not (wall_exhausted env.limits here.now_at_warning)

  unfoldable pub context_messages : Round → Loop → SessionState → List AgentMessage
  context_messages here loop session =
      let processed = process_messages env.repr env.loads env.manager session.messages in
      let remembered : List AgentMessage = elim (format_working_memory_context loop.memory) [
        | some m ↦ processed ++ m ∷ []
        | none ↦ processed
      ] in
      if warns here loop session
      then remembered ++ message user (plain budget_steering_user) ∷ []
      else remembered

  -- The calls run unless the phase runs out of time; a call that lacks a field raises before.
  unfoldable pub tool_phase : Round → List Value → Phase
  tool_phase here tool_blocks = elim (tool_uses_of tool_blocks) [
    | none ↦ phase_escaped (text "KeyError")
    | some uses ↦
        if here.tools_time_out
        then results
            (map (λ u. tool_result u.id (timeout_message env.tool_phase_timeout) true) uses)
        else execute_tools_parallel env.repr env.bind_error here.active_run here.active_tools uses
  ]

  abbrev pub calls_of : List Value → List ToolUse
  calls_of tool_blocks = elim (tool_uses_of tool_blocks) [ none ↦ [] | some uses ↦ uses ]

  -- The loop's variables after a tool phase that ends with results.
  unfoldable pub after_tools : Loop → SessionState → List Value → List Value → Loop
  after_tools loop session tool_blocks blocks_of_results =
      let answered = add_message session (message user (blocks blocks_of_results)) in
      let tracker = record_calls env.repr env.digest loop.tracker (calls_of tool_blocks) in
      record loop {
        session =
            if has_repeat tracker
            then add_message answered (message user (plain loop_steering_user))
            else answered;
        memory = update_working_memory env.repr env.loads loop.memory blocks_of_results;
        tracker = tracker;
      }

  abbrev pub memory_events : List Finding → List Event
  memory_events [] = []
  memory_events (f ∷ fs) = memory_event (length (f ∷ fs)) ∷ []

  abbrev pub result_events : List Event → Loop → List Value → Loop → List Event
  result_events events loop blocks_of_results next =
      events ++ (map user_event blocks_of_results ++ memory_events next.memory)

  -- What follows the stream of a round whose answer calls tools.
  unfoldable pub run_tools : Round → List Event → Loop → List Value → Turn
  run_tools here events loop content =
      let tool_blocks = keep is_tool_use content in
      let session = add_message loop.session (reply_message (text "tool_use") content) in
      elim (tool_phase here tool_blocks) [
        | phase_escaped e ↦ stop (crash events session e)
        | results blocks_of_results ↦
            let next = after_tools loop session tool_blocks blocks_of_results in
            go_on (result_events events loop blocks_of_results next) next
      ]

  -- What follows a stream that has come to its end.
  unfoldable pub after_stream : Round → List Event → Loop → List Value → Turn
  after_stream here events loop content =
      if here.cancelled_after_stream
      then stop (stopped (events ++ cancelled loop.session.step_count ∷ []) loop.session)
      else elim (keep is_tool_use content) [
        | [] ↦
            let session = add_message loop.session (reply_message (text "end_turn") content) in
            stop (stopped (events ++ completed (text "end_turn") session.step_count ∷ []) session)
        | _ ∷ _ ↦ run_tools here events loop content
      ]

  -- The round from the call of the model on; `loop` has counted the round.
  unfoldable pub call_model : Round → Loop → Turn
  call_model here loop =
      let sent = context_messages here loop loop.session in
      let stream = here.stream sent in
      let events =
        context (length sent) (estimate_tokens env.dumps sent) ∷ map stream_event stream.events in
      let warned = record loop {
        budget_steering_sent =
            if warns here loop loop.session then true else loop.budget_steering_sent;
      } in
      elim stream.ending [
        | ended ↦ after_stream here events warned (content_from [] stream.events)
        | stalled ↦ stop (stopped (events ++ stream_timeout ∷ []) loop.session)
        | disconnected ↦
            stop (stopped (events ++ cancelled loop.session.step_count ∷ []) loop.session)
        | stream_raised e ↦ stop (crash events loop.session e)
      ]

  abbrev pub count_round : Loop → Loop
  count_round loop = record loop {
    session = record loop.session { step_count = suc loop.session.step_count };
  }

  unfoldable pub take_round : Loop → Turn
  take_round loop =
      let here = env.round loop.session.step_count in
      let counted = count_round loop in
      if wall_exhausted env.limits here.now_at_start
      then stop (synthesize_final_reply env (text "wall_clock_exhausted") counted.session)
      else if here.cancelled_at_start
      then stop (stopped (cancelled counted.session.step_count ∷ []) counted.session)
      else call_model here counted

  abbrev pub after_events : List Event → Outcome → Outcome
  after_events events outcome = record outcome { events = events ++ outcome.events }

  -- `while session.step_count < max_rounds`, on fuel.
  unfoldable pub iterate_rounds : ℕ → Loop → Outcome
  iterate_rounds zero loop = after_rounds env loop.session
  iterate_rounds (suc fuel) loop =
      if ltb loop.session.step_count env.limits.max_rounds
      then elim (take_round loop) [
        | stop outcome ↦ outcome
        | go_on events next ↦ after_events events (iterate_rounds fuel next)
      ]
      else after_rounds env loop.session

  abbrev pub first_loop : SessionState → Loop
  first_loop session = record {
    session = session;
    memory = [];
    budget_steering_sent = false;
    tracker = new_tracker;
  }

  -- Every round counts a step, so the rounds that are left are fuel enough.
  unfoldable pub iterate_react_steps : SessionState → Outcome
  iterate_react_steps session =
      iterate_rounds (env.limits.max_rounds - session.step_count) (first_loop session)
