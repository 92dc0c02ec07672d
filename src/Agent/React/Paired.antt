-- ===== src/Agent/React/Paired.antt =====
-- A run keeps a conversation in which the tool results answer the tool calls.
use koraku.Prelude.{
  ℕ, zero, suc, ◌-◌, ◌≡◌, refl, sym, ◌∙◌, true, List, [], ◌∷◌, ◌++◌, ltb, keep, arith,
}
use koraku.Prelude.Text.{Text, text}
use koraku.Prelude.Json.{Value}
use koraku.Agent.Message.{user, plain, blocks, AgentMessage, message, SessionState, add_message}
use koraku.Agent.Pairing.{lacks, ids_of-lacks, is_paired}
use koraku.Agent.Budget.{has_repeat, record_calls}
use koraku.Agent.ToolExecutor.Execution.{results}
use koraku.Agent.React.{
  content_from, is_tool_use, Round, Env, finished, Outcome, Loop, Turn, stop, go_on, reply_message,
  loop_steering_user, after_rounds,
}
use koraku.Agent.React.Rounds.{
  tool_phase, after_tools, count_round, take_round, after_events, iterate_rounds, first_loop,
  iterate_react_steps, calls_of,
}
use koraku.Agent.React.Cases.{if_cases, round_of, content_of, take_round_cases}
use koraku.Agent.React.Answered.{
  paired-add, paired_add_two, answer_ids, no_use_ids, use_ids, phase_answers, synthesize-Paired,
  Paired,
}

-- What the model of a round, and the model of the final answer, does not send.
abbrev pub RoundsLack : Text → Env → Type 0
RoundsLack type env =
    (n : ℕ) (sent : List AgentMessage)
    → lacks type (content_from [] ((env.round n).stream sent).events) ≡ true

abbrev pub FinalLacks : Text → Env → Type 0
FinalLacks type env =
    (sent : List AgentMessage) → lacks type (content_from [] (env.final_stream sent).events) ≡ true

module _ (env : Env) (no_results : RoundsLack (text "tool_result") env)
    (no_final_calls : FinalLacks (text "tool_use") env)
    (no_final_results : FinalLacks (text "tool_result") env) where
  after_rounds-Paired :
      (session : SessionState)
      → Paired env session
      → Paired env ((after_rounds env session).session)
  unfolding after_rounds
  after_rounds-Paired session h =
      if_cases {A = Outcome} (λ o. Paired env (o.session)) env.limits.synthesize_on_exhaust
        (synthesize-Paired env (text "max_rounds_reached") session no_final_calls no_final_results
          h)
        h

  -- The answer of the model has no results, and the answer to it answers its calls.
  after_tools-Paired :
      (loop : Loop) (session : SessionState) (content answer : List Value) (here : Round)
      → Paired env session
      → lacks (text "tool_result") content ≡ true
      → tool_phase env here (keep is_tool_use content) ≡ results answer
      → Paired env (
          (after_tools env loop
            (add_message session (reply_message (text "tool_use") content))
            (keep is_tool_use content)
            answer).session)
  unfolding after_tools add_message
  after_tools-Paired loop session content answer here h none_of phase =
      let (uses, found, all_answer) =
        phase_answers env here (keep is_tool_use content) answer phase in
      let (answered, no_calls) = answer_ids env.repr uses answer all_answer in
      let asks : AgentMessage = reply_message (text "tool_use") content in
      let both : List AgentMessage =
        (session.messages ++ asks ∷ []) ++ message user (blocks answer) ∷ [] in
      let paired : is_paired env.repr both ≡ true =
        paired_add_two env.repr session.messages asks (message user (blocks answer)) h
          (ids_of-lacks env.repr (text "tool_result") (text "tool_use_id") content none_of)
          (answered ∙ sym (use_ids env.repr content uses found)) no_calls in
      if_cases (Paired env)
        (has_repeat
          (record_calls env.repr env.digest loop.tracker (calls_of env (keep is_tool_use content))))
        (paired-add env.repr both (message user (plain loop_steering_user)) paired refl refl) paired

  -- A round that ends the run with no exception, or goes on.
  abbrev PairedTurn : Turn → Type 0
  PairedTurn (stop outcome) = outcome.ending ≡ finished → Paired env outcome.session
  PairedTurn (go_on events next) = Paired env next.session

  take_round-PairedTurn : (loop : Loop) → Paired env loop.session → PairedTurn (take_round env loop)
  unfolding add_message
  take_round-PairedTurn loop h =
      take_round_cases env loop PairedTurn
        (λ done.
          synthesize-Paired env (text "wall_clock_exhausted") ((count_round env loop).session)
            no_final_calls no_final_results h)
        (λ events on done. h) (λ events on done. h) (λ sent events e on raised done. h)
        (λ sent events on none_left done.
          paired-add env.repr loop.session.messages
            (reply_message (text "end_turn") (content_of env loop sent)) h
            (ids_of-lacks env.repr (text "tool_result") (text "tool_use_id")
              (content_of env loop sent) (no_results loop.session.step_count sent))
            (no_use_ids env.repr (content_of env loop sent) none_left))
        (λ sent events e on escapes done. absurd (grind (arith, done)))
        (λ sent flag events answer on eq.
          after_tools-Paired (record (count_round env loop) { budget_steering_sent = flag })
            ((count_round env loop).session) (content_of env loop sent) answer (round_of env loop) h
            (no_results loop.session.step_count sent) eq)

  iterate-Paired :
      (fuel : ℕ) (loop : Loop)
      → Paired env loop.session
      → (iterate_rounds env fuel loop).ending ≡ finished
      → Paired env ((iterate_rounds env fuel loop).session)
  unfolding iterate_rounds
  iterate-Paired zero loop h = λ done. after_rounds-Paired loop.session h
  iterate-Paired (suc fuel) loop h =
      if_cases {A = Outcome} (λ o. o.ending ≡ finished → Paired env (o.session))
        (ltb loop.session.step_count env.limits.max_rounds)
        (by_turn (λ next. iterate-Paired fuel next) (take_round env loop)
          (take_round-PairedTurn loop h))
        (λ done. after_rounds-Paired loop.session h)
    where
      by_turn :
          ((next : Loop)
            → Paired env next.session
            → (iterate_rounds env fuel next).ending ≡ finished
            → Paired env ((iterate_rounds env fuel next).session))
          → (turn : Turn) → PairedTurn turn
          → let outcome : Outcome = elim turn as (λ _. Outcome) [
            | stop outcome ↦ outcome
            | go_on events next ↦ after_events env events (iterate_rounds env fuel next)
          ] in
            outcome.ending ≡ finished → Paired env outcome.session
      by_turn later (stop outcome) k = k
      by_turn later (go_on events next) k = later next k

  -- A run that returns keeps the results answering the calls: of a conversation in which each
  -- message's tool results answer, id by id, the tool calls of the message before it, it makes one
  -- where they do. The models send no tool results, and the final answer calls no tools.
  pub run_paired :
      (session : SessionState)
      → is_paired env.repr session.messages ≡ true
      → (iterate_react_steps env session).ending ≡ finished
      → is_paired env.repr (iterate_react_steps env session).session.messages ≡ true
  unfolding iterate_react_steps
  run_paired session =
      iterate-Paired (env.limits.max_rounds - session.step_count) (first_loop env session)
