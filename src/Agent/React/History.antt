-- ===== src/Agent/React/History.antt =====
-- What a run does to the session: the rounds that it counts and the messages that it adds.
use koraku.Prelude.{
  ℕ, zero, suc, ◌+◌, ◌-◌, ◌≤◌, ◌<◌, max, ◌≡◌, refl, ap, ◌∙◌, sym, List, [], ◌∷◌, ◌++◌, map, ltb,
  ltb→lt, le→ltb-false, arith, inl, inr, Bool-cases,
}
use mathlib.Core.List.{append-nil, append_assoc}
use koraku.Prelude.Text.{Text, text}
use koraku.Prelude.Json.{Value}
use koraku.Agent.Message.{AgentMessage, SessionState, add_message, message, user, blocks, plain}
use koraku.Agent.ContextManager.{process_messages}
use koraku.Agent.Budget.{has_repeat, record_calls}
use koraku.Agent.React.{
  content_from, budget_exhausted_user, StreamEnd, ended, stalled, disconnected, stream_raised,
  Stream, Env, completed, Outcome, Loop, Turn, stop, go_on, stopped, crash, reply_message,
  loop_steering_user, synthesize_final_reply, after_rounds, stream_event,
}
use koraku.Agent.React.Rounds.{
  after_tools, count_round, take_round, after_events, iterate_rounds, first_loop,
  iterate_react_steps, calls_of,
}
use koraku.Agent.React.Cases.{if_cases, content_of, take_round_cases}

-- The sessions that messages added one after another lead to.
pub data Extends : SessionState → SessionState → Type 0 where
  same : (s : SessionState) → Extends s s
  adds : {s t : SessionState} → Extends s t → (m : AgentMessage) → Extends s (add_message t m)

Extends-step_count : {s t : SessionState} → Extends s t → t.step_count ≡ s.step_count
unfolding add_message
Extends-step_count (same s) = refl
Extends-step_count (adds h m) = Extends-step_count h

Extends-messages :
    {s t : SessionState}
    → Extends s t
    → (added : List AgentMessage) × (t.messages ≡ s.messages ++ added)
unfolding add_message
Extends-messages (same s) = ([], sym (append-nil s.messages))
Extends-messages {s = s} (adds h m) =
    let (added, eq) = Extends-messages h in
    (added ++ m ∷ [], ap (λ ms. ms ++ m ∷ []) eq ∙ append_assoc s.messages added (m ∷ []))

module _ (env : Env) where
  synthesize-Extends :
      (reason : Text) (session : SessionState)
      → Extends session ((synthesize_final_reply env reason session).session)
  unfolding synthesize_final_reply
  synthesize-Extends reason session = by_ending stream.ending
    where
      asked : SessionState
      asked = add_message session (message user (plain budget_exhausted_user))

      stream : Stream
      stream = env.final_stream (process_messages env.repr env.loads env.manager asked.messages)

      answer : AgentMessage
      answer = reply_message (text "end_turn") (content_from [] stream.events)

      done : Outcome
      done =
          stopped
            (map stream_event stream.events
              ++ completed reason ((add_message asked answer).step_count) ∷ [])
            (add_message asked answer)

      by_ending :
          (ending : StreamEnd)
          → Extends session (
              (elim ending as (λ _. Outcome) [
                | stream_raised e ↦ crash (map stream_event stream.events) asked e
                | _ ↦ done
              ]).session)
      by_ending (stream_raised e) = adds (same session) (message user (plain budget_exhausted_user))
      by_ending ended =
          adds (adds (same session) (message user (plain budget_exhausted_user))) answer
      by_ending stalled =
          adds (adds (same session) (message user (plain budget_exhausted_user))) answer
      by_ending disconnected =
          adds (adds (same session) (message user (plain budget_exhausted_user))) answer

  after_rounds-Extends :
      (session : SessionState) → Extends session ((after_rounds env session).session)
  unfolding after_rounds
  after_rounds-Extends session =
      if_cases {A = Outcome} (λ o. Extends session (o.session)) env.limits.synthesize_on_exhaust
        (synthesize-Extends (text "max_rounds_reached") session) (same session)

  abbrev ExtendsTurn : SessionState → Turn → Type 0
  ExtendsTurn start (stop outcome) = Extends start outcome.session
  ExtendsTurn start (go_on events next) = Extends start next.session

  after_tools-Extends :
      (loop : Loop) (start session : SessionState) (calls answer : List Value)
      → Extends start session
      → Extends start ((after_tools env loop session calls answer).session)
  unfolding after_tools
  after_tools-Extends loop start session calls answer h =
      if_cases (Extends start)
        (has_repeat (record_calls env.repr env.digest loop.tracker (calls_of env calls)))
        (adds (adds h (message user (blocks answer))) (message user (plain loop_steering_user)))
        (adds h (message user (blocks answer)))

  take_round-ExtendsTurn :
      (loop : Loop) → ExtendsTurn ((count_round env loop).session) (take_round env loop)
  take_round-ExtendsTurn loop =
      let start : SessionState = (count_round env loop).session in
      take_round_cases env loop (ExtendsTurn start)
        (synthesize-Extends (text "wall_clock_exhausted") start) (λ events h. same start)
        (λ events h. same start) (λ sent events e h raised. same start)
        (λ sent events h none_left.
          adds (same start) (reply_message (text "end_turn") (content_of env loop sent)))
        (λ sent events e h escapes.
          adds (same start) (reply_message (text "tool_use") (content_of env loop sent)))
        (λ sent flag events answer h eq.
          after_tools-Extends (record (count_round env loop) { budget_steering_sent = flag }) start
            (add_message start (reply_message (text "tool_use") (content_of env loop sent))) _
            answer (adds (same start) (reply_message (text "tool_use") (content_of env loop sent))))

  -- The end of a run from the session of its start.
  abbrev Within : SessionState → SessionState → Type 0
  Within start final =
      (start.step_count ≤ final.step_count)
      × (final.step_count ≤ max start.step_count env.limits.max_rounds)
      × ((added : List AgentMessage) × (final.messages ≡ start.messages ++ added))

  Extends-Within : {s t : SessionState} → Extends s t → Within s t
  Extends-Within h =
      (omega (arith, Extends-step_count h), omega (arith, Extends-step_count h), Extends-messages h)

  counted-Within :
      (loop : Loop) (next final : SessionState)
      → loop.session.step_count < env.limits.max_rounds
      → Extends ((count_round env loop).session) next
      → Within next final
      → Within loop.session final
  counted-Within loop next final below h (low, high, (added, eq)) =
      let count : next.step_count ≡ suc loop.session.step_count = Extends-step_count h in
      let (first, eq_first) = Extends-messages h in
      (
        omega (arith, count, low),
        omega (arith, count, high, below),
        (
          first ++ added,
          eq ∙ (ap (λ ms. ms ++ added) eq_first ∙ append_assoc loop.session.messages first added),
        ),
      )

  iterate-Within :
      (fuel : ℕ) (loop : Loop) → Within loop.session ((iterate_rounds env fuel loop).session)
  unfolding iterate_rounds
  iterate-Within zero loop = Extends-Within (after_rounds-Extends loop.session)
  iterate-Within (suc fuel) loop =
      elim (Bool-cases (ltb loop.session.step_count env.limits.max_rounds)) [
        | inl below ↦ rw below (
            by_turn (λ next. iterate-Within fuel next) (ltb→lt _ _ below) (take_round env loop)
              (take_round-ExtendsTurn loop))
        | inr over ↦ rw over (Extends-Within (after_rounds-Extends loop.session))
      ]
    where
      by_turn :
          ((next : Loop) → Within next.session ((iterate_rounds env fuel next).session))
          → loop.session.step_count < env.limits.max_rounds
          → (turn : Turn) → ExtendsTurn ((count_round env loop).session) turn
          → Within loop.session (
              (elim turn as (λ _. Outcome) [
                | stop outcome ↦ outcome
                | go_on events next ↦ after_events env events (iterate_rounds env fuel next)
              ]).session)
      by_turn later below (stop outcome) h =
          counted-Within loop outcome.session outcome.session below h
            (Extends-Within (same outcome.session))
      by_turn later below (go_on events next) h =
          counted-Within loop next.session ((iterate_rounds env fuel next).session) below h
            (later next)

  -- A run never counts beyond `max_rounds`, nor back, and it changes no message of the session: it
  -- adds messages at the end.
  pub run_only_appends :
      (session : SessionState)
      → let final : SessionState = (iterate_react_steps env session).session in
        (session.step_count ≤ final.step_count)
        × (final.step_count ≤ max session.step_count env.limits.max_rounds)
        × ((added : List AgentMessage) × (final.messages ≡ session.messages ++ added))
  unfolding iterate_react_steps
  run_only_appends session =
      iterate-Within (env.limits.max_rounds - session.step_count) (first_loop env session)

  more_fuel_step :
      (fuel : ℕ) (loop : Loop)
      → env.limits.max_rounds - loop.session.step_count ≤ fuel
      → iterate_rounds env (suc fuel) loop ≡ iterate_rounds env fuel loop
  unfolding iterate_rounds
  more_fuel_step zero loop h =
      rw (le→ltb-false loop.session.step_count env.limits.max_rounds (omega (arith, h))) refl
  more_fuel_step (suc fuel) loop h =
      elim (Bool-cases (ltb loop.session.step_count env.limits.max_rounds)) [
        | inl below ↦ rw below (
            by_turn (λ next. more_fuel_step fuel next) (ltb→lt _ _ below) (take_round env loop)
              (take_round-ExtendsTurn loop))
        | inr over ↦ rw over refl
      ]
    where
      by_turn :
          ((next : Loop)
            → env.limits.max_rounds - next.session.step_count ≤ fuel
            → iterate_rounds env (suc fuel) next ≡ iterate_rounds env fuel next)
          → loop.session.step_count < env.limits.max_rounds
          → (turn : Turn) → ExtendsTurn ((count_round env loop).session) turn
          → (elim turn as (λ _. Outcome) [
            | stop outcome ↦ outcome
            | go_on events next ↦ after_events env events (iterate_rounds env (suc fuel) next)
          ])
            ≡ (elim turn as (λ _. Outcome) [
              | stop outcome ↦ outcome
              | go_on events next ↦ after_events env events (iterate_rounds env fuel next)
            ])
      by_turn later below (stop outcome) e = refl
      by_turn later below (go_on events next) e =
          ap (after_events env events) (later next (omega (arith, h, Extends-step_count e)))

  -- The fuel of a run is enough: with more of it the run is the same.
  pub more_fuel :
      (extra : ℕ) (session : SessionState)
      → iterate_rounds env
          (extra + (env.limits.max_rounds - session.step_count))
          (first_loop env session)
        ≡ iterate_react_steps env session
  unfolding iterate_react_steps
  more_fuel zero session =
      ap (λ n. iterate_rounds env n (first_loop env session))
        {x = 0 + (env.limits.max_rounds - session.step_count)}
        {y = env.limits.max_rounds - session.step_count} (omega arith)
  more_fuel (suc extra) session =
      let left : ℕ = env.limits.max_rounds - session.step_count in
      ap (λ n. iterate_rounds env n (first_loop env session)) {x = suc extra + left}
        {y = suc (extra + left)} (omega arith)
      ∙ (more_fuel_step (extra + left) (first_loop env session) (omega arith)
          ∙ more_fuel extra session)
