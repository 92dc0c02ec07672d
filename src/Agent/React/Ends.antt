-- ===== src/Agent/React/Ends.antt =====
-- How a run ends: its last event, and the number of its rounds.
use koraku.Prelude.{
  ℕ, zero, suc, ◌≡◌, refl, Bool, true, false, not, ◌&&◌, List, [], ◌∷◌, ◌++◌, ltb, map, all-append,
  arith,
}
use koraku.Prelude.Text.{Text, text}
use koraku.Prelude.Json.{Value}
use koraku.Agent.Message.{SessionState, add_message, message, user, plain}
use koraku.Agent.ContextManager.{process_messages}
use koraku.Agent.WorkingMemory.{Finding}
use koraku.Agent.React.{
  budget_exhausted_user, content_from, StreamEnd, ended, stalled, disconnected, stream_raised,
  Stream, Env, Event, user_event, completed, cancelled, stream_timeout, stream_event, Ending,
  finished, crashed, Outcome, Loop, Turn, stop, go_on, stopped, crash, reply_message,
  synthesize_final_reply, after_rounds,
}
use koraku.Agent.React.Rounds.{
  memory_events, count_round, take_round, after_events, iterate_rounds, first_loop,
  iterate_react_steps,
}
use koraku.Agent.React.Cases.{
  is_terminal, goes_on, if_cases, stream_events-goes_on, take_round_cases,
}

-- The last event ends the run, and no event before it does.
abbrev pub one_terminal : List Event → Bool
one_terminal [] = false
one_terminal (e ∷ []) = is_terminal e
one_terminal (e ∷ f ∷ rest) = not (is_terminal e) && one_terminal (f ∷ rest)

-- A run that returns ends with its only terminal event; one that an exception leaves has none.
abbrev ends_by : Ending → List Event → Bool
ends_by finished events = one_terminal events
ends_by (crashed e) events = goes_on events

abbrev pub ends_once : Outcome → Bool
ends_once outcome = ends_by outcome.ending outcome.events

one_terminal-append :
    (before events : List Event)
    → goes_on before ≡ true
    → one_terminal events ≡ true
    → one_terminal (before ++ events) ≡ true
one_terminal-append [] events h k = k
one_terminal-append (b ∷ []) [] h k = absurd (ground (arith, k))
one_terminal-append (b ∷ []) (e ∷ es) h k = ground (arith, h, k)
one_terminal-append (b ∷ c ∷ rest) events h k =
    ground (arith, h, one_terminal-append (c ∷ rest) events, k)

ends_by-append :
    (ending : Ending) (before events : List Event)
    → goes_on before ≡ true
    → ends_by ending events ≡ true
    → ends_by ending (before ++ events) ≡ true
ends_by-append finished before events h k = one_terminal-append before events h k
ends_by-append (crashed e) before events h k =
    ground (arith, all-append (λ e. not (is_terminal e)) before events, h, k)

module _ (env : Env) where
  synthesize-ends :
      (reason : Text) (session : SessionState)
      → ends_once (synthesize_final_reply env reason session) ≡ true
  unfolding synthesize_final_reply
  synthesize-ends reason session = by_ending stream.ending
    where
      asked : SessionState
      asked = add_message session (message user (plain budget_exhausted_user))

      stream : Stream
      stream = env.final_stream (process_messages env.repr env.loads env.manager asked.messages)

      answered : SessionState
      answered = add_message asked (reply_message (text "end_turn") (content_from [] stream.events))

      finishes :
          ends_once (
            stopped
              (map stream_event stream.events ++ completed reason answered.step_count ∷ [])
              answered)
          ≡ true
      finishes =
          one_terminal-append (map stream_event stream.events)
            (completed reason answered.step_count ∷ []) (stream_events-goes_on stream.events) refl

      by_ending :
          (ending : StreamEnd)
          → ends_once (elim ending [
            | stream_raised e ↦ crash (map stream_event stream.events) asked e
            | _ ↦
                stopped
                  (map stream_event stream.events ++ completed reason answered.step_count ∷ [])
                  answered
          ])
            ≡ true
      by_ending (stream_raised e) = stream_events-goes_on stream.events
      by_ending ended = finishes
      by_ending stalled = finishes
      by_ending disconnected = finishes

  after_rounds-ends : (session : SessionState) → ends_once (after_rounds env session) ≡ true
  unfolding after_rounds
  after_rounds-ends session =
      if_cases (λ o. ends_once o ≡ true) env.limits.synthesize_on_exhaust
        (synthesize-ends (text "max_rounds_reached") session) refl

  abbrev EndsTurn : Turn → Type 0
  EndsTurn (stop outcome) = ends_once outcome ≡ true
  EndsTurn (go_on events next) = goes_on events ≡ true

  user_events-goes_on : (answer : List Value) → goes_on (map user_event answer) ≡ true
  user_events-goes_on [] = refl
  user_events-goes_on (b ∷ bs) = user_events-goes_on bs

  memory_events-goes_on : (memory : List Finding) → goes_on (memory_events env memory) ≡ true
  memory_events-goes_on [] = refl
  memory_events-goes_on (f ∷ fs) = refl

  goes_on-append :
      (xs ys : List Event) → goes_on xs ≡ true → goes_on ys ≡ true → goes_on (xs ++ ys) ≡ true
  goes_on-append xs ys h k = ground (arith, all-append (λ e. not (is_terminal e)) xs ys, h, k)

  take_round-EndsTurn : (loop : Loop) → EndsTurn (take_round env loop)
  take_round-EndsTurn loop =
      take_round_cases env loop EndsTurn
        (synthesize-ends (text "wall_clock_exhausted") ((count_round env loop).session))
        (λ events h.
          one_terminal-append events (cancelled (suc loop.session.step_count) ∷ []) h refl)
        (λ events h. one_terminal-append events (stream_timeout ∷ []) h refl)
        (λ sent events e h raised. h)
        (λ sent events h none_left.
          one_terminal-append events
            (completed (text "end_turn") (suc loop.session.step_count) ∷ []) h refl)
        (λ sent events e h escapes. h)
        (λ sent flag events answer h same. goes_on-append events _ h (
          goes_on-append (map user_event answer) _ (user_events-goes_on answer)
            (memory_events-goes_on _)))

  iterate-ends : (fuel : ℕ) (loop : Loop) → ends_once (iterate_rounds env fuel loop) ≡ true
  unfolding iterate_rounds
  iterate-ends zero loop = after_rounds-ends loop.session
  iterate-ends (suc fuel) loop =
      if_cases (λ o. ends_once o ≡ true) (ltb loop.session.step_count env.limits.max_rounds)
        (by_turn (λ next. iterate-ends fuel next) (take_round env loop) (take_round-EndsTurn loop))
        (after_rounds-ends loop.session)
    where
      by_turn :
          ((next : Loop) → ends_once (iterate_rounds env fuel next) ≡ true)
          → (turn : Turn) → EndsTurn turn
          → ends_once (elim turn [
            | stop outcome ↦ outcome
            | go_on events next ↦ after_events env events (iterate_rounds env fuel next)
          ])
            ≡ true
      by_turn later (stop outcome) h = h
      by_turn later (go_on events next) h =
          let rest : Outcome = iterate_rounds env fuel next in
          ends_by-append rest.ending events rest.events h (later next)

  -- A run yields exactly one terminal event, its last, when it returns; when an exception leaves it,
  -- it has yielded none.
  pub run_ends_once : (session : SessionState) → ends_once (iterate_react_steps env session) ≡ true
  unfolding iterate_react_steps
  run_ends_once session = iterate-ends _ (first_loop env session)
