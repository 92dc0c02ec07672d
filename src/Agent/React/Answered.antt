-- ===== src/Agent/React/Answered.antt =====
-- The messages that a round and the final answer add: results that answer the calls before them.
use koraku.Prelude.{
  ◌>>=◌, ◌≡◌, refl, ap, sym, ◌∙◌, Bool, true, false, Option, none, some, List, [], ◌∷◌, ◌++◌,
  if◌then◌else◌, keep, map, all, all-keep, arith, text_equality,
}
use mathlib.Core.List.{append_assoc}
use mathlib.Core.Path.{subst}
use mathlib.Core.Option.{some-injective, none-ne-some}
use koraku.Prelude.Text.{Text, text}
use koraku.Prelude.Json.{Value, get, is_text, as_text, text_or}
use koraku.Agent.Message.{user, plain, AgentMessage, message, SessionState, add_message}
use koraku.Agent.Pairing.{
  lacks, texts_beq-nil, ids_of-lacks, ids_of-keep, ids_of, call_ids, result_ids, texts_beq_refl,
  paired_from, is_paired,
}
use koraku.Agent.ContextManager.{process_messages}
use koraku.Agent.ToolExecutor.{ToolUse}
use koraku.Agent.ToolExecutor.Execution.{
  Phase, results, phase_escaped, execute_tools_parallel, tool_result,
}
use koraku.Agent.ToolExecutor.Answers.{AllAnswer, PhaseAnswers, parallel-PhaseAnswers}
use koraku.Agent.React.{
  content_from, budget_exhausted_user, StreamEnd, ended, stalled, disconnected, stream_raised,
  tool_use_of, tool_uses_of, is_tool_use, timeout_message, Stream, Round, Env, completed, Outcome,
  stopped, crash, reply_message, synthesize_final_reply, stream_event,
}
use koraku.Agent.React.Rounds.{tool_phase}

module _ (repr : Value → Text) where
  paired-append :
      (pending : List Text) (xs ys : List AgentMessage)
      → paired_from repr pending xs ≡ true
      → is_paired repr ys ≡ true
      → paired_from repr pending (xs ++ ys) ≡ true
  paired-append pending [] ys h k = ap (λ p. paired_from repr p ys) (texts_beq-nil pending h) ∙ k
  paired-append pending (x ∷ xs) ys h k =
      ground (arith, h, paired-append (call_ids repr x) xs ys, k)

  -- A message without calls and results, and a message with calls before one with their results.
  pub paired-add :
      (ms : List AgentMessage) (m : AgentMessage)
      → is_paired repr ms ≡ true
      → result_ids repr m ≡ []
      → call_ids repr m ≡ []
      → is_paired repr (ms ++ m ∷ []) ≡ true
  paired-add ms m h no_results no_calls =
      paired-append [] ms (m ∷ []) h (rw (no_results, no_calls) refl)

  pub paired_add_two :
      (ms : List AgentMessage) (a b : AgentMessage)
      → is_paired repr ms ≡ true
      → result_ids repr a ≡ []
      → result_ids repr b ≡ call_ids repr a
      → call_ids repr b ≡ []
      → is_paired repr ((ms ++ a ∷ []) ++ b ∷ []) ≡ true
  paired_add_two ms a b h no_results answers no_calls =
      ap (is_paired repr) (append_assoc ms (a ∷ []) (b ∷ []))
      ∙ paired-append [] ms (a ∷ b ∷ []) h
          (rw (no_results, answers, no_calls, texts_beq_refl (call_ids repr a)) refl)

  abbrev pub id_texts : List ToolUse → List Text
  id_texts uses = map (λ u. as_text repr u.id) uses

  pub answer_ids :
      (uses : List ToolUse) (answer : List Value)
      → AllAnswer uses answer
      → (ids_of repr (text "tool_result") (text "tool_use_id") answer ≡ id_texts uses)
        × (ids_of repr (text "tool_use") (text "id") answer ≡ [])
  answer_ids [] [] h = (refl, refl)
  answer_ids [] (b ∷ bs) h = absurd h
  answer_ids (u ∷ us) [] h = absurd h
  answer_ids (u ∷ us) (b ∷ bs) ((content, is_error, e), h) =
      let (results_rest, calls_rest) = answer_ids us bs h in
      rw (e, results_rest, calls_rest) (refl, refl)

  use_id :
      (b : Value) (u : ToolUse)
      → tool_use_of b ≡ some u
      → text_or repr [] (get b (text "id")) ≡ as_text repr u.id
  use_id b u h = by_fields (get b (text "name")) (get b (text "input")) (get b (text "id")) h
    where
      by_fields :
          (name input id : Option Value)
          → (do
            n ← name
            i ← input
            d ← id
            let read : ToolUse = record { name = n; input = i; id = d } in some read)
            ≡ some u
          → text_or repr [] id ≡ as_text repr u.id
      by_fields (some n) (some i) (some d) e = ap (λ u. as_text repr u.id) (some-injective _ _ e)
      by_fields (some n) (some i) none e = absurd (none-ne-some _ e)
      by_fields (some n) none id e = absurd (none-ne-some _ e)
      by_fields none input id e = absurd (none-ne-some _ e)

  -- The ids of the calls that `tool_uses_of` reads.
  calls_ids :
      (calls : List Value) (uses : List ToolUse)
      → all is_tool_use calls ≡ true
      → tool_uses_of calls ≡ some uses
      → ids_of repr (text "tool_use") (text "id") calls ≡ id_texts uses
  unfolding tool_uses_of
  calls_ids [] uses h e = ap id_texts (some-injective _ _ e)
  calls_ids (b ∷ bs) uses h e =
      by_block (λ us. calls_ids bs us (ground (arith, h))) (tool_use_of b) refl (tool_uses_of bs)
        refl e
    where
      by_block :
          ((us : List ToolUse)
            → tool_uses_of bs ≡ some us
            → ids_of repr (text "tool_use") (text "id") bs ≡ id_texts us)
          → (first : Option ToolUse) → tool_use_of b ≡ first
          → (rest : Option (List ToolUse)) → tool_uses_of bs ≡ rest
          → (elim first as (λ _. Option (List ToolUse)) [
            | none ↦ none
            | some u ↦ elim rest [ none ↦ none | some us ↦ some (u ∷ us) ]
          ])
            ≡ some uses
          → ids_of repr (text "tool_use") (text "id") (b ∷ bs) ≡ id_texts uses
      by_block later (some u) same (some us) sames eq =
          let called : is_text (get b (text "type")) (text "tool_use") ≡ true = ground (arith, h) in
          rw (ids_of, called, use_id b u same, later us sames) (ap id_texts (some-injective _ _ eq))
      by_block later (some u) same none sames eq = absurd (none-ne-some _ eq)
      by_block later none same rest sames eq = absurd (none-ne-some _ eq)

  pub use_ids :
      (content : List Value) (uses : List ToolUse)
      → tool_uses_of (keep is_tool_use content) ≡ some uses
      → ids_of repr (text "tool_use") (text "id") content ≡ id_texts uses
  use_ids content uses h =
      sym (ids_of-keep repr (text "tool_use") (text "id") content)
      ∙ calls_ids (keep is_tool_use content) uses (all-keep is_tool_use content) h

  pub no_use_ids :
      (content : List Value)
      → keep is_tool_use content ≡ []
      → ids_of repr (text "tool_use") (text "id") content ≡ []
  no_use_ids content h =
      sym (ids_of-keep repr (text "tool_use") (text "id") content)
      ∙ ap (ids_of repr (text "tool_use") (text "id")) h

module _ (env : Env) where
  abbrev pub Paired : SessionState → Type 0
  Paired session = is_paired env.repr session.messages ≡ true

  timeouts-AllAnswer :
      (uses : List ToolUse)
      → AllAnswer uses
          (map (λ u. tool_result u.id (timeout_message env.tool_phase_timeout) true) uses)
  timeouts-AllAnswer [] = tt
  timeouts-AllAnswer (u ∷ us) = ((_, _, refl), timeouts-AllAnswer us)

  -- A tool phase with results answers the calls.
  pub phase_answers :
      (here : Round) (calls answer : List Value)
      → tool_phase env here calls ≡ results answer
      → (uses : List ToolUse) × (tool_uses_of calls ≡ some uses) × AllAnswer uses answer
  unfolding tool_phase
  phase_answers here calls answer h = by_uses (tool_uses_of calls) refl h
    where
      by_time :
          (uses : List ToolUse) (b : Bool)
          → PhaseAnswers uses (
              if b
              then results
                  (map (λ u. tool_result u.id (timeout_message env.tool_phase_timeout) true) uses)
              else execute_tools_parallel env.repr env.bind_error here.active_run here.active_tools
                  uses)
      by_time uses true = timeouts-AllAnswer uses
      by_time uses false =
          parallel-PhaseAnswers env.repr env.bind_error here.active_run here.active_tools uses

      by_uses :
          (found : Option (List ToolUse))
          → tool_uses_of calls ≡ found
          → (elim found as (λ _. Phase) [
            | none ↦ phase_escaped (text "KeyError")
            | some uses ↦
                if here.tools_time_out
                then results
                    (map (λ u. tool_result u.id (timeout_message env.tool_phase_timeout) true) uses)
                else execute_tools_parallel env.repr env.bind_error here.active_run
                    here.active_tools uses
          ])
            ≡ results answer
          → (uses : List ToolUse) × (tool_uses_of calls ≡ some uses) × AllAnswer uses answer
      by_uses none same e = absurd (grind (arith, e))
      by_uses (some uses) same e =
          (uses, same, subst (PhaseAnswers uses) e (by_time uses here.tools_time_out))

  pub synthesize-Paired :
      (reason : Text) (session : SessionState)
      → ((sent : List AgentMessage)
          → lacks (text "tool_use") (content_from [] (env.final_stream sent).events) ≡ true)
      → ((sent : List AgentMessage)
          → lacks (text "tool_result") (content_from [] (env.final_stream sent).events) ≡ true)
      → Paired session
      → Paired ((synthesize_final_reply env reason session).session)
  unfolding synthesize_final_reply add_message
  synthesize-Paired reason session no_calls no_results h = by_ending stream.ending
    where
      asked : SessionState
      asked = add_message session (message user (plain budget_exhausted_user))

      stream : Stream
      stream = env.final_stream (process_messages env.repr env.loads env.manager asked.messages)

      answer : AgentMessage
      answer = reply_message (text "end_turn") (content_from [] stream.events)

      asked-Paired : Paired asked
      asked-Paired =
          paired-add env.repr session.messages (message user (plain budget_exhausted_user)) h refl
            refl

      answered-Paired : Paired (add_message asked answer)
      answered-Paired =
          paired-add env.repr asked.messages answer asked-Paired
            (ids_of-lacks env.repr (text "tool_result") (text "tool_use_id")
              (content_from [] stream.events)
              (no_results (process_messages env.repr env.loads env.manager asked.messages)))
            (ids_of-lacks env.repr (text "tool_use") (text "id") (content_from [] stream.events)
              (no_calls (process_messages env.repr env.loads env.manager asked.messages)))

      done : Outcome
      done =
          stopped
            (map stream_event stream.events
              ++ completed reason ((add_message asked answer).step_count) ∷ [])
            (add_message asked answer)

      by_ending :
          (ending : StreamEnd)
          → Paired (
              (elim ending as (λ _. Outcome) [
                | stream_raised e ↦ crash (map stream_event stream.events) asked e
                | _ ↦ done
              ]).session)
      by_ending (stream_raised e) = asked-Paired
      by_ending ended = answered-Paired
      by_ending stalled = answered-Paired
      by_ending disconnected = answered-Paired
