-- ===== src/Agent/React/Tests.antt =====
-- Runs of the agent loop against a model that is given.
use koraku.Prelude.{
  refl, Bool, arith, ap, zero, suc, ℕ, ◌+◌, ◌-◌, ◌≤◌, max, ◌≡◌, true, false, none, List, [], ◌∷◌,
  ◌++◌,
}
use koraku.Prelude.Text.{Text, text}
use koraku.Prelude.Json.{Value, str, dict, obj, end}
use koraku.Agent.Message.{AgentMessage, SessionState, message, user, plain}
use koraku.Agent.Permissions.{default}
use koraku.Agent.ToolExecutor.{timed_out, returned}
use koraku.Agent.Budget.{standard}
use koraku.Agent.React.{
  assistant_message, StreamEnd, ended, stream_raised, Stream, Round, Env, finished, content_from,
  tool_uses_of,
}
use koraku.Agent.React.Rounds.{iterate_rounds, first_loop, iterate_react_steps}
use koraku.Agent.React.Ends.{ends_once, run_ends_once}
use koraku.Agent.Pairing.{is_paired}
use koraku.Agent.React.Paired.{RoundsLack, run_paired}
use koraku.Agent.React.Finishes.{IsComplete, run_finishes}
use koraku.Agent.React.History.{run_only_appends, more_fuel}

abbrev block : Text → Value
block body = dict ((text "type", str (text "text")) ∷ (text "text", str body) ∷ [])

abbrev read_call : Value
read_call = dict (
    (text "type", str (text "tool_use"))
    ∷ (text "id", str (text "t1"))
    ∷ (text "name", str (text "Read"))
    ∷ (text "input", obj end)
    ∷ [])

abbrev says : List Value → Stream
says content = record { events = assistant_message content ∷ []; ending = ended }

abbrev reply_at : ℕ → List Value
reply_at zero = read_call ∷ []
reply_at (suc n) = block (text "done") ∷ []

-- The model reads a file in the first round and answers in the second.
abbrev round_at : ℕ → Round
round_at n = record {
  now_at_start = n;
  cancelled_at_start = false;
  now_at_warning = n;
  stream = λ sent. says (reply_at n);
  cancelled_after_stream = false;
  active_run = record {
    permission_mode = default;
    has_emit = true;
    approval = λ ctx. timed_out;
    pre_tool_use = none;
  };
  active_tools =
      record { name = text "Read"; handler = λ input attempt. returned (text "ok") } ∷ [];
  tools_time_out = false;
}

abbrev some_env : Env
some_env = record {
  repr = λ v. [];
  loads = λ s. none;
  dumps = λ c. [];
  digest = λ v. [];
  bind_error = λ v. none;
  scale = λ n. n;
  tool_phase_timeout = 60;
  manager = record {
    max_messages = 50;
    summarize_after = 40;
    max_tool_result_chars = 1000;
    compact_tool_rounds = true;
  };
  limits = record {
    task_class = standard;
    max_rounds = 5;
    wall_seconds = 100;
    started_monotonic = 0;
    synthesize_on_exhaust = true;
  };
  round = round_at;
  final_stream = λ sent. says (block (text "summary") ∷ []);
}

abbrev asked : SessionState
asked = record { messages = message user (plain (text "read it")) ∷ []; step_count = 0 }

run_ends_once_example : ends_once (iterate_react_steps some_env asked) ≡ true
run_ends_once_example = run_ends_once some_env asked

run_only_appends_example :
    let final : SessionState = (iterate_react_steps some_env asked).session in
    (0 ≤ final.step_count)
    × (final.step_count ≤ max 0 5)
    × ((added : List AgentMessage) × (final.messages
          ≡ message user (plain (text "read it")) ∷ [] ++ added))
run_only_appends_example = run_only_appends some_env asked

more_fuel_example :
    iterate_rounds some_env (10 + (5 - 0)) (first_loop some_env asked)
    ≡ iterate_react_steps some_env asked
more_fuel_example = more_fuel some_env 10 asked

abbrev is_ended : StreamEnd → Bool
is_ended ended = true
is_ended _ = false

ended_well : (e : Text) → ¬ (ended ≡ stream_raised e)
ended_well e h = absurd (ground (arith, ap is_ended h))

rounds_lack : RoundsLack (text "tool_result") some_env
rounds_lack zero sent = refl
rounds_lack (suc n) sent = refl

complete :
    (n : ℕ) (sent : List AgentMessage)
    → IsComplete (content_from [] ((round_at n).stream sent).events)
unfolding tool_uses_of
complete zero sent = (_, refl)
complete (suc n) sent = ([], refl)

returns : (iterate_react_steps some_env asked).ending ≡ finished
returns =
    run_finishes some_env (λ n sent. ended_well) (λ sent. ended_well) complete (λ n. refl) asked

run_finishes_example : (iterate_react_steps some_env asked).ending ≡ finished
run_finishes_example =
    run_finishes some_env (λ n sent. ended_well) (λ sent. ended_well) complete (λ n. refl) asked

run_paired_example :
    is_paired (λ v. []) (iterate_react_steps some_env asked).session.messages ≡ true
run_paired_example =
    run_paired some_env rounds_lack (λ sent. refl) (λ sent. refl) asked refl returns
