-- ===== src/Agent/Budget/Tests.antt =====
-- The turn limits and the loop tracker on concrete calls.
use koraku.Prelude.{false, ◌≡◌, refl, true, some, List, [], ◌∷◌, take_last}
use koraku.Prelude.Text.{Text, text, split}
use koraku.Prelude.Json.{Value, str, num}
use koraku.Agent.ToolExecutor.{Tool, ToolUse, returned}
use koraku.Agent.Budget.{
  TurnLimits, should_warn, rounds_exhausted, warn_rounds, wall_exhausted, Settings, research,
  standard, integration_compose, classify_turn_task, classify_composio_goal, new_tracker,
  record_calls, has_repeat, equal_pair,
}
use koraku.Agent.Budget.Repeat.{tracker_after, all_calls, has_repeat-eq-last_two}

abbrev some_settings : Settings
some_settings = record {
  research_max_steps = 30;
  chat_max_rounds_standard = 12;
  composio_subagent_max_steps_simple = 4;
  composio_subagent_max_steps_compose = 6;
  composio_subagent_max_steps = 10;
  automation_run_timeout_seconds = 600;
  chat_turn_wall_seconds_research = 900;
  chat_turn_wall_seconds_standard = 300;
  composio_subagent_wall_seconds_simple = 60;
  composio_subagent_wall_seconds_compose = 90;
  composio_subagent_wall_seconds = 120;
}

abbrev named : Text → Tool
named n = record { name = n; handler = λ input attempt. returned (text "ok") }

-- The text of a number or of a string stands for its digest.
abbrev digest : Value → Text
digest (num s) = s
digest (str s) = s
digest _ = []

abbrev read_call : Text → ToolUse
read_call path = record { name = str (text "Read"); input = str path; id = str (text "t") }

abbrev repeated : List (List ToolUse)
repeated = (read_call (text "a") ∷ []) ∷ (read_call (text "b") ∷ read_call (text "b") ∷ []) ∷ []

classifies :
    (classify_turn_task (some (text "Compare two phones")) ≡ research)
    × (classify_turn_task (some (text "hello")) ≡ standard)
    × (classify_composio_goal (some (text "Draft a reply")) ≡ integration_compose)
unfolding classify_turn_task classify_composio_goal split
classifies = (refl, refl, refl)

repeats : has_repeat (tracker_after digest digest new_tracker repeated) ≡ true
unfolding has_repeat record_calls
repeats = refl

has_repeat-eq-last_two_example :
    has_repeat (tracker_after digest digest new_tracker repeated)
    ≡ equal_pair (take_last 2 (all_calls digest digest repeated))
has_repeat-eq-last_two_example = has_repeat-eq-last_two digest digest repeated

abbrev five_rounds : TurnLimits
five_rounds = record {
  task_class = standard;
  max_rounds = 5;
  wall_seconds = 100;
  started_monotonic = 7;
  synthesize_on_exhaust = true;
}

warnings :
    (should_warn (λ n. n) five_rounds 20 4 ≡ false)
    × (should_warn (λ n. n) five_rounds 107 4 ≡ true)
    × (should_warn (λ n. n) five_rounds 20 5 ≡ true)
    × (rounds_exhausted five_rounds 4 ≡ false)
    × (rounds_exhausted five_rounds 5 ≡ true)
unfolding should_warn rounds_exhausted warn_rounds wall_exhausted
warnings = (refl, refl, refl, refl, refl)
