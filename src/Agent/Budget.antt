-- ===== src/Agent/Budget.antt =====
-- koraku/agent/budget.py: the limits of a turn, the tools of an integration worker and the detection
-- of repeated calls.
pub mod Appendix
pub mod Repeat
pub mod Tests
use koraku.Prelude.{
  ℕ, suc, ◌+◌, ◌*◌, min, max, Bool, true, false, not, ◌&&◌, ◌||◌, Option, none, some, List, [], ◌∷◌,
  ◌++◌, ltb, leb, if◌then◌else◌, any, keep, map, contains, length, take_last, text_equality, ◌==◌,
}
use koraku.Prelude.Text.{Text, text, lower, split, contains_text, or_empty}
use koraku.Prelude.Json.{Value}
use koraku.Agent.Message.{or_blank}
use koraku.Agent.ToolExecutor.{Tool, ToolUse}

abbrev pub research_markers : List Text
research_markers =
    text "research"
    ∷ text "compare"
    ∷ text "comparison"
    ∷ text " vs "
    ∷ text "versus"
    ∷ text "investigate"
    ∷ text "comprehensive"
    ∷ text "thorough"
    ∷ text "analyze the project"
    ∷ text "full stack"
    ∷ text "end to end"
    ∷ text "price"
    ∷ text "pricing"
    ∷ text "cost "
    ∷ text "cheapest"
    ∷ text "best deal"
    ∷ text "where to buy"
    ∷ text "in stock"
    ∷ text "availability"
    ∷ text "retailer"
    ∷ []

abbrev pub composio_simple_markers : List Text
composio_simple_markers =
    text "mark as read"
    ∷ text "mark read"
    ∷ text "unread"
    ∷ text "inbox"
    ∷ text "check email"
    ∷ text "check mail"
    ∷ text "any email"
    ∷ text "read my email"
    ∷ text "fetch email"
    ∷ text "list email"
    ∷ text "list message"
    ∷ text "how many email"
    ∷ text "calendar today"
    ∷ text "what's on my calendar"
    ∷ text "whats on my calendar"
    ∷ text "upcoming event"
    ∷ []

abbrev pub composio_compose_markers : List Text
composio_compose_markers =
    text "draft"
    ∷ text "send email"
    ∷ text "reply to"
    ∷ text "compose"
    ∷ text "create event"
    ∷ text "schedule meeting"
    ∷ text "post to"
    ∷ text "share file"
    ∷ []

abbrev pub composio_full_markers : List Text
composio_full_markers =
    text "investigate"
    ∷ text "audit"
    ∷ text "every label"
    ∷ text "all folders"
    ∷ text "spreadsheet"
    ∷ text "export"
    ∷ text "migrate"
    ∷ text "bulk"
    ∷ []

abbrev pub composio_worker_strip_base_tools : List Text
composio_worker_strip_base_tools =
    text "TodoWrite"
    ∷ text "ComposioRun"
    ∷ text "WebSearch"
    ∷ text "WebFetch"
    ∷ text "Bash"
    ∷ text "Read"
    ∷ text "Write"
    ∷ text "Edit"
    ∷ text "Glob"
    ∷ text "Grep"
    ∷ text "MemorySearch"
    ∷ text "MemorySave"
    ∷ text "AutomationsList"
    ∷ text "AutomationsCreate"
    ∷ text "AutomationsUpdate"
    ∷ text "AutomationsDelete"
    ∷ []

abbrev pub composio_worker_strip_compose : List Text
composio_worker_strip_compose = text "WebSearch" ∷ text "WebFetch" ∷ text "Bash" ∷ []

-- The task classes are strings of the source.
pub data TurnTask : Type 0 where
  automation research standard : TurnTask

pub data ComposioGoal : Type 0 where
  integration_simple integration_compose integration_full : ComposioGoal

-- The settings that the limits are read from, as integers that are not negative; the wall-clock
-- limits in ticks.
pub record Settings : Type 0 where
  pub research_max_steps : ℕ
  pub chat_max_rounds_standard : ℕ
  pub composio_subagent_max_steps_simple : ℕ
  pub composio_subagent_max_steps_compose : ℕ
  pub composio_subagent_max_steps : ℕ
  pub automation_run_timeout_seconds : ℕ
  pub chat_turn_wall_seconds_research : ℕ
  pub chat_turn_wall_seconds_standard : ℕ
  pub composio_subagent_wall_seconds_simple : ℕ
  pub composio_subagent_wall_seconds_compose : ℕ
  pub composio_subagent_wall_seconds : ℕ

unfoldable pub classify_turn_task : Option Text → TurnTask
classify_turn_task user_input =
    let body = lower (or_empty user_input) in
    if any (contains_text body) research_markers || ltb 120 (length (split body))
    then research
    else standard

unfoldable pub classify_composio_goal : Option Text → ComposioGoal
classify_composio_goal goal =
    let g = lower (or_empty goal) in
    if any (contains_text g) composio_full_markers
    then integration_full
    else if any (contains_text g) composio_compose_markers
    then integration_compose
    else if any (contains_text g) composio_simple_markers || leb (length (split g)) 36
    then integration_simple
    else integration_full

-- An override below zero gives the same limit as zero.
unfoldable pub composio_max_rounds_for_goal : Settings → Option Text → Option ℕ → ℕ
composio_max_rounds_for_goal settings goal (some override) =
    max 1 (min override settings.research_max_steps)
composio_max_rounds_for_goal settings goal none = elim (classify_composio_goal goal) [
  | integration_simple ↦ max 2 settings.composio_subagent_max_steps_simple
  | integration_compose ↦ max 3 settings.composio_subagent_max_steps_compose
  | integration_full ↦ max 4 (min settings.composio_subagent_max_steps settings.research_max_steps)
]

unfoldable pub composio_wall_seconds_for_goal : Settings → Option Text → ℕ
composio_wall_seconds_for_goal settings goal = elim (classify_composio_goal goal) [
  | integration_simple ↦ settings.composio_subagent_wall_seconds_simple
  | integration_compose ↦ settings.composio_subagent_wall_seconds_compose
  | integration_full ↦ settings.composio_subagent_wall_seconds
]

pub record TurnLimits : Type 0 where
  pub task_class : TurnTask
  pub max_rounds : ℕ
  pub wall_seconds : ℕ
  pub started_monotonic : ℕ
  pub synthesize_on_exhaust : Bool

-- `scale n` is the whole part of n times the clamped fraction of the settings.
unfoldable pub warn_rounds : (ℕ → ℕ) → TurnLimits → ℕ
warn_rounds scale limits = max 1 (scale limits.max_rounds)

-- self.elapsed() >= self.wall_seconds, at the clock reading `now`
unfoldable pub wall_exhausted : TurnLimits → ℕ → Bool
wall_exhausted limits now = leb (limits.started_monotonic + limits.wall_seconds) now

unfoldable pub rounds_exhausted : TurnLimits → ℕ → Bool
rounds_exhausted limits step_count = leb limits.max_rounds step_count

unfoldable pub should_warn : (ℕ → ℕ) → TurnLimits → ℕ → ℕ → Bool
should_warn scale limits now step_count =
    wall_exhausted limits now || leb (warn_rounds scale limits) step_count

abbrev limits_of : TurnTask → ℕ → ℕ → ℕ → TurnLimits
limits_of task rounds wall now = record {
  task_class = task;
  max_rounds = rounds;
  wall_seconds = wall;
  started_monotonic = now;
  synthesize_on_exhaust = true;
}

-- The first component of the source's pair names the same class as the second's `task_class`.
unfoldable pub resolve_turn_limits : Settings → Option Text → Option ℕ → ℕ → TurnLimits
resolve_turn_limits settings budget_text (some max_steps) now =
    limits_of automation (max 1 (min max_steps settings.research_max_steps))
      settings.automation_run_timeout_seconds now
resolve_turn_limits settings budget_text none now = elim (classify_turn_task budget_text) [
  | research ↦
      limits_of research settings.research_max_steps settings.chat_turn_wall_seconds_research now
  | task ↦
      limits_of task settings.chat_max_rounds_standard settings.chat_turn_wall_seconds_standard now
]

unfoldable pub tools_for_composio_worker : List Tool → List Tool → Option Text → List Tool
tools_for_composio_worker base_tools composio_tools goal = elim (classify_composio_goal goal) [
  | integration_simple ↦ composio_tools
  | integration_compose ↦
      keep
        (λ t.
          not (contains composio_worker_strip_compose t.name)
          && not (contains composio_worker_strip_base_tools t.name))
        (base_tools ++ composio_tools)
  | integration_full ↦ keep (λ t. not (t.name == text "ComposioRun")) (base_tools ++ composio_tools)
]

-- `LoopTracker`: the name and the digest of the input of the latest calls.
pub record LoopTracker : Type 0 where
  pub recent : List (Text × Text)

abbrev pub new_tracker : LoopTracker
new_tracker = record { recent = [] }

-- `digest` is `_stable_input_key`: SHA-256 over the canonical JSON of the input.
abbrev pub call_key : (Value → Text) → (Value → Text) → ToolUse → Text × Text
call_key repr digest tool_use = (or_blank repr (some tool_use.name), digest tool_use.input)

unfoldable pub record_calls :
    (Value → Text) → (Value → Text) → LoopTracker → List ToolUse → LoopTracker
record_calls repr digest tracker tool_uses =
    let recent = tracker.recent ++ map (call_key repr digest) tool_uses in
    record { recent = if ltb 16 (length recent) then take_last 16 recent else recent }

abbrev pub pair_beq : Text × Text → Text × Text → Bool
pair_beq (a, b) (c, d) = a == c && b == d

abbrev pub equal_pair : List (Text × Text) → Bool
equal_pair (a ∷ b ∷ []) = pair_beq a b
equal_pair _ = false

-- The last two calls are the same.
unfoldable pub has_repeat : LoopTracker → Bool
has_repeat tracker = equal_pair (take_last 2 tracker.recent)
