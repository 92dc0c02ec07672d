-- ===== src/PendingActions.antt =====
-- koraku/actions/pending_actions.py: the one-click actions that wait for the user, and the calls of
-- `execute_action` that run at the same time. A call is two steps with the await between them.
pub mod Calls
pub mod Races
pub mod Tests
use koraku.Prelude.{
  ◌++◌, Bool, true, false, not, ◌&&◌, ℕ, Option, none, some, List, [], ◌∷◌, if◌then◌else◌, find?,
  ◌≡◌, text_equality, ◌==◌,
}
use koraku.Prelude.Text.{Text, text, strip, or_text, or_empty}
use koraku.Prelude.Dict
use koraku.Prelude.Dict.{Dict}
use koraku.Prelude.Json.{Value, Fields, end, field, set_field, obj}

pub record PendingAction : Type 0 where
  pub label : Text
  pub description : Text
  pub tool_name : Text
  pub tool_input : Fields
  pub run_id : Option Text
  pub session_id : Option Text
  pub executed : Bool

abbrev pub Pending : Type 0
Pending = Dict Text PendingAction

-- `fresh` is the id that `uuid4` makes.
unfoldable pub register_action :
    Text
    → Pending
    → Text
    → Text
    → Text
    → Fields
    → Option Text
    → Option Text
    → Option Text
    → Pending × Text
register_action fresh pending label description tool_name tool_input run_id session_id action_id =
    let aid = or_text (strip (or_empty action_id)) fresh in
    let action : PendingAction = record {
      label = strip label;
      description = strip description;
      tool_name = strip tool_name;
      tool_input = tool_input;
      run_id = run_id;
      session_id = session_id;
      executed = false;
    } in
    (Dict.put pending aid action, aid)

abbrev pub get_action : Pending → Text → Option PendingAction
get_action pending action_id = Dict.get pending (strip action_id)

-- tool_input.update(overrides)
abbrev pub update : Fields → Fields → Fields
update input end = input
update input (field k v rest) = update (set_field input k v) rest

-- What the awaited run of the tool does.
pub data RunResult : Type 0 where
  tool_returned : Text → RunResult
  tool_timed_out : RunResult
  tool_raised : Text → RunResult

-- What a call answers.
pub data Answer : Type 0 where
  succeeded : Text → Text → Text → Answer
  failed : Text → Answer

-- A call up to its await: it is answered, or it runs the tool of an action with an input.
pub data Started : Type 0 where
  answered : Answer → Started
  running : PendingAction → Fields → Started

-- `has_tool` says that `get_tool` knows the name.
unfoldable pub start_action : (Text → Bool) → Pending → Text → Fields → Pending × Started
start_action has_tool pending action_id overrides = elim (get_action pending action_id) [
  | none ↦ (pending, answered (failed (text "not_found")))
  | some entry ↦
      if entry.executed
      then (pending, answered (failed (text "already_executed")))
      else if not (has_tool entry.tool_name)
      then (pending, answered (failed (text "tool_not_found:" ++ entry.tool_name)))
      else (pending, running entry (update entry.tool_input overrides))
]

-- entry.executed = True. The row is taken to be the entry that the call holds: an id that is
-- registered anew during the wait is not modelled.
unfoldable pub mark_executed : Pending → Text → Pending
mark_executed pending aid = elim (Dict.get pending aid) [
  | none ↦ pending
  | some entry ↦ Dict.put pending aid (record entry { executed = true })
]

-- A call from its await on.
unfoldable pub finish_action : Pending → Text → PendingAction → RunResult → Pending × Answer
finish_action pending action_id entry (tool_returned result) =
    (mark_executed pending (strip action_id), succeeded action_id entry.tool_name result)
finish_action pending action_id entry tool_timed_out = (pending, failed (text "tool_timeout"))
finish_action pending action_id entry (tool_raised e) = (pending, failed e)

-- The rest of a call that has started, given what the tool does with an input.
unfoldable pub finish_started :
    (PendingAction → Fields → RunResult) → Pending → Text → Started → Pending × Answer
finish_started run pending action_id (answered answer) = (pending, answer)
finish_started run pending action_id (running entry input) =
    finish_action pending action_id entry (run entry input)

-- `execute_action` with no other call between its steps.
unfoldable pub execute_action :
    (Text → Bool)
    → (PendingAction → Fields → RunResult)
    → Pending
    → Text
    → Fields
    → Pending × Answer
execute_action has_tool run pending action_id overrides =
    let (held, started) = start_action has_tool pending action_id overrides in
    finish_started run held action_id started
