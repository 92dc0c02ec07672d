-- ===== src/PendingActions/Calls.antt =====
-- Several calls of `execute_action` for one action: one after another, and all of them at once, each
-- started before the first tool ends.
use koraku.Prelude.{Bool, List, [], ◌∷◌}
use koraku.Prelude.Text.{Text}
use koraku.Prelude.Json.{Fields}
use koraku.PendingActions.{
  PendingAction, Pending, RunResult, Answer, Started, start_action, finish_started, execute_action,
}

unfoldable pub start_all : (Text → Bool) → Text → Pending → List Fields → Pending × List Started
start_all has_tool action_id pending [] = (pending, [])
start_all has_tool action_id pending (overrides ∷ calls) =
    let (held, started) = start_action has_tool pending action_id overrides in
    let (after, others) = start_all has_tool action_id held calls in (after, started ∷ others)

module _ (run : PendingAction → Fields → RunResult) (action_id : Text) where
  unfoldable pub finish_all : Pending → List Started → Pending × List Answer
  finish_all pending [] = (pending, [])
  finish_all pending (started ∷ others) =
      let (held, answer) = finish_started run pending action_id started in
      let (after, answers) = finish_all held others in (after, answer ∷ answers)

  unfoldable pub all_at_once : (Text → Bool) → Pending → List Fields → Pending × List Answer
  all_at_once has_tool pending calls =
      let (held, started) = start_all has_tool action_id pending calls in finish_all held started

  unfoldable pub one_by_one : (Text → Bool) → Pending → List Fields → Pending × List Answer
  one_by_one has_tool pending [] = (pending, [])
  one_by_one has_tool pending (overrides ∷ calls) =
      let (held, answer) = execute_action has_tool run pending action_id overrides in
      let (after, answers) = one_by_one has_tool held calls in (after, answer ∷ answers)
