-- ===== src/PendingActions/Races.antt =====
-- What the executed flag keeps off: calls one after another, and not calls that overlap.
use koraku.Prelude.{
  Bool, true, false, some, ◌≡◌, refl, ap, ◌∙◌, inl, inr, List, [], ◌∷◌, map, Option-cases,
  Bool-cases, text_equality, arith,
}
use koraku.Prelude.Text.{Text, text, strip}
use koraku.Prelude.Dict
use koraku.Prelude.Dict.{Dict, get-put_self}
use koraku.Prelude.Json.{Fields}
use koraku.PendingActions.{
  PendingAction, Pending, get_action, update, RunResult, tool_returned, tool_timed_out, tool_raised,
  Answer, succeeded, failed, Started, answered, running, start_action, mark_executed, finish_action,
  execute_action, finish_started,
}
use koraku.PendingActions.Calls.{one_by_one, start_all, finish_all, all_at_once}

get-mark_executed :
    (pending : Pending) (aid : Text) (entry : PendingAction)
    → Dict.get pending aid ≡ some entry
    → Dict.get (mark_executed pending aid) aid ≡ some (record entry { executed = true })
unfolding mark_executed
get-mark_executed pending aid entry h =
    rw (mark_executed, h) (get-put_self pending aid (record entry { executed = true }))

module _ (has_tool : Text → Bool) (pending : Pending) (action_id : Text)
    (entry : PendingAction) where
  -- Once a call has run the tool of an action to its end, a later call of the action runs nothing:
  -- it answers `already_executed`, with whatever overrides.
  pub executed_once :
      (result : Text) (overrides : Fields)
      → get_action pending action_id ≡ some entry
      → (start_action has_tool
          ((finish_action pending action_id entry (tool_returned result)).0)
          action_id
          overrides).1
        ≡ answered (failed (text "already_executed"))
  unfolding start_action finish_action
  executed_once result overrides h =
      rw (start_action, get-mark_executed pending (strip action_id) entry h) refl

  start_running :
      (overrides : Fields)
      → get_action pending action_id ≡ some entry
      → entry.executed ≡ false
      → has_tool entry.tool_name ≡ true
      → start_action has_tool pending action_id overrides
        ≡ (pending, running entry (update entry.tool_input overrides))
  unfolding start_action
  start_running overrides h fresh known = rw (start_action, h) (simp (fresh, known))

  start_executed :
      (overrides : Fields)
      → get_action pending action_id ≡ some entry
      → entry.executed ≡ true
      → start_action has_tool pending action_id overrides
        ≡ (pending, answered (failed (text "already_executed")))
  unfolding start_action
  start_executed overrides h executed = rw (start_action, h) (simp executed)

  pending-start_action :
      (overrides : Fields) → (start_action has_tool pending action_id overrides).0 ≡ pending
  unfolding start_action
  pending-start_action overrides = elim (Option-cases (get_action pending action_id)) [
    | inl missing ↦ rw (start_action, missing) refl
    | inr (found, there) ↦ elim (Bool-cases found.executed) [
      | inl executed ↦ rw (start_action, there, executed) refl
      | inr fresh ↦ elim (Bool-cases (has_tool found.tool_name)) [
        | inl known ↦ rw (start_action, there, fresh, known) refl
        | inr unknown ↦ rw (start_action, there, fresh, unknown) refl
      ]
    ]
  ]

  -- A call that answers with an error leaves the pending actions as they were, so that the action
  -- can be tried again.
  pub failure_keeps_action :
      (run : PendingAction → Fields → RunResult) (overrides : Fields) (error : Text)
      → (execute_action has_tool run pending action_id overrides).1 ≡ failed error
      → (execute_action has_tool run pending action_id overrides).0 ≡ pending
  unfolding execute_action finish_action finish_started
  failure_keeps_action run overrides error h =
      let (held, started) = start_action has_tool pending action_id overrides in
      by_start held started h ∙ pending-start_action overrides
    where
      apart : {tool shown : Text} → succeeded action_id tool shown ≡ failed error → ⊥
      apart k = ground arith

      by_run :
          (held : Pending) (entry : PendingAction) (result : RunResult)
          → (finish_action held action_id entry result).1 ≡ failed error
          → (finish_action held action_id entry result).0 ≡ held
      by_run held entry (tool_returned result) k = absurd (apart k)
      by_run held entry tool_timed_out k = refl
      by_run held entry (tool_raised e) k = refl

      by_start :
          (held : Pending) (started : Started)
          → (finish_started run held action_id started).1 ≡ failed error
          → (finish_started run held action_id started).0 ≡ held
      by_start held (answered answer) k = refl
      by_start held (running entry input) k = by_run held entry (run entry input) k

abbrev pub refused : Answer
refused = failed (text "already_executed")

-- A tool that returns; `shown` is what it says for an input.
abbrev pub returns : (PendingAction → Fields → Text) → PendingAction → Fields → RunResult
returns shown held input = tool_returned (shown held input)

module _ (has_tool : Text → Bool) (shown : PendingAction → Fields → Text) (action_id : Text)
    (entry : PendingAction) where
  abbrev pub success : Fields → Answer
  success overrides =
      succeeded action_id entry.tool_name (shown entry (update entry.tool_input overrides))

  one_by_one-executed :
      (pending : Pending) (calls : List Fields) (held : PendingAction)
      → get_action pending action_id ≡ some held
      → held.executed ≡ true
      → (one_by_one (returns shown) action_id has_tool pending calls).1 ≡ map (λ _. refused) calls
  unfolding one_by_one execute_action finish_started
  one_by_one-executed pending [] held h executed = refl
  one_by_one-executed pending (overrides ∷ calls) held h executed =
      rw (start_executed has_tool pending action_id held overrides h executed)
        (ap (λ rest. refused ∷ rest) (one_by_one-executed pending calls held h executed))

  start_all-running :
      (pending : Pending) (calls : List Fields)
      → get_action pending action_id ≡ some entry
      → entry.executed ≡ false
      → has_tool entry.tool_name ≡ true
      → start_all has_tool action_id pending calls
        ≡ (pending, map (λ o. running entry (update entry.tool_input o)) calls)
  unfolding start_all
  start_all-running pending [] h fresh known = refl
  start_all-running pending (overrides ∷ calls) h fresh known =
      rw
        (
          start_running has_tool pending action_id entry overrides h fresh known,
          start_all-running pending calls h fresh known,
        )
        refl

  finish_all-returned :
      (pending : Pending) (calls : List Fields)
      → (finish_all
          (returns shown)
          action_id
          pending
          (map (λ o. running entry (update entry.tool_input o)) calls)).1
        ≡ map success calls
  unfolding finish_all finish_started finish_action
  finish_all-returned pending [] = refl
  finish_all-returned pending (overrides ∷ calls) =
      ap (λ rest. success overrides ∷ rest)
        (finish_all-returned (mark_executed pending (strip action_id)) calls)

  -- An action that has not been executed is called any number of times, its tool is known and
  -- returns. When each call ends before the next starts, the first runs the tool and every other
  -- answers `already_executed`. When all of them start before the first tool ends, every call runs
  -- the tool, with its own overrides, and succeeds.
  pub overlap_runs_all :
      (pending : Pending) (first : Fields) (others : List Fields)
      → get_action pending action_id ≡ some entry
      → entry.executed ≡ false
      → has_tool entry.tool_name ≡ true
      → ((one_by_one (returns shown) action_id has_tool pending (first ∷ others)).1
          ≡ success first ∷ map (λ _. refused) others)
        × ((all_at_once (returns shown) action_id has_tool pending (first ∷ others)).1
            ≡ map success (first ∷ others))
  unfolding one_by_one all_at_once execute_action finish_started finish_action
  overlap_runs_all pending first others h fresh known = (
    rw (start_running has_tool pending action_id entry first h fresh known) (
        ap (λ rest. success first ∷ rest)
          (one_by_one-executed (mark_executed pending (strip action_id)) others
            (record entry { executed = true }) (get-mark_executed pending (strip action_id) entry h)
            refl)),
    rw (start_all-running pending (first ∷ others) h fresh known)
        (finish_all-returned pending (first ∷ others)),
  )
