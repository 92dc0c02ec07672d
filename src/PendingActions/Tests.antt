-- ===== src/PendingActions/Tests.antt =====
-- A pending action that is executed once, twice and without success.
use koraku.Prelude.{true, false, none, some, [], ◌∷◌, ◌≡◌, refl, text_equality}
use koraku.Prelude.Text.{Text, text, strip}
use koraku.Prelude.Dict
use koraku.Prelude.Dict.{Dict}
use koraku.Prelude.Json.{Fields, end, field, str}
use koraku.PendingActions.{
  PendingAction, Pending, register_action, get_action, tool_returned, tool_timed_out, Answer,
  finish_started, succeeded, failed, answered, start_action, finish_action, execute_action,
}
use koraku.PendingActions.Races.{
  executed_once, failure_keeps_action, refused, returns, overlap_runs_all,
}
use koraku.PendingActions.Calls.{one_by_one, all_at_once}

abbrev send : PendingAction
send = record {
  label = text "Send";
  description = text "Send the draft";
  tool_name = text "Mail";
  tool_input = end;
  run_id = none;
  session_id = none;
  executed = false;
}

abbrev waiting : Pending
waiting = (text "x", send) ∷ []

abbrev urgent : Fields
urgent = field (text "priority") (str (text "high")) end

register_then_get :
    let registered : Pending × Text =
      register_action
        (text "x")
        []
        (text " Send ")
        (text "Send the draft")
        (text "Mail")
        end
        none
        none
        none in
    get_action registered.0 registered.1 ≡ some send
unfolding register_action strip Dict.get Dict.put
register_then_get = refl

send_is_waiting : get_action waiting (text " x") ≡ some send
unfolding strip Dict.get
send_is_waiting = refl

executed_once_example :
    (start_action
      (λ t. true)
      ((finish_action waiting (text " x") send (tool_returned (text "ok"))).0)
      (text " x")
      urgent).1
    ≡ answered (failed (text "already_executed"))
executed_once_example =
    executed_once (λ t. true) waiting (text " x") send (text "ok") urgent send_is_waiting

-- The tool says whether it was given an input.
abbrev shown : PendingAction → Fields → Text
shown action end = text "sent"
shown action (field k v fs) = text "sent with options"

abbrev plain_success : Answer
plain_success = succeeded (text " x") (text "Mail") (text "sent")

abbrev urgent_success : Answer
urgent_success = succeeded (text " x") (text "Mail") (text "sent with options")

overlap_runs_all_example :
    ((one_by_one (returns shown) (text " x") (λ t. true) waiting (end ∷ urgent ∷ end ∷ [])).1
      ≡ plain_success ∷ refused ∷ refused ∷ [])
    × ((all_at_once (returns shown) (text " x") (λ t. true) waiting (end ∷ urgent ∷ end ∷ [])).1
        ≡ plain_success ∷ urgent_success ∷ plain_success ∷ [])
overlap_runs_all_example =
    overlap_runs_all (λ t. true) shown (text " x") send waiting end (urgent ∷ end ∷ [])
      send_is_waiting refl refl

send_times_out :
    (execute_action (λ t. true) (λ e input. tool_timed_out) waiting (text " x") end).1
    ≡ failed (text "tool_timeout")
unfolding execute_action finish_started start_action finish_action strip Dict.get
send_times_out = refl

failure_keeps_action_example :
    (execute_action (λ t. true) (λ e input. tool_timed_out) waiting (text " x") end).0 ≡ waiting
failure_keeps_action_example =
    failure_keeps_action (λ t. true) waiting (text " x") send (λ e input. tool_timed_out) end
      (text "tool_timeout") send_times_out
