-- ===== src/Agent/ToolExecutor/Tests.antt =====
-- Tool calls run on concrete tools.
use koraku.Prelude.{
  ℕ, zero, suc, ◌<◌, ◌≡◌, refl, true, false, Option, none, some, [], ◌∷◌, arith, length, ◌⊎◌,
}
use koraku.Prelude.Text.{Text, text, strip}
use koraku.Prelude.Json.{Value, str, bool, dict, obj, end}
use koraku.Agent.Permissions.{
  plan, default, confirm_sensitive, plan_blocked_message, tool_blocked_message,
  requires_user_approval, confirm_denied_message,
}
use koraku.Agent.ToolExecutor.{
  RunOutcome, returned, raised, Tool, ToolUse, hook_raised, answered, timed_out, denied,
  approval_timed_out, ActiveRun, run_tool, resolve_tool_from_active, apply_pre_tool_hooks,
  maybe_request_tool_approval, tool_stdout_indicates_error,
}
use koraku.Agent.ToolExecutor.Execution.{
  tool_result, result, run_with_retries, run_if_allowed, execute_single_tool, context_of, pre_check,
  not_run, phase_escaped, execute_tools_parallel,
}
use koraku.Agent.ToolExecutor.Retry.{
  is_failure, handler_exception_is_error, first_success, all_fail,
}
use koraku.Agent.ToolExecutor.Guards.{
  blocked_never_runs, Approves, unapproved_never_runs, result_ids, results_in_order,
}

abbrev no_repr : Value → Text
no_repr v = []

abbrev binds : Value → Option Text
binds v = none

abbrev flaky_run : ℕ → RunOutcome
flaky_run zero = returned (text "Error: busy")
flaky_run (suc zero) = raised (text "reset")
flaky_run (suc (suc n)) = returned (text "done")

abbrev bash : Tool
bash = record { name = text "Bash"; handler = λ input attempt. flaky_run attempt }

abbrev broken : Tool
broken = record { name = text "Bash"; handler = λ input attempt. raised (text "no") }

abbrev call : ToolUse
call = record { name = str (text "Bash"); input = obj end; id = str (text "t1") }

abbrev other_call : ToolUse
other_call = record { name = str (text "Read"); input = obj end; id = str (text "t2") }

-- The hook raises on every call.
abbrev raising : ActiveRun
raising = record {
  permission_mode = default;
  has_emit = true;
  approval = λ ctx. timed_out;
  pre_tool_use = some (λ ctx. hook_raised (text "boom"));
}

abbrev planning : ActiveRun
planning = record raising { permission_mode = plan; pre_tool_use = none }

-- The user never answers.
abbrev waiting : ActiveRun
waiting = record planning { permission_mode = confirm_sensitive }

abbrev refuses : ActiveRun
refuses = record waiting { approval = λ ctx. answered (dict ((text "approved", bool false) ∷ [])) }

flaky_fails : (j : ℕ) → j < 2 → is_failure (text "Bash") (run_tool binds bash (obj end) j) ≡ true
unfolding run_tool tool_stdout_indicates_error strip
flaky_fails zero h = refl
flaky_fails (suc zero) h = refl
flaky_fails (suc (suc j)) h = absurd (omega (arith, h))

done_is_fine : tool_stdout_indicates_error (text "done") (text "Bash") ≡ false
unfolding tool_stdout_indicates_error strip
done_is_fine = refl

third_run : run_tool binds bash (obj end) 2 ≡ returned (text "done")
unfolding run_tool
third_run = refl

broken_fails : (j : ℕ) → j < 3 → is_failure (text "Bash") (run_tool binds broken (obj end) j) ≡ true
unfolding run_tool
broken_fails j h = handler_exception_is_error (text "no") (text "Bash")

-- A call alone lets the exception of its hook through; among others it answers with an error.
alone_escapes :
    execute_tools_parallel no_repr binds raising (bash ∷ []) (call ∷ [])
    ≡ phase_escaped (text "boom")
unfolding execute_tools_parallel execute_single_tool resolve_tool_from_active pre_check
    run_if_allowed apply_pre_tool_hooks maybe_request_tool_approval tool_blocked_message
    requires_user_approval
alone_escapes = refl

first_success_example : run_with_retries no_repr binds 2 call bash (obj end) ≡ record {
  reply = result (tool_result (str (text "t1")) (text "done") false);
  runs = 3;
  input = obj end;
}
first_success_example =
    first_success no_repr binds 2 call bash (obj end) 2 (text "done") (omega arith) flaky_fails
      third_run done_is_fine

all_fail_example :
    (content : Text) × (run_with_retries no_repr binds 2 call broken (obj end) ≡ record {
      reply = result (tool_result (str (text "t1")) content true);
      runs = 3;
      input = obj end;
    })
all_fail_example = all_fail no_repr binds 2 call broken (obj end) broken_fails

bash_blocked : tool_blocked_message (text "Bash") plan ≡ some plan_blocked_message
unfolding tool_blocked_message
bash_blocked = refl

blocked_never_runs_example :
    (content : Text) × (execute_single_tool no_repr binds planning (bash ∷ []) 2 call
      ≡ not_run call content)
blocked_never_runs_example =
    blocked_never_runs no_repr binds planning (bash ∷ []) 2 call plan_blocked_message refl
      bash_blocked

bash_is_sensitive : requires_user_approval (text "Bash") confirm_sensitive ≡ true
unfolding requires_user_approval
bash_is_sensitive = refl

answers_no :
    (maybe_request_tool_approval refuses (context_of no_repr call)
      ≡ some (denied confirm_denied_message))
    × (maybe_request_tool_approval waiting (context_of no_repr call)
        ≡ some (denied approval_timed_out))
unfolding maybe_request_tool_approval requires_user_approval
answers_no = (refl, refl)

timed_out_is_no : ¬ Approves timed_out
timed_out_is_no (response, v, answers, found, approved) = ground arith

unapproved_never_runs_example :
    (content : Text) × (execute_single_tool no_repr binds waiting (bash ∷ []) 2 call
      ≡ not_run call content)
unapproved_never_runs_example =
    unapproved_never_runs no_repr binds waiting (bash ∷ []) 2 call refl bash_is_sensitive
      timed_out_is_no

results_in_order_example :
    ((length (call ∷ other_call ∷ []) ≡ 1)
      × ((e : Text) × (execute_tools_parallel no_repr binds raising
              (bash ∷ [])
              (call ∷ other_call ∷ [])
            ≡ phase_escaped e)))
    ⊎ (result_ids
          (execute_tools_parallel no_repr binds raising (bash ∷ []) (call ∷ other_call ∷ []))
        ≡ some (some (str (text "t1")) ∷ some (str (text "t2")) ∷ []))
results_in_order_example =
    results_in_order no_repr binds raising (bash ∷ []) (call ∷ other_call ∷ [])
