-- ===== src/Agent/ToolExecutor/Execution.antt =====
-- koraku/agent/tool_executor.py: `_execute_single_tool` and `_execute_tools_parallel`.
use koraku.Prelude.{
  ℕ, zero, suc, ◌+◌, Bool, true, false, not, ◌&&◌, Option, none, some, List, [], ◌∷◌, ◌++◌,
  if◌then◌else◌, map, text_equality,
}
use koraku.Prelude.Text.{Text, text, contains_text, is_empty, or_text, decimal}
use koraku.Prelude.Json.{Value, bool, str, obj, end, get, is_dict, dict, as_text}
use koraku.Agent.ToolExecutor.{
  RunOutcome, returned, raised, Tool, ToolUse, ToolCallContext, HookOutcome, hook_returned,
  hook_raised, ActiveRun, run_tool, tool_stdout_indicates_error, resolve_tool_from_active,
  apply_pre_tool_hooks,
}

-- The variables of the retry loop, with the number of runs that it has started.
pub record Attempts : Type 0 where
  pub result_text : Text
  pub last_error : Text
  pub is_error : Bool
  pub runs : ℕ

-- The attempts that are left, from the one numbered `attempt`.
unfoldable pub attempts_from : (ℕ → RunOutcome) → Text → ℕ → ℕ → Text → Text → Attempts
attempts_from run tool_name zero attempt result_text last_error = record {
  result_text = result_text;
  last_error = last_error;
  is_error = true;
  runs = attempt;
}
attempts_from run tool_name (suc left) attempt result_text last_error = elim (run attempt) [
  | returned stdout ↦
      let again = attempts_from run tool_name left (suc attempt) stdout stdout in
      elim (tool_stdout_indicates_error stdout tool_name) [
        | true ↦ again
        | false ↦ record {
          result_text = stdout;
          last_error = last_error;
          is_error = false;
          runs = suc attempt;
        }
      ]
  | raised e ↦ attempts_from run tool_name left (suc attempt) e e
]

-- A `tool_result` block.
abbrev pub tool_result : Value → Text → Bool → Value
tool_result id content is_error = dict (
    (text "type", str (text "tool_result"))
    ∷ (text "tool_use_id", id)
    ∷ (text "content", str content)
    ∷ (text "is_error", bool is_error)
    ∷ [])

abbrev pub default_max_retries : ℕ
default_max_retries = 2

-- The content of a call that has failed in every attempt.
abbrev pub failed_content : ℕ → Attempts → Text
failed_content max_retries tried =
    if not (is_empty tried.last_error) && not (contains_text tried.last_error (text "failed after"))
    then tried.last_error
      ++ (text " (failed after " ++ (decimal (max_retries + 1) ++ text " attempts)"))
    else or_text tried.last_error tried.result_text

abbrev pub result_of_attempts : ℕ → Value → Attempts → Value
result_of_attempts max_retries id tried =
    if tried.is_error
    then tool_result id (failed_content max_retries tried) true
    else tool_result id tried.result_text false

-- What a call comes to: its result block, or the exception of the hook, with the number of runs of
-- the tool and the input that it ran with.
pub data Reply : Type 0 where
  result : Value → Reply
  escaped : Text → Reply

pub record Execution : Type 0 where
  pub reply : Reply
  pub runs : ℕ
  pub input : Value

-- The results in the order of the calls, or the exception that ends the run.
pub data Phase : Type 0 where
  results : List Value → Phase
  phase_escaped : Text → Phase

abbrev pub single : Reply → Phase
single (result block) = results (block ∷ [])
single (escaped e) = phase_escaped e

-- An exception of one of several calls becomes its result.
abbrev pub gathered : ToolUse → Reply → Value
gathered tool_use (result block) = block
gathered tool_use (escaped e) = tool_result tool_use.id (text "Error: " ++ e) true

-- isinstance(tool_input, dict) and "_partial_json" in tool_input
abbrev pub is_truncated : Value → Bool
is_truncated input = elim (get input (text "_partial_json")) [ some _ ↦ true | none ↦ false ]

-- dict(tool_input) if isinstance(tool_input, dict) else {}
abbrev pub dict_or_empty : Value → Value
dict_or_empty input = if is_dict input then input else obj end

abbrev pub context_of : (Value → Text) → ToolUse → ToolCallContext
context_of repr tool_use = record {
  tool_name = as_text repr tool_use.name;
  tool_input = dict_or_empty tool_use.input;
  tool_use_id = tool_use.id;
}

abbrev pub not_run : ToolUse → Text → Execution
not_run tool_use content = record {
  reply = result (tool_result tool_use.id content true);
  runs = 0;
  input = tool_use.input;
}

abbrev pub truncated_message : Text → Text
truncated_message name =
    text "Error: Tool '"
    ++ (name
        ++ text
            "' arguments were truncated (incomplete JSON). Retry with a shorter payload or split large writes into smaller chunks.")

abbrev pub not_found_message : Text → Text
not_found_message name = text "Error: Tool '" ++ (name ++ text "' not found.")

abbrev pub blocked_message : Text → Text
blocked_message name = text "Error: Tool '" ++ (name ++ text "' was blocked.")

-- Without an emitter the call is not checked.
unfoldable pub pre_check : ActiveRun → ToolCallContext → HookOutcome
pre_check active ctx =
    if active.has_emit then apply_pre_tool_hooks active ctx else hook_returned none

module _ (repr : Value → Text) (bind_error : Value → Option Text) where
  -- The attempts, and the result block that they make.
  unfoldable pub run_with_retries : ℕ → ToolUse → Tool → Value → Execution
  run_with_retries max_retries tool_use tool input =
      let tried =
        attempts_from (run_tool bind_error tool input) (as_text repr tool_use.name)
          (suc max_retries) 0 [] [] in
      record {
        reply = result (result_of_attempts max_retries tool_use.id tried);
        runs = tried.runs;
        input = input;
      }

  -- What follows the check.
  unfoldable pub run_if_allowed : ℕ → ToolUse → Tool → HookOutcome → Execution
  run_if_allowed max_retries tool_use tool (hook_raised e) = record {
    reply = escaped e;
    runs = 0;
    input = tool_use.input;
  }
  run_if_allowed max_retries tool_use tool (hook_returned none) =
      run_with_retries max_retries tool_use tool tool_use.input
  run_if_allowed max_retries tool_use tool (hook_returned (some pre)) =
      if not pre.allow
      then not_run tool_use (or_text pre.message (blocked_message (as_text repr tool_use.name)))
      else run_with_retries max_retries tool_use tool
          (elim pre.updated_input [ some updated ↦ updated | none ↦ tool_use.input ])

  unfoldable pub execute_single_tool : ActiveRun → List Tool → ℕ → ToolUse → Execution
  execute_single_tool active active_tools max_retries tool_use =
      if is_truncated tool_use.input
      then not_run tool_use (truncated_message (as_text repr tool_use.name))
      else elim (resolve_tool_from_active tool_use.name active_tools) [
        | none ↦ not_run tool_use (not_found_message (as_text repr tool_use.name))
        | some tool ↦
            run_if_allowed max_retries tool_use tool (pre_check active (context_of repr tool_use))
      ]

  unfoldable pub execute_tools_parallel : ActiveRun → List Tool → List ToolUse → Phase
  execute_tools_parallel active active_tools (tool_use ∷ []) =
      single ((execute_single_tool active active_tools default_max_retries tool_use).reply)
  execute_tools_parallel active active_tools tool_uses = results (
      map
        (λ tool_use.
          gathered tool_use
            ((execute_single_tool active active_tools default_max_retries tool_use).reply))
        tool_uses)
