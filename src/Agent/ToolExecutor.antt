-- ===== src/Agent/ToolExecutor.antt =====
-- koraku/agent/tool_executor.py, with koraku/agent/hooks.py, koraku/tools/policy.py and `Tool.run` of
-- koraku/tools/tool_def.py: what the agent does with the tool calls of an assistant message.
pub mod Execution
pub mod Retry
pub mod Answers
pub mod Guards
pub mod Tests
use koraku.Prelude.{
  ◌++◌, ℕ, Bool, true, false, not, ◌||◌, Option, none, some, List, [], ◌∷◌, if◌then◌else◌, find?,
  any, text_equality, ◌==◌,
}
use koraku.Prelude.Text.{Text, text, strip, lower, starts_with, is_empty}
use koraku.Prelude.Json.{Value, str, get, is_dict, truthy}
use koraku.Agent.Permissions.{
  PermissionMode, confirm_denied_message, tool_blocked_message, requires_user_approval,
}

-- What an awaited call does: it returns a text or raises an exception, whose `str` is kept.
pub data RunOutcome : Type 0 where
  returned raised : Text → RunOutcome

-- A tool; `handler` is the outcome of a call by its input and by the number of the attempt.
pub record Tool : Type 0 where
  pub name : Text
  pub handler : Value → ℕ → RunOutcome

-- `Tool.run`; `bind_error` is what Python raises when it cannot spread the input into keyword
-- arguments.
unfoldable pub run_tool : (Value → Option Text) → Tool → Value → ℕ → RunOutcome
run_tool bind_error tool input attempt = elim (bind_error input) [
  | some e ↦ raised e
  | none ↦ elim (tool.handler input attempt) [
    | returned stdout ↦ returned stdout
    | raised e ↦ returned (text "Error: " ++ e)
  ]
]

-- A `tool_use` block, by the three fields that the executor reads.
pub record ToolUse : Type 0 where
  pub name : Value
  pub input : Value
  pub id : Value

pub record ToolCallContext : Type 0 where
  pub tool_name : Text
  pub tool_input : Value
  pub tool_use_id : Value

pub record HookResult : Type 0 where
  pub allow : Bool
  pub message : Text
  pub updated_input : Option Value

-- What `pre_tool_use` does: it returns a result, or None, or raises.
pub data HookOutcome : Type 0 where
  hook_returned : Option HookResult → HookOutcome
  hook_raised : Text → HookOutcome

-- What the wait for the user's answer does: it ends with the response or times out.
pub data Approval : Type 0 where
  answered : Value → Approval
  timed_out : Approval

-- The run that the calls belong to. `has_emit` says that an emitter is bound; `approval` and the
-- hook answer by the call.
pub record ActiveRun : Type 0 where
  pub permission_mode : PermissionMode
  pub has_emit : Bool
  pub approval : ToolCallContext → Approval
  pub pre_tool_use : Option (ToolCallContext → HookOutcome)

abbrev error_leaders : List Text
error_leaders =
    text "failed"
    ∷ text "blocked"
    ∷ text "search failed"
    ∷ text "fetch error"
    ∷ text "file not found"
    ∷ text "dir not found"
    ∷ text "timeout after"
    ∷ text "old_string not found"
    ∷ text "connection error"
    ∷ text "api error"
    ∷ []

unfoldable pub tool_stdout_indicates_error : Text → Text → Bool
tool_stdout_indicates_error stdout tool_name =
    let s = strip stdout in
    let lowered = lower s in
    if is_empty s
    then tool_name == text "WebSearch"
      || tool_name == text "WebFetch"
      || tool_name == text "WebPage"
    else starts_with lowered (text "error:")
      || starts_with lowered (text "error ")
      || any (starts_with lowered) error_leaders

unfoldable pub resolve_tool_from_active : Value → List Tool → Option Tool
resolve_tool_from_active (str tool_name) active_tools =
    let resolved = if tool_name == text "WebPage" then text "WebFetch" else tool_name in
    find? (λ t. t.name == resolved) active_tools
resolve_tool_from_active _ active_tools = none

abbrev pub allowed : HookResult
allowed = record { allow = true; message = []; updated_input = none }

abbrev pub denied : Text → HookResult
denied reason = record { allow = false; message = reason; updated_input = none }

abbrev pub allowed_with : Value → HookResult
allowed_with input = record { allow = true; message = []; updated_input = some input }

abbrev pub approval_timed_out : Text
approval_timed_out = text "Error: approval timed out waiting for the user."

-- bool(response.get("approved"))
abbrev pub is_approved : Value → Bool
is_approved response = elim (get response (text "approved")) [ some v ↦ truthy v | none ↦ false ]

-- response.get("updated_input"), when it is a dict
abbrev updated_input_of : Value → Option Value
updated_input_of response = elim (get response (text "updated_input")) [
  | some v ↦ if is_dict v then some v else none
  | none ↦ none
]

pub approval_result : Approval → HookResult
approval_result timed_out = denied approval_timed_out
approval_result (answered response) =
    if is_approved response
    then record { allow = true; message = []; updated_input = updated_input_of response }
    else denied confirm_denied_message

unfoldable pub maybe_request_tool_approval : ActiveRun → ToolCallContext → Option HookResult
unfolding approval_result
maybe_request_tool_approval active ctx =
    if requires_user_approval ctx.tool_name active.permission_mode
    then some (approval_result (active.approval ctx))
    else none

-- What is left to return when the hook has let the call through.
abbrev after_approval : Option HookResult → HookResult
after_approval none = allowed
after_approval (some approval) = elim (approval.updated_input) [
  | some input ↦ allowed_with input
  | none ↦ allowed
]

-- What the hook's own result makes of the call.
pub custom_result : Option HookResult → HookResult → HookResult
custom_result none otherwise = otherwise
custom_result (some custom) otherwise =
    if not custom.allow
    then custom
    else elim custom.updated_input [ some input ↦ allowed_with input | none ↦ otherwise ]

-- The hook sees the call with the input that the user has put in its place.
pub seen_by_hook : ToolCallContext → Option HookResult → ToolCallContext
seen_by_hook ctx none = ctx
seen_by_hook ctx (some approval) = elim approval.updated_input [
  | some input ↦ record ctx { tool_input = input }
  | none ↦ ctx
]

-- The hook is asked, unless the user has declined.
pub ask_hook : ActiveRun → ToolCallContext → Option HookResult → HookOutcome
unfolding custom_result seen_by_hook
ask_hook active ctx approval = elim active.pre_tool_use [
  | none ↦ hook_returned (some (after_approval approval))
  | some hook ↦ elim (hook (seen_by_hook ctx approval)) [
    | hook_raised e ↦ hook_raised e
    | hook_returned custom ↦ hook_returned (some (custom_result custom (after_approval approval)))
  ]
]

pub is_denied : Option HookResult → Bool
is_denied none = false
is_denied (some approval) = not approval.allow

-- `_apply_pre_tool_hooks` always returns a result when the hook does not raise.
unfoldable pub apply_pre_tool_hooks : ActiveRun → ToolCallContext → HookOutcome
unfolding is_denied ask_hook
apply_pre_tool_hooks active ctx = elim (tool_blocked_message ctx.tool_name active.permission_mode) [
  | some blocked ↦ hook_returned (some (denied blocked))
  | none ↦
      let approval = maybe_request_tool_approval active ctx in
      if is_denied approval then hook_returned approval else ask_hook active ctx approval
]
