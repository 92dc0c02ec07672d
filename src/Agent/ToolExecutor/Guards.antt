-- ===== src/Agent/ToolExecutor/Guards.antt =====
-- What has to be true of a call before its tool runs, and what every call answers.
use koraku.Prelude.{
  ℕ, ◌≡◌, refl, ap, true, false, Option, none, some, List, map, text_equality, inl, inr, Bool-cases,
  Option-cases, length, ◌⊎◌,
}
use koraku.Prelude.Text.{Text, text}
use koraku.Prelude.Json.{Value, as_text, get, truthy}
use koraku.Agent.Permissions.{tool_blocked_message, requires_user_approval, confirm_denied_message}
use koraku.Agent.ToolExecutor.{
  Tool, ToolUse, ToolCallContext, hook_returned, ActiveRun, resolve_tool_from_active,
  apply_pre_tool_hooks, maybe_request_tool_approval, approval_result, is_denied, is_approved,
  denied, Approval, answered, timed_out, approval_timed_out,
}
use koraku.Agent.ToolExecutor.Answers.{PhaseAnswers, AllAnswer-ids, parallel-PhaseAnswers}
use koraku.Agent.ToolExecutor.Execution.{
  run_if_allowed, execute_single_tool, pre_check, context_of, is_truncated, not_run, Phase, results,
  phase_escaped, execute_tools_parallel,
}

apply_blocked :
    (active : ActiveRun) (ctx : ToolCallContext) (reason : Text)
    → tool_blocked_message ctx.tool_name active.permission_mode ≡ some reason
    → apply_pre_tool_hooks active ctx ≡ hook_returned (some (denied reason))
unfolding apply_pre_tool_hooks
apply_blocked active ctx reason blocked = rw (apply_pre_tool_hooks, blocked)

pre_check_blocked :
    (active : ActiveRun) (ctx : ToolCallContext) (reason : Text)
    → active.has_emit ≡ true
    → tool_blocked_message ctx.tool_name active.permission_mode ≡ some reason
    → pre_check active ctx ≡ hook_returned (some (denied reason))
unfolding pre_check
pre_check_blocked active ctx reason emit blocked =
    simp (emit, apply_blocked active ctx reason blocked)

-- The user approves a call: they answer in time, with a value under "approved" that is not falsy.
abbrev pub Approves : Approval → Type 0
Approves approval =
    (response : Value) × (v : Value) × (approval ≡ answered response)
    × (get response (text "approved") ≡ some v)
    × (truthy v ≡ true)

not_approved : (response : Value) → ¬ Approves (answered response) → is_approved response ≡ false
not_approved response h = elim (Option-cases (get response (text "approved"))) [
  | inl missing ↦ rw (is_approved, missing) refl
  | inr (v, found) ↦ elim (Bool-cases (truthy v)) [
    | inl on ↦ absurd (h (response, v, refl, found, on))
    | inr off ↦ rw (is_approved, found, off) refl
  ]
]

refusal :
    (approval : Approval)
    → ¬ Approves approval
    → (reason : Text) × (approval_result approval ≡ denied reason)
unfolding approval_result
refusal timed_out h = (approval_timed_out, refl)
refusal (answered response) h = (confirm_denied_message, simp (not_approved response h))

request_refused :
    (active : ActiveRun) (ctx : ToolCallContext)
    → requires_user_approval ctx.tool_name active.permission_mode ≡ true
    → ¬ Approves (active.approval ctx)
    → (reason : Text) × (maybe_request_tool_approval active ctx ≡ some (denied reason))
unfolding maybe_request_tool_approval
request_refused active ctx needed refused =
    let (reason, denies) = refusal (active.approval ctx) refused in
    (reason, rw (needed, denies) refl)

apply_declined :
    (active : ActiveRun) (ctx : ToolCallContext) (reason : Text)
    → tool_blocked_message ctx.tool_name active.permission_mode ≡ none
    → maybe_request_tool_approval active ctx ≡ some (denied reason)
    → apply_pre_tool_hooks active ctx ≡ hook_returned (some (denied reason))
unfolding apply_pre_tool_hooks is_denied
apply_declined active ctx reason free asked = rw (apply_pre_tool_hooks, free, asked)

pre_check_refused :
    (active : ActiveRun) (ctx : ToolCallContext)
    → active.has_emit ≡ true
    → requires_user_approval ctx.tool_name active.permission_mode ≡ true
    → ¬ Approves (active.approval ctx)
    → (reason : Text) × (pre_check active ctx ≡ hook_returned (some (denied reason)))
unfolding pre_check
pre_check_refused active ctx emit needed refused =
    elim (Option-cases (tool_blocked_message ctx.tool_name active.permission_mode)) [
      | inl free ↦
          let (reason, refuses) = request_refused active ctx needed refused in
          (reason, simp (emit, apply_declined active ctx reason free refuses))
      | inr (reason, blocked) ↦ (reason, pre_check_blocked active ctx reason emit blocked)
    ]

abbrev pub result_ids : Phase → Option (List (Option Value))
result_ids (results blocks) = some (map (λ b. get b (text "tool_use_id")) blocks)
result_ids (phase_escaped e) = none

module _ (repr : Value → Text) (bind_error : Value → Option Text) where
  -- Where the run has an emitter, a call that the permission mode blocks answers with an error and
  -- its tool does not run.
  pub blocked_never_runs :
      (active : ActiveRun) (tools : List Tool) (max_retries : ℕ) (tool_use : ToolUse)
      (reason : Text)
      → active.has_emit ≡ true
      → tool_blocked_message (as_text repr tool_use.name) active.permission_mode ≡ some reason
      → (content : Text) × (execute_single_tool repr bind_error active tools max_retries tool_use
          ≡ not_run tool_use content)
  unfolding execute_single_tool run_if_allowed
  blocked_never_runs active tools max_retries tool_use reason emit blocked =
      elim (Bool-cases (is_truncated tool_use.input)) [
        | inl truncated ↦ rw truncated (_, refl)
        | inr whole ↦ elim (Option-cases (resolve_tool_from_active tool_use.name tools)) [
          | inl missing ↦ rw (whole, missing) (_, refl)
          | inr (tool, found) ↦
              rw
                (
                  whole,
                  found,
                  pre_check_blocked active (context_of repr tool_use) reason emit blocked,
                )
                (_, refl)
        ]
      ]

  -- Where the run has an emitter, a call for which the user has to be asked answers with an error
  -- and its tool does not run, unless the user approves it: not when they answer without a value
  -- under "approved" or with one that is falsy, and not when the wait times out.
  pub unapproved_never_runs :
      (active : ActiveRun) (tools : List Tool) (max_retries : ℕ) (tool_use : ToolUse)
      → active.has_emit ≡ true
      → requires_user_approval (as_text repr tool_use.name) active.permission_mode ≡ true
      → ¬ Approves (active.approval (context_of repr tool_use))
      → (content : Text) × (execute_single_tool repr bind_error active tools max_retries tool_use
          ≡ not_run tool_use content)
  unfolding execute_single_tool run_if_allowed
  unapproved_never_runs active tools max_retries tool_use emit needed refused =
      let (reason, denies) =
        pre_check_refused active (context_of repr tool_use) emit needed refused in
      elim (Bool-cases (is_truncated tool_use.input)) [
        | inl truncated ↦ rw truncated (_, refl)
        | inr whole ↦ elim (Option-cases (resolve_tool_from_active tool_use.name tools)) [
          | inl missing ↦ rw (whole, missing) (_, refl)
          | inr (tool, found) ↦ rw (whole, found, denies) (_, refl)
        ]
      ]

  -- Two calls or more end with results, whatever the hook does, one for each call, in their order,
  -- with the call's id; so does a call that is alone, unless the hook raises.
  pub results_in_order :
      (active : ActiveRun) (tools : List Tool) (uses : List ToolUse)
      → ((length uses ≡ 1)
          × ((e : Text) × (execute_tools_parallel repr bind_error active tools uses
                ≡ phase_escaped e)))
        ⊎ (result_ids (execute_tools_parallel repr bind_error active tools uses)
            ≡ some (map (λ u. some u.id) uses))
  results_in_order active tools uses =
      by_phase (execute_tools_parallel repr bind_error active tools uses)
        (parallel-PhaseAnswers repr bind_error active tools uses)
    where
      by_phase :
          (phase : Phase)
          → PhaseAnswers uses phase
          → ((length uses ≡ 1) × ((e : Text) × (phase ≡ phase_escaped e)))
            ⊎ (result_ids phase ≡ some (map (λ u. some u.id) uses))
      by_phase (results blocks) h = inr (ap some (AllAnswer-ids uses blocks h))
      by_phase (phase_escaped e) h = inl (h, (e, refl))
