-- ===== src/Agent/ToolExecutor/Answers.antt =====
-- Every call is answered by a result block of its own, in the order of the calls.
use koraku.Prelude.{
  ℕ, suc, ◌≡◌, refl, ap, Bool, true, false, Option, none, some, List, [], ◌∷◌, if◌then◌else◌, map,
  length, inl, inr, Bool-cases, Option-cases,
}
use koraku.Prelude.Text.{Text, text}
use koraku.Prelude.Json.{Value, as_text, get}
use koraku.Agent.Permissions.{tool_blocked_message}
use koraku.Agent.ToolExecutor.{
  Tool, ToolUse, ToolCallContext, HookResult, HookOutcome, hook_returned, hook_raised, ActiveRun,
  run_tool, resolve_tool_from_active, apply_pre_tool_hooks, ask_hook, is_denied,
  maybe_request_tool_approval, denied,
}
use koraku.Agent.ToolExecutor.Execution.{
  Attempts, attempts_from, tool_result, result_of_attempts, Reply, result, escaped,
  run_with_retries, run_if_allowed, execute_single_tool, pre_check, context_of, is_truncated,
  not_run, Phase, results, phase_escaped, execute_tools_parallel, default_max_retries, gathered,
  single,
}

-- The block is a tool result with the id of the call.
abbrev pub IsAnswer : ToolUse → Value → Type 0
IsAnswer tool_use block =
    (content : Text) × (is_error : Bool) × (block ≡ tool_result tool_use.id content is_error)

abbrev pub Answers : ToolUse → Reply → Type 0
Answers tool_use (result block) = IsAnswer tool_use block
Answers tool_use (escaped e) = Unit {0}

abbrev pub AllAnswer : List ToolUse → List Value → Type 0
AllAnswer [] [] = Unit {0}
AllAnswer (u ∷ us) (b ∷ bs) = IsAnswer u b × AllAnswer us bs
AllAnswer _ _ = ⊥

pub AllAnswer-ids :
    (uses : List ToolUse) (blocks : List Value)
    → AllAnswer uses blocks
    → map (λ b. get b (text "tool_use_id")) blocks ≡ map (λ u. some u.id) uses
AllAnswer-ids [] [] h = refl
AllAnswer-ids [] (b ∷ bs) h = absurd h
AllAnswer-ids (u ∷ us) [] h = absurd h
AllAnswer-ids (u ∷ us) (b ∷ bs) ((content, is_error, e), h) =
    cc (ap (λ v. get v (text "tool_use_id")) e, AllAnswer-ids us bs h)

gathered-IsAnswer :
    (tool_use : ToolUse) (reply : Reply)
    → Answers tool_use reply
    → IsAnswer tool_use (gathered tool_use reply)
gathered-IsAnswer tool_use (result block) h = h
gathered-IsAnswer tool_use (escaped e) h = (_, _, refl)

Answers-not_run :
    (tool_use : ToolUse) (content : Text) → Answers tool_use ((not_run tool_use content).reply)
Answers-not_run tool_use content = (content, true, refl)

-- A phase answers every call, or it is a single call whose hook has raised.
abbrev pub PhaseAnswers : List ToolUse → Phase → Type 0
PhaseAnswers uses (results blocks) = AllAnswer uses blocks
PhaseAnswers uses (phase_escaped e) = length uses ≡ 1

-- The hook has not raised.
abbrev pub Returns : HookOutcome → Type 0
Returns (hook_returned _) = Unit {0}
Returns (hook_raised _) = ⊥

abbrev pub IsResult : Reply → Type 0
IsResult (result _) = Unit {0}
IsResult (escaped _) = ⊥

apply-Returns :
    (active : ActiveRun) (ctx : ToolCallContext)
    → active.pre_tool_use ≡ none
    → Returns (apply_pre_tool_hooks active ctx)
unfolding apply_pre_tool_hooks ask_hook
apply-Returns active ctx h = by_mode (tool_blocked_message ctx.tool_name active.permission_mode)
  where
    approval : Option HookResult
    approval = maybe_request_tool_approval active ctx

    asked : (approval : Option HookResult) → Returns (ask_hook active ctx approval)
    asked approval = rw (ask_hook, h) tt

    by_denial :
        (b : Bool) → Returns (if b then hook_returned approval else ask_hook active ctx approval)
    by_denial true = tt
    by_denial false = asked approval

    by_mode :
        (blocked : Option Text)
        → Returns (elim blocked [
          | some reason ↦ hook_returned (some (denied reason))
          | none ↦
              let approval = maybe_request_tool_approval active ctx in
              if is_denied approval then hook_returned approval else ask_hook active ctx approval
        ])
    by_mode (some reason) = tt
    by_mode none = by_denial (is_denied (maybe_request_tool_approval active ctx))

pre_check-Returns :
    (active : ActiveRun) (ctx : ToolCallContext)
    → active.pre_tool_use ≡ none
    → Returns (pre_check active ctx)
unfolding pre_check
pre_check-Returns active ctx h = by_emit active.has_emit
  where
    by_emit :
        (b : Bool) → Returns (if b then apply_pre_tool_hooks active ctx else hook_returned none)
    by_emit true = apply-Returns active ctx h
    by_emit false = tt

module _ (repr : Value → Text) (bind_error : Value → Option Text) where
  Answers-retries :
      (max_retries : ℕ) (tool_use : ToolUse) (tool : Tool) (input : Value)
      → Answers tool_use ((run_with_retries repr bind_error max_retries tool_use tool input).reply)
  unfolding run_with_retries
  Answers-retries max_retries tool_use tool input = by_error (
      attempts_from (run_tool bind_error tool input) (as_text repr tool_use.name) (suc max_retries)
        0 [] [])
    where
      by_error :
          (tried : Attempts) → IsAnswer tool_use (result_of_attempts max_retries tool_use.id tried)
      by_error tried = elim (Bool-cases tried.is_error) [
        | inl e ↦ rw e (_, _, refl)
        | inr e ↦ rw e (_, _, refl)
      ]

  Answers-if_allowed :
      (max_retries : ℕ) (tool_use : ToolUse) (tool : Tool) (outcome : HookOutcome)
      → Answers tool_use ((run_if_allowed repr bind_error max_retries tool_use tool outcome).reply)
  unfolding run_if_allowed
  Answers-if_allowed max_retries tool_use tool (hook_raised e) = tt
  Answers-if_allowed max_retries tool_use tool (hook_returned none) =
      Answers-retries max_retries tool_use tool tool_use.input
  Answers-if_allowed max_retries tool_use tool (hook_returned (some pre)) =
      elim (Bool-cases pre.allow) [
        | inl e ↦ rw e (Answers-retries max_retries tool_use tool _)
        | inr e ↦ rw e (_, _, refl)
      ]

  IsResult-if_allowed :
      (max_retries : ℕ) (tool_use : ToolUse) (tool : Tool) (outcome : HookOutcome)
      → Returns outcome
      → IsResult ((run_if_allowed repr bind_error max_retries tool_use tool outcome).reply)
  unfolding run_if_allowed run_with_retries
  IsResult-if_allowed max_retries tool_use tool (hook_raised e) h = absurd h
  IsResult-if_allowed max_retries tool_use tool (hook_returned none) h = tt
  IsResult-if_allowed max_retries tool_use tool (hook_returned (some pre)) h =
      elim (Bool-cases pre.allow) [ inl e ↦ rw e tt | inr e ↦ rw e tt ]

  -- What holds of every end of a call holds of the call.
  single_cases :
      (P : Reply → Type 0) (active : ActiveRun) (tools : List Tool) (tool_use : ToolUse)
      → ((content : Text) → P ((not_run tool_use content).reply))
      → ((tool : Tool)
          → P (
              (run_if_allowed repr bind_error default_max_retries tool_use tool
                (pre_check active (context_of repr tool_use))).reply))
      → P ((execute_single_tool repr bind_error active tools default_max_retries tool_use).reply)
  unfolding execute_single_tool
  single_cases P active tools tool_use stays runs =
      elim (Bool-cases (is_truncated tool_use.input)) [
        | inl truncated ↦ rw truncated (stays _)
        | inr whole ↦ elim (Option-cases (resolve_tool_from_active tool_use.name tools)) [
          | inl missing ↦ rw (whole, missing) (stays _)
          | inr (tool, found) ↦ rw (whole, found) (runs tool)
        ]
      ]

  module _ (active : ActiveRun) (tools : List Tool) where
    abbrev pub reply_of : ToolUse → Reply
    reply_of tool_use =
        (execute_single_tool repr bind_error active tools default_max_retries tool_use).reply

    Answers-single : (tool_use : ToolUse) → Answers tool_use (reply_of tool_use)
    Answers-single tool_use =
        single_cases (Answers tool_use) active tools tool_use (Answers-not_run tool_use)
          (λ tool. Answers-if_allowed default_max_retries tool_use tool _)

    IsResult-single :
        (tool_use : ToolUse) → active.pre_tool_use ≡ none → IsResult (reply_of tool_use)
    IsResult-single tool_use h =
        single_cases IsResult active tools tool_use (λ content. tt)
          (λ tool.
            IsResult-if_allowed default_max_retries tool_use tool
              (pre_check active (context_of repr tool_use))
              (pre_check-Returns active (context_of repr tool_use) h))

    gathered-AllAnswer :
        (uses : List ToolUse) → AllAnswer uses (map (λ u. gathered u (reply_of u)) uses)
    gathered-AllAnswer [] = tt
    gathered-AllAnswer (u ∷ us) =
        (gathered-IsAnswer u (reply_of u) (Answers-single u), gathered-AllAnswer us)

    pub parallel-PhaseAnswers :
        (uses : List ToolUse)
        → PhaseAnswers uses (execute_tools_parallel repr bind_error active tools uses)
    unfolding execute_tools_parallel
    parallel-PhaseAnswers [] = tt
    parallel-PhaseAnswers (u ∷ []) = by_reply (reply_of u) (Answers-single u)
      where
        by_reply : (reply : Reply) → Answers u reply → PhaseAnswers (u ∷ []) (single reply)
        by_reply (result block) h = (h, tt)
        by_reply (escaped e) h = refl
    parallel-PhaseAnswers (u ∷ v ∷ us) = gathered-AllAnswer (u ∷ v ∷ us)

    -- Without a hook nothing raises.
    pub parallel_returns :
        (uses : List ToolUse)
        → active.pre_tool_use ≡ none
        → (blocks : List Value) × (execute_tools_parallel repr bind_error active tools uses
            ≡ results blocks)
    unfolding execute_tools_parallel
    parallel_returns [] h = ([], refl)
    parallel_returns (u ∷ []) h = by_reply (reply_of u) (IsResult-single u h)
      where
        by_reply :
            (reply : Reply)
            → IsResult reply
            → (blocks : List Value) × (single reply ≡ results blocks)
        by_reply (result block) k = (block ∷ [], refl)
        by_reply (escaped e) k = absurd k
    parallel_returns (u ∷ v ∷ us) h = (map (λ u. gathered u (reply_of u)) (u ∷ v ∷ us), refl)
