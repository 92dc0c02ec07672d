-- ===== src/Agent/ToolExecutor/Retry.antt =====
-- The retry loop of `_execute_single_tool`.
use koraku.Prelude.{
  ℕ, zero, suc, ◌+◌, ◌<◌, ◌≤◌, ◌≡◌, refl, ap, ◌∙◌, Bool, true, false, Option, [], ◌∷◌, ◌++◌,
  text_equality, arith, inl, inr, Bool-cases, ltb, ltb→lt, ltb-false→le,
}
use koraku.Prelude.Text.{Text, text, strip, is_space, rstrip}
use koraku.Prelude.Json.{Value, as_text}
use koraku.Agent.ToolExecutor.{
  RunOutcome, returned, raised, Tool, ToolUse, run_tool, tool_stdout_indicates_error,
}
use koraku.Agent.ToolExecutor.Execution.{
  Attempts, attempts_from, tool_result, failed_content, result, run_with_retries,
}

rstrip_cons : (c : ℕ) (s : Text) → is_space c ≡ false → rstrip (c ∷ s) ≡ c ∷ rstrip s
rstrip_cons c s h = ground arith

-- What `Tool.run` makes of an exception of the handler counts as an error for every tool, also when
-- the exception has no text.
pub handler_exception_is_error :
    (e tool_name : Text) → tool_stdout_indicates_error (text "Error: " ++ e) tool_name ≡ true
unfolding tool_stdout_indicates_error strip
handler_exception_is_error e tool_name = rw (
  rstrip_cons 69 (text "rror: " ++ e) refl,
  rstrip_cons 114 (text "ror: " ++ e) refl,
  rstrip_cons 114 (text "or: " ++ e) refl,
  rstrip_cons 111 (text "r: " ++ e) refl,
  rstrip_cons 114 (text ": " ++ e) refl,
  rstrip_cons 58 (text " " ++ e) refl,
)

-- The text of an outcome, and whether the loop tries again after it.
abbrev pub text_of : RunOutcome → Text
text_of (returned stdout) = stdout
text_of (raised e) = e

abbrev pub is_failure : Text → RunOutcome → Bool
is_failure tool_name (returned stdout) = tool_stdout_indicates_error stdout tool_name
is_failure tool_name (raised e) = true

module _ (run : ℕ → RunOutcome) (tool_name : Text) where
  after_failure :
      (left attempt : ℕ) (result_text last_error : Text)
      → is_failure tool_name (run attempt) ≡ true
      → attempts_from run tool_name (suc left) attempt result_text last_error
        ≡ attempts_from run tool_name left
            (suc attempt)
            (text_of (run attempt))
            (text_of (run attempt))
  unfolding attempts_from
  after_failure left attempt result_text last_error h = ground arith

  after_success :
      (left attempt : ℕ) (result_text last_error stdout : Text)
      → run attempt ≡ returned stdout
      → tool_stdout_indicates_error stdout tool_name ≡ false
      → attempts_from run tool_name (suc left) attempt result_text last_error ≡ record {
        result_text = stdout;
        last_error = last_error;
        is_error = false;
        runs = suc attempt;
      }
  unfolding attempts_from
  after_success left attempt result_text last_error stdout h ok = ground (arith, h, ok)

  attempts_first_success :
      (left attempt k : ℕ) (result_text last_error stdout : Text)
      → attempt ≤ k
      → k < attempt + left
      → ((j : ℕ) → attempt ≤ j → j < k → is_failure tool_name (run j) ≡ true)
      → run k ≡ returned stdout
      → tool_stdout_indicates_error stdout tool_name ≡ false
      → let tried : Attempts = attempts_from run tool_name left attempt result_text last_error in
        (tried.is_error ≡ false) × (tried.result_text ≡ stdout) × (tried.runs ≡ suc k)
  attempts_first_success zero attempt k rt le stdout above below fails h ok =
      absurd (omega (arith, above, below))
  attempts_first_success (suc left) attempt k rt le stdout above below fails h ok =
      elim (Bool-cases (ltb attempt k)) [
        | inl later ↦
            rw
              (after_failure left attempt rt le
                (fails attempt (omega arith) (ltb→lt attempt k later)))
              (attempts_first_success left (suc attempt) k (text_of (run attempt))
                (text_of (run attempt)) stdout (omega (arith, ltb→lt attempt k later))
                (omega (arith, below)) (λ j from to. fails j (omega (arith, from)) to) h ok)
        | inr now ↦
            let same : attempt ≡ k = omega (arith, above, ltb-false→le attempt k now) in
            rw (after_success left attempt rt le stdout (ap run same ∙ h) ok)
              (refl, refl, ap suc same)
      ]

  attempts_all_fail :
      (left attempt : ℕ) (result_text last_error : Text)
      → ((j : ℕ) → attempt ≤ j → j < attempt + left → is_failure tool_name (run j) ≡ true)
      → let tried : Attempts = attempts_from run tool_name left attempt result_text last_error in
        (tried.is_error ≡ true) × (tried.runs ≡ attempt + left)
  unfolding attempts_from
  attempts_all_fail zero attempt rt le fails = (refl, omega arith)
  attempts_all_fail (suc left) attempt rt le fails =
      let (bad, count) =
        attempts_all_fail left (suc attempt) (text_of (run attempt)) (text_of (run attempt))
          (λ j from to. fails j (omega (arith, from)) (omega (arith, to))) in
      rw (after_failure left attempt rt le (fails attempt (omega arith) (omega arith)))
        (bad, omega (arith, count))

module _ (repr : Value → Text) (bind_error : Value → Option Text) (max_retries : ℕ)
    (tool_use : ToolUse) (tool : Tool) (input : Value) where
  -- When an attempt within the bound succeeds and every attempt before it fails, the call answers
  -- with that attempt's output, and the tool has run exactly that often.
  pub first_success :
      (k : ℕ) (stdout : Text)
      → k ≤ max_retries
      → ((j : ℕ)
          → j < k
          → is_failure (as_text repr tool_use.name) (run_tool bind_error tool input j) ≡ true)
      → run_tool bind_error tool input k ≡ returned stdout
      → tool_stdout_indicates_error stdout (as_text repr tool_use.name) ≡ false
      → run_with_retries repr bind_error max_retries tool_use tool input ≡ record {
        reply = result (tool_result tool_use.id stdout false);
        runs = suc k;
        input = input;
      }
  unfolding run_with_retries
  first_success k stdout bound fails h ok =
      let (good, shown, count) =
        attempts_first_success (run_tool bind_error tool input) (as_text repr tool_use.name)
          (suc max_retries) 0 k [] [] stdout (omega arith) (omega (arith, bound))
          (λ j from to. fails j to) h ok in
      rw (good, shown, count)

  -- When every attempt fails the tool has run one more time than `max_retries`, and the call
  -- answers with an error.
  pub all_fail :
      ((j : ℕ)
        → j < suc max_retries
        → is_failure (as_text repr tool_use.name) (run_tool bind_error tool input j) ≡ true)
      → ((content : Text) × (run_with_retries repr bind_error max_retries tool_use tool input
            ≡ record {
              reply = result (tool_result tool_use.id content true);
              runs = suc max_retries;
              input = input;
            }))
  unfolding run_with_retries
  all_fail fails =
      let tried : Attempts =
        attempts_from (run_tool bind_error tool input) (as_text repr tool_use.name)
          (suc max_retries) 0 [] [] in
      let (bad, count) =
        attempts_all_fail (run_tool bind_error tool input) (as_text repr tool_use.name)
          (suc max_retries) 0 [] [] (λ j from to. fails j (omega (arith, to))) in
      let exactly : tried.runs ≡ suc max_retries = omega (arith, count) in
      (failed_content max_retries tried, rw (bad, exactly))
