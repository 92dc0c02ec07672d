-- ===== src/Automations/EventTriggers.antt =====
-- koraku/automations/event_triggers.py, with `secrets_equal` of koraku/core/secret_compare.py. The
-- rows are those of `list_automations`; `queued` are the ids that `queue_automation_run` got.
pub mod Secrets
pub mod Tests
use koraku.Prelude.{
  Bool, true, false, not, ◌&&◌, ◌||◌, ℕ, Option, none, some, List, [], ◌∷◌, ◌++◌, keep, all,
  if◌then◌else◌, length, text_equality, ◌==◌,
}
use koraku.Prelude.Text.{Text, text, strip, lower, is_empty, or_empty}
use koraku.Prelude.Json.{Value, get, is_text, as_text}
use koraku.Agent.Message.{or_blank}

unfoldable pub list_event_active : List Value → List Value
list_event_active rows =
    keep
      (λ row.
        is_text (get row (text "trigger_mode")) (text "event")
        && is_text (get row (text "status")) (text "active"))
      rows

-- The event that a row waits for.
abbrev pub row_event_key : (Value → Text) → Value → Text
row_event_key repr row = lower (strip (or_blank repr (get row (text "event_key"))))

unfoldable pub find_automations_for_event : (Value → Text) → Text → List Value → List Value
find_automations_for_event repr event_key rows =
    let key = lower (strip event_key) in
    if is_empty key
    then []
    else keep (λ row. row_event_key repr row == key) (list_event_active rows)

abbrev pub expected_secret : (Value → Text) → Value → Text
expected_secret repr row = strip (or_blank repr (get row (text "event_secret")))

unfoldable pub secrets_equal : Text → Text → Bool
secrets_equal expected provided =
    let a = strip expected in
    let b = strip provided in if is_empty a || is_empty b then false else a == b

-- not (expected and not secrets_equal(expected, given))
unfoldable pub secret_fits : (Value → Text) → Text → Value → Bool
secret_fits repr given row =
    is_empty (expected_secret repr row) || secrets_equal (expected_secret repr row) given

-- What a trigger answers: `ok` with the results, or an error.
pub data Triggered : Type 0 where
  ran : List Value → Triggered
  refused : Text → Triggered

pub record Trigger : Type 0 where
  pub answer : Triggered
  pub queued : List Value

-- The loop over the rows that match; `queue` is the result of `queue_automation_run` on a row.
unfoldable pub run_matches :
    (Value → Text) → (Value → Value) → Text → List Value → List Value → List Value → Trigger
run_matches repr queue given queued results [] = record { answer = ran results; queued = queued }
run_matches repr queue given queued results (row ∷ rest) =
    let later =
      run_matches repr queue given (queued ++ row ∷ []) (results ++ queue row ∷ []) rest in
    elim (secret_fits repr given row) [
      | true ↦ later
      | false ↦ record { answer = refused (text "invalid_secret"); queued = queued }
    ]

abbrev pub run_found : (Value → Text) → (Value → Value) → Text → List Value → Trigger
run_found repr queue given [] = record {
  answer = refused (text "no_matching_automation");
  queued = [];
}
run_found repr queue given (row ∷ rest) = run_matches repr queue given [] [] (row ∷ rest)

unfoldable pub trigger_event :
    (Value → Text) → (Value → Value) → Text → Option Text → List Value → Trigger
trigger_event repr queue event_key secret rows =
    run_found repr queue (strip (or_empty secret)) (find_automations_for_event repr event_key rows)
