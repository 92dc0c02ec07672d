-- ===== src/Automations/EventTriggers/Tests.antt =====
-- Two automations of one event, the second of which has a secret.
use koraku.Prelude.{true, false, ◌≡◌, refl, none, some, List, [], ◌∷◌, ◌++◌, all, text_equality}
use koraku.Prelude.Text.{Text, text, strip, or_empty}
use koraku.Prelude.Json.{Value, null, str, dict}
use koraku.Automations.EventTriggers.{
  secrets_equal, secret_fits, list_event_active, find_automations_for_event, ran, refused,
  run_matches, trigger_event,
}
use koraku.Automations.EventTriggers.Secrets.{queued_fit, refused_after_runs}

abbrev no_repr : Value → Text
no_repr v = []

abbrev automation : Text → Text → Value
automation id secret = dict (
    (text "id", str id)
    ∷ (text "trigger_mode", str (text "event"))
    ∷ (text "status", str (text "active"))
    ∷ (text "event_key", str (text "Deploy"))
    ∷ (text "event_secret", str secret)
    ∷ [])

abbrev rows : List Value
rows = automation (text "1") [] ∷ automation (text "2") (text "s3") ∷ []

both_match :
    find_automations_for_event no_repr (text "deploy ") rows
    ≡ (automation (text "1") [] ∷ []) ++ automation (text "2") (text "s3") ∷ []
unfolding find_automations_for_event list_event_active strip
both_match = refl

all_run :
    (trigger_event no_repr (λ row. null) (text "deploy") (some (text " s3 ")) rows).answer
    ≡ ran (null ∷ null ∷ [])
unfolding trigger_event run_matches find_automations_for_event list_event_active secret_fits
    secrets_equal strip
all_run = refl

open_fits : all (secret_fits no_repr (strip (or_empty none))) (automation (text "1") [] ∷ []) ≡ true
unfolding secret_fits strip
open_fits = refl

secret_misses :
    secret_fits no_repr (strip (or_empty none)) (automation (text "2") (text "s3")) ≡ false
unfolding secret_fits secrets_equal strip
secret_misses = refl

queued_fit_example :
    all
      (secret_fits no_repr (strip (text "s3")))
      ((trigger_event no_repr (λ row. null) (text "deploy") (some (text "s3")) rows).queued)
    ≡ true
queued_fit_example = queued_fit no_repr (λ row. null) (text "deploy") (some (text "s3")) rows

refused_after_runs_example :
    trigger_event no_repr (λ row. null) (text "deploy ") none rows
    ≡ record { answer = refused (text "invalid_secret"); queued = automation (text "1") [] ∷ [] }
refused_after_runs_example =
    refused_after_runs no_repr (λ row. null) (text "deploy ") none rows
      (automation (text "1") [] ∷ []) (automation (text "2") (text "s3")) [] both_match open_fits
      secret_misses
