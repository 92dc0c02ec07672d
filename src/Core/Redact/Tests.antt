-- ===== src/Core/Redact/Tests.antt =====
-- A log entry with a password inside a list.
use koraku.Prelude.{◌≤◌, ◌≡◌, refl, true, [], ◌∷◌}
use koraku.Prelude.Text.{Text, text}
use koraku.Prelude.Json.{Value, str, arr, dict, items}
use koraku.Core.Redact.{Pattern, redact_mapping, redact_secrets}
use koraku.Core.Redact.Scrubbed.{is_scrubbed, height, redact_mapping_scrubs}

-- No pattern matches.
abbrev no_match : Pattern → Text → Text → Text
no_match pattern replacement s = s

abbrev entry : Value
entry = dict (
    (text "users", arr (items (dict ((text "Password", str (text "x")) ∷ []) ∷ [])))
    ∷ (text "host", str (text "a"))
    ∷ [])

abbrev hidden : Value
hidden = dict (
    (text "users", arr (items (dict ((text "Password", str (text "[REDACTED]")) ∷ []) ∷ [])))
    ∷ (text "host", str (text "a"))
    ∷ [])

abbrev cut : Value
cut = dict (
    (text "users", arr (items (str (text "[TRUNCATED]") ∷ [])))
    ∷ (text "host", str (text "a"))
    ∷ [])

redacts : (redact_mapping no_match 6 0 entry ≡ hidden) × (redact_mapping no_match 1 0 entry ≡ cut)
unfolding redact_mapping redact_secrets
redacts = (refl, refl)

redact_mapping_scrubs_example :
    (is_scrubbed (redact_mapping no_match 6 0 entry) ≡ true)
    × (height (redact_mapping no_match 6 0 entry) ≤ 7)
redact_mapping_scrubs_example = redact_mapping_scrubs no_match 6 entry
