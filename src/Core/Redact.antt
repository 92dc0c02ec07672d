-- ===== src/Core/Redact.antt =====
-- koraku/core/redact.py: what a log may show of a JSON value.
pub mod Scrubbed
pub mod Tests
use koraku.Prelude.{
  ℕ, zero, suc, ◌+◌, Bool, true, false, if◌then◌else◌, List, [], ◌∷◌, ◌++◌, contains, ltb,
  text_equality,
}
use koraku.Prelude.Text.{Text, text, lower}
use koraku.Prelude.Json.{
  Value, null, bool, num, str, arr, obj, Items, nil, cons, Fields, end, field,
}

abbrev pub placeholder : Text
placeholder = text "[REDACTED]"

abbrev pub sensitive_key : List Text
sensitive_key =
    text "password"
    ∷ text "passwd"
    ∷ text "secret"
    ∷ text "api_key"
    ∷ text "apikey"
    ∷ text "authorization"
    ∷ text "access_token"
    ∷ text "refresh_token"
    ∷ text "id_token"
    ∷ text "token"
    ∷ text "client_secret"
    ∷ text "private_key"
    ∷ text "anthropic_api_key"
    ∷ text "openai_api_key"
    ∷ []

-- The regular expressions.
pub data Pattern : Type 0 where
  bearer : Pattern
  jwt : Pattern
  apiish : Pattern
  hex_run : Pattern

-- `sub` is `sub` of a compiled pattern, given the replacement and the text.
module _ (sub : Pattern → Text → Text → Text) where
  unfoldable pub redact_secrets : Text → Text
  redact_secrets [] = []
  redact_secrets (c ∷ s) = sub hex_run placeholder (
      sub apiish placeholder
        (sub jwt placeholder (sub bearer (text "Bearer " ++ placeholder) (c ∷ s))))

  module _ (max_depth : ℕ) where
    abbrev pub unless_deep : ℕ → Value → Value
    unless_deep depth v = if ltb max_depth depth then str (text "[TRUNCATED]") else v

    -- The last argument but one of `redact_items` and `redact_fields` is what islice leaves to take.
    -- The keys of a dict differ, so each begins a new entry of the result.
    unfoldable mutual
      pub redact_mapping : ℕ → Value → Value
      redact_mapping depth null = unless_deep depth null
      redact_mapping depth (bool b) = unless_deep depth (bool b)
      redact_mapping depth (num n) = unless_deep depth (num n)
      redact_mapping depth (str s) = unless_deep depth (str (redact_secrets s))
      redact_mapping depth (arr vs) = unless_deep depth (arr (redact_items (depth + 1) 200 vs))
      redact_mapping depth (obj fs) = unless_deep depth (obj (redact_fields (depth + 1) 200 fs))

      pub redact_items : ℕ → ℕ → Items → Items
      redact_items depth n nil = nil
      redact_items depth zero (cons v vs) = nil
      redact_items depth (suc n) (cons v vs) =
          cons (redact_mapping depth v) (redact_items depth n vs)

      pub redact_fields : ℕ → ℕ → Fields → Fields
      redact_fields depth n end = end
      redact_fields depth zero (field k v fs) = end
      redact_fields depth (suc n) (field k v fs) =
          let shown = redact_mapping depth v in
          field k (if contains sensitive_key (lower k) then str placeholder else shown)
            (redact_fields depth n fs)
