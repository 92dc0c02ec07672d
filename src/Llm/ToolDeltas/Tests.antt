-- ===== src/Llm/ToolDeltas/Tests.antt =====
-- A stream that mixes the fragments of two calls.
use koraku.Prelude.{
  if◌then◌else◌, ◌==◌, true, false, ℕ, ◌≡◌, refl, Option, none, some, List, [], ◌∷◌, nat_equality,
  text_equality,
}
use koraku.Prelude.Text.{Text, text, strip, decimal}
use koraku.Prelude.Dict
use koraku.Prelude.Dict.{Dict}
use koraku.Prelude.Json.{Value, null, num, str, dict}
use koraku.Llm.ToolDeltas.{
  slot_at, retryable_http_status, accumulate_openai_tool_call_deltas, merge_fragment,
  tool_call_slots_to_blocks,
}
use koraku.Llm.ToolDeltas.Merge.{fragments_at, merge_all, slot_at-accumulate}

abbrev no_repr : Value → Text
no_repr v = []

abbrev index_of : Option Value → ℕ
index_of (some (num s)) = if s == text "1" then 1 else 0
index_of _ = 0

abbrev fragment : Text → Text → Text → Text → Value
fragment index id name arguments = dict (
    (text "index", num index)
    ∷ (text "id", str id)
    ∷ (text "function", dict ((text "name", str name) ∷ (text "arguments", str arguments) ∷ []))
    ∷ [])

abbrev mixed : List Value
mixed =
    fragment (text "0") (text "a") (text "Read") (text "{\"pa")
    ∷ fragment (text "1") [] (text "Glob") (text "{")
    ∷ null
    ∷ fragment (text "0") [] [] (text "th\"")
    ∷ fragment (text "1") [] [] (text "}")
    ∷ []

retries : (retryable_http_status 429 ≡ true) × (retryable_http_status 404 ≡ false)
unfolding retryable_http_status
retries = (refl, refl)

-- The second call has no id and gets one from its index; the first is cut off.
mixed_blocks :
    tool_call_slots_to_blocks
      (λ s. none)
      (accumulate_openai_tool_call_deltas no_repr index_of [] mixed)
    ≡ dict (
        (text "type", str (text "tool_use"))
        ∷ (text "id", str (text "a"))
        ∷ (text "name", str (text "Read"))
        ∷ (text "input", dict ((text "_partial_json", str (text "{\"path\"")) ∷ []))
        ∷ [])
      ∷ dict (
          (text "type", str (text "tool_use"))
          ∷ (text "id", str (text "tool_1"))
          ∷ (text "name", str (text "Glob"))
          ∷ (text "input", dict ((text "_partial_json", str (text "{}")) ∷ []))
          ∷ [])
      ∷ []
unfolding tool_call_slots_to_blocks accumulate_openai_tool_call_deltas merge_fragment Dict.get
    Dict.put strip decimal
mixed_blocks = refl

slot_at-accumulate_example :
    slot_at (accumulate_openai_tool_call_deltas no_repr index_of [] mixed) 1
    ≡ merge_all no_repr index_of (slot_at [] 1) (fragments_at no_repr index_of 1 mixed)
slot_at-accumulate_example = slot_at-accumulate no_repr index_of [] mixed 1
