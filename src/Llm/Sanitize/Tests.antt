-- ===== src/Llm/Sanitize/Tests.antt =====
-- The filter on a stream with a call, and on a call that a chunk cuts behind its brace.
use koraku.Prelude.{
  ℕ, ◌+◌, ◌<◌, ◌≡◌, refl, ap, Bool, true, false, Option, none, some, [], ◌∷◌, ◌++◌, length, ◌==◌,
  text_equality, arith,
}
use mathlib.Core.Option.{some-injective, none-ne-some}
use koraku.Prelude.Text.{Text, text}
use koraku.Prelude.Json.{Value, str, dict}
use koraku.Llm.Sanitize.Filter.{run_steps, feed_step, feed, flush}
use koraku.Llm.Sanitize.Ends.{feed_ends, flush_empties}
use koraku.Llm.Sanitize.Plain.{feed_all, plain_passes}

abbrev call_text : Text
call_text = text "{\"tool\":\"Read\"}"

-- A decoder that reads one object.
abbrev read_if : Bool → Value → Option (Value × ℕ)
read_if true v = some (v, 15)
read_if false v = none

abbrev read_call : Text → Option (Value × ℕ)
read_call s = read_if (s == call_text) (dict ((text "tool", str (text "Read")) ∷ []))

by_test : (b : Bool) (v w : Value) (end : ℕ) → read_if b v ≡ some (w, end) → 0 < end
by_test true v w end e =
    let same : Path ℕ 15 end = ap (λ p. p.1) (some-injective _ _ e) in omega (arith, same)
by_test false v w end e = absurd (none-ne-some _ e)

reads_some : (s : Text) (v : Value) (end : ℕ) → read_call s ≡ some (v, end) → 0 < end
reads_some s v end e = by_test (s == call_text) _ v end e

feed_ends_example :
    feed read_call (text "so ") (text "{\"tool\":\"Read\"}")
    ≡ run_steps read_call
        (feed_step read_call)
        (7 + length (text "so " ++ call_text))
        (text "so " ++ call_text)
feed_ends_example = feed_ends read_call reads_some (text "so ") 123 (text "\"tool\":\"Read\"}") 7

flush_empties_example : (flush read_call (text "so {\"tool\":\"Re")).0 ≡ []
flush_empties_example = flush_empties read_call reads_some (text "so {\"tool\":\"Re")

plain_passes_example :
    feed_all read_call [] (text "It " ∷ [] ∷ text "is done." ∷ [])
    ≡ ([], text "It " ∷ text "is done." ∷ [])
plain_passes_example = plain_passes read_call (text "It " ∷ [] ∷ text "is done." ∷ []) refl
