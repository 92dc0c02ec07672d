-- ===== src/Llm/Sanitize/Ends.antt =====
-- The loops of the filter end, and `flush` leaves nothing.
use koraku.Prelude.{
  ℕ, zero, suc, ◌+◌, ◌≤◌, ◌<◌, Bool, true, false, Option, none, some, List, [], ◌∷◌, ◌++◌, length,
  length-drop, drop, take, if◌then◌else◌, ◌≡◌, refl, ap, arith,
}
use koraku.Prelude.Text.{Text}
use koraku.Prelude.Json.{Value}
use koraku.Llm.Sanitize.Matchers.{tool_json_head, is_match}
use koraku.Llm.Sanitize.Markers.{
  eat_leading_newlines_only, Cut, cut_first, first_tool_marker, split_partial_tool_marker,
  is_tool_marker,
}
use koraku.Llm.Sanitize.Shrinks.{length-eat-le, length-cut_first}
use koraku.Llm.Sanitize.Filter.{
  Strip, stripped, no_match, hold, Step, go_on, halt, is_tool_object, or_step, strip_step,
  no_marker_step, first_code, front_step, feed_step, flush_step, run_steps, feed, flush, if_some,
}
use koraku.Llm.Sanitize.Strips.{
  GoodStrip, bracket-GoodStrip, call-GoodStrip, angle-GoodStrip, json-GoodStrip,
}

-- A step that goes on leaves less; one at the end halts with nothing.
abbrev GoodStep : Bool → ℕ → Step → Type 0
GoodStep eof size (go_on emitted rest) = length rest < size
GoodStep true size (halt emitted rest) = rest ≡ []
GoodStep false size (halt emitted rest) = Unit {0}

module _ (raw_decode : Text → Option (Value × ℕ))
    (decodes_some : (s : Text) (v : Value) (end : ℕ) → raw_decode s ≡ some (v, end) → 0 < end) where
  or_step-GoodStep :
      (eof : Bool) (strip : Strip) (buf : Text) (next : Step)
      → GoodStrip eof (length buf) strip
      → GoodStep eof (length buf) next
      → GoodStep eof (length buf) (or_step raw_decode strip buf next)
  or_step-GoodStep eof (stripped rest) buf next h k = h
  or_step-GoodStep eof no_match buf next h k = k
  or_step-GoodStep true hold buf next h k = absurd h
  or_step-GoodStep false hold buf next h k = tt

  strip_step-GoodStep :
      (eof : Bool) (c : ℕ) (s : Text) (next : Step)
      → GoodStep eof (suc (length s)) next
      → GoodStep eof (suc (length s)) (strip_step raw_decode eof (c ∷ s) next)
  strip_step-GoodStep eof c s next h =
      let buf : Text = c ∷ s in
      or_step-GoodStep eof _ buf _ (bracket-GoodStrip eof buf) (
        or_step-GoodStep eof _ buf _ (call-GoodStrip raw_decode decodes_some eof buf) (
          or_step-GoodStep eof _ buf _ (angle-GoodStrip raw_decode decodes_some eof buf)
            (or_step-GoodStep eof _ buf next (json-GoodStrip raw_decode decodes_some eof c s) h)))

  front-GoodStep :
      (c : ℕ) (s : Text) → GoodStep false (suc (length s)) (front_step raw_decode (c ∷ s))
  front-GoodStep c s = by_head (is_match (tool_json_head (c ∷ s)))
    where
      by_call :
          (end : ℕ)
          → 0 < end
          → (b : Bool)
          → GoodStep false (suc (length s)) (
              if b
              then go_on [] (eat_leading_newlines_only (drop end (c ∷ s)))
              else go_on (take end (c ∷ s) ∷ []) (eat_leading_newlines_only (drop end (c ∷ s))))
      by_call end positive true =
          omega (arith, positive, length-eat-le (drop end (c ∷ s)), length-drop end (c ∷ s))
      by_call end positive false =
          omega (arith, positive, length-eat-le (drop end (c ∷ s)), length-drop end (c ∷ s))

      by_decoded :
          (decoded : Option (Value × ℕ))
          → raw_decode (c ∷ s) ≡ decoded
          → GoodStep false (suc (length s)) (elim decoded [
            | none ↦ halt [] (c ∷ s)
            | some (v, end) ↦
                if is_tool_object v
                then go_on [] (eat_leading_newlines_only (drop end (c ∷ s)))
                else go_on (take end (c ∷ s) ∷ []) (eat_leading_newlines_only (drop end (c ∷ s)))
          ])
      by_decoded none same = tt
      by_decoded (some (v, end)) same =
          by_call end (decodes_some (c ∷ s) v end same) (is_tool_object v)

      by_head :
          (b : Bool)
          → GoodStep false (suc (length s)) (
              if b
              then elim (raw_decode (c ∷ s)) [
                | none ↦ halt [] (c ∷ s)
                | some (v, end) ↦
                    if is_tool_object v
                    then go_on [] (eat_leading_newlines_only (drop end (c ∷ s)))
                    else go_on
                        (take end (c ∷ s) ∷ [])
                        (eat_leading_newlines_only (drop end (c ∷ s)))
              ]
              else first_code raw_decode (c ∷ s))
      by_head true = by_decoded (raw_decode (c ∷ s)) refl
      by_head false = omega arith

  feed_step-GoodStep :
      (c : ℕ) (s : Text) → GoodStep false (suc (length s)) (feed_step raw_decode (c ∷ s))
  unfolding feed_step first_tool_marker
  feed_step-GoodStep c s =
      strip_step-GoodStep false c s _ (by_cut (cut_first is_tool_marker (c ∷ s)) refl)
    where
      by_partial :
          (cut : Cut)
          → GoodStep false (suc (length s)) (elim cut [
            | some (emit, held) ↦ halt (if_some raw_decode emit) held
            | none ↦ halt ((c ∷ s) ∷ []) []
          ])
      by_partial none = tt
      by_partial (some (emit, held)) = tt

      by_cut :
          (cut : Cut)
          → cut_first is_tool_marker (c ∷ s) ≡ cut
          → GoodStep false (suc (length s)) (elim cut [
            | none ↦ no_marker_step raw_decode (c ∷ s)
            | some ([], found) ↦ front_step raw_decode (c ∷ s)
            | some (d ∷ before, found) ↦ go_on ((d ∷ before) ∷ []) found
          ])
      by_cut none e = by_partial (split_partial_tool_marker (c ∷ s))
      by_cut (some ([], found)) e = front-GoodStep c s
      by_cut (some (d ∷ before, found)) e =
          let (sum, positive) = length-cut_first is_tool_marker (c ∷ s) (d ∷ before) found e in
          omega (arith, sum)

  flush_step-GoodStep :
      (c : ℕ) (s : Text) → GoodStep true (suc (length s)) (flush_step raw_decode (c ∷ s))
  unfolding flush_step first_tool_marker
  flush_step-GoodStep c s =
      strip_step-GoodStep true c s _ (by_cut (cut_first is_tool_marker (c ∷ s)) refl)
    where
      by_head :
          (b : Bool)
          → GoodStep true (suc (length s)) (if b then halt [] [] else halt ((c ∷ s) ∷ []) [])
      by_head true = refl
      by_head false = refl

      by_cut :
          (cut : Cut)
          → cut_first is_tool_marker (c ∷ s) ≡ cut
          → GoodStep true (suc (length s)) (elim cut [
            | none ↦ halt ((c ∷ s) ∷ []) []
            | some ([], found) ↦
                if is_match (tool_json_head (c ∷ s)) then halt [] [] else halt ((c ∷ s) ∷ []) []
            | some (d ∷ before, found) ↦ go_on ((d ∷ before) ∷ []) found
          ])
      by_cut none e = refl
      by_cut (some ([], found)) e = by_head (is_match (tool_json_head (c ∷ s)))
      by_cut (some (d ∷ before, found)) e =
          let (sum, positive) = length-cut_first is_tool_marker (c ∷ s) (d ∷ before) found e in
          omega (arith, sum)

  -- Two loops with enough fuel are the same.
  same_steps :
      (step : Text → Step)
      → ((c : ℕ) (s : Text) → GoodStep false (suc (length s)) (step (c ∷ s)))
      → (fuel fuel' : ℕ) (buf : Text) → length buf ≤ fuel
      → length buf ≤ fuel'
      → run_steps raw_decode step fuel buf ≡ run_steps raw_decode step fuel' buf
  unfolding run_steps
  same_steps step good zero zero buf h k = refl
  same_steps step good zero (suc fuel') [] h k = refl
  same_steps step good zero (suc fuel') (c ∷ s) h k = absurd (omega (arith, h))
  same_steps step good (suc fuel) zero [] h k = refl
  same_steps step good (suc fuel) zero (c ∷ s) h k = absurd (omega (arith, k))
  same_steps step good (suc fuel) (suc fuel') [] h k = refl
  same_steps step good (suc fuel) (suc fuel') (c ∷ s) h k =
      by_step (λ rest. same_steps step good fuel fuel' rest) (step (c ∷ s)) (good c s)
    where
      after : ℕ → Step → Text × List Text
      after fuel taken = elim taken [
        | halt emitted rest ↦ (rest, emitted)
        | go_on emitted rest ↦
            let (left, later) = run_steps raw_decode step fuel rest in (left, emitted ++ later)
      ]

      by_step :
          ((rest : Text)
            → length rest ≤ fuel
            → length rest ≤ fuel'
            → run_steps raw_decode step fuel rest ≡ run_steps raw_decode step fuel' rest)
          → (taken : Step) → GoodStep false (suc (length s)) taken
          → after fuel taken ≡ after fuel' taken
      by_step later (halt emitted rest) k' = refl
      by_step later (go_on emitted rest) k' =
          ap (λ run. (run.0, emitted ++ run.1))
            (later rest (omega (arith, k', h)) (omega (arith, k', k)))

  -- When the loop is over the buffer is empty, if every halt leaves nothing.
  steps_empty :
      (step : Text → Step)
      → ((c : ℕ) (s : Text) → GoodStep true (suc (length s)) (step (c ∷ s)))
      → (fuel : ℕ) (buf : Text) → length buf ≤ fuel
      → (run_steps raw_decode step fuel buf).0 ≡ []
  unfolding run_steps
  steps_empty step good zero [] h = refl
  steps_empty step good zero (c ∷ s) h = absurd (omega (arith, h))
  steps_empty step good (suc fuel) [] h = refl
  steps_empty step good (suc fuel) (c ∷ s) h =
      by_step (λ rest. steps_empty step good fuel rest) (step (c ∷ s)) (good c s)
    where
      by_step :
          ((rest : Text) → length rest ≤ fuel → (run_steps raw_decode step fuel rest).0 ≡ [])
          → (taken : Step) → GoodStep true (suc (length s)) taken
          → (elim taken as (λ _. Text × List Text) [
            | halt emitted rest ↦ (rest, emitted)
            | go_on emitted rest ↦
                let (left, later) = run_steps raw_decode step fuel rest in (left, emitted ++ later)
          ]).0
            ≡ []
      by_step later (halt emitted rest) k = k
      by_step later (go_on emitted rest) k = later rest (omega (arith, k, h))

  -- The loop of `feed` ends: more fuel than the buffer is long changes nothing. `raw_decode` reads at
  -- least one code point of what it decodes.
  pub feed_ends :
      (buf : Text) (c : ℕ) (chunk : Text) (extra : ℕ)
      → feed raw_decode buf (c ∷ chunk)
        ≡ run_steps raw_decode
            (feed_step raw_decode)
            (extra + length (buf ++ c ∷ chunk))
            (buf ++ c ∷ chunk)
  unfolding feed
  feed_ends buf c chunk extra =
      same_steps (feed_step raw_decode) (feed_step-GoodStep) _ (extra + length (buf ++ c ∷ chunk))
        (buf ++ c ∷ chunk) (omega arith) (omega arith)

  -- At the end of a stream `flush` leaves nothing in the buffer, whatever it held. `raw_decode` reads at
  -- least one code point of what it decodes.
  pub flush_empties : (buf : Text) → (flush raw_decode buf).0 ≡ []
  unfolding flush
  flush_empties buf =
      steps_empty (flush_step raw_decode) flush_step-GoodStep (length buf) buf (omega arith)
