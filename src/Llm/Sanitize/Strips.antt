-- ===== src/Llm/Sanitize/Strips.antt =====
-- An attempt to strip a call leaves a shorter buffer.
use koraku.Prelude.{
  ℕ, suc, ◌+◌, ◌-◌, ◌≤◌, ◌<◌, Bool, true, false, Option, none, some, [], ◌∷◌, length, length-drop,
  drop, take, nat_beq, if◌then◌else◌, ◌≡◌, refl, arith,
}
use koraku.Prelude.Text.{Text, text, lstrip, is_empty, strip, starts_with}
use koraku.Prelude.Json.{Value}
use koraku.Llm.Sanitize.Matchers.{
  bracket_tool_head, bracket_tool_close_head, call_tool_head, angle_tool_head, angle_tool_close,
  tool_json_head, json_mark, is_match,
}
use koraku.Llm.Sanitize.Markers.{eat_leading_newlines_only, Cut, cut_first, starts_low}
use koraku.Llm.Sanitize.Shrinks.{
  call_tool_head-Strict, angle_tool_head-Strict, angle_tool_close-Short, bracket_tool_head-Strict,
  bracket_tool_close_head-Short, length-eat-le, length-cut_first,
}
use koraku.Llm.Sanitize.Filter.{
  Strip, stripped, no_match, hold, nothing_left, from_close, is_tool_object,
  try_strip_leading_bracket_tool_call, unread, try_strip_leading_call_tool, close_angle,
  try_strip_leading_angle_tool, before_marker, strip_object, try_strip_leading_tool_json_object,
}

-- An attempt that strips leaves less; one at the end never holds.
abbrev pub GoodStrip : Bool → ℕ → Strip → Type 0
GoodStrip eof size (stripped rest) = length rest < size
GoodStrip eof size no_match = Unit {0}
GoodStrip true size hold = ⊥
GoodStrip false size hold = Unit {0}

nothing_left-GoodStrip : (eof : Bool) (size : ℕ) → 0 < size → GoodStrip eof size (nothing_left eof)
nothing_left-GoodStrip true size h = h
nothing_left-GoodStrip false size h = tt

pub bracket-GoodStrip :
    (eof : Bool) (buf : Text)
    → GoodStrip eof (length buf) (try_strip_leading_bracket_tool_call eof buf)
unfolding try_strip_leading_bracket_tool_call
bracket-GoodStrip eof buf = by_head (bracket_tool_head buf) refl
  where
    by_head :
        (head : Option Text)
        → bracket_tool_head buf ≡ head
        → GoodStrip eof (length buf) (elim head [
          | none ↦ no_match
          | some rest ↦ elim (from_close rest) [
            | none ↦ nothing_left eof
            | some tail_from_close ↦ elim (bracket_tool_close_head tail_from_close) [
              | none ↦ nothing_left eof
              | some tail ↦ stripped (eat_leading_newlines_only tail)
            ]
          ]
        ])
    by_head none same = tt
    by_head (some rest) same = by_cut (cut_first (starts_low (text "[/tool_call]")) rest) refl
      where
        less : length rest < length buf
        less = bracket_tool_head-Strict buf rest same

        by_close :
            (found : Text)
            → length found ≤ length rest
            → (close : Option Text) → bracket_tool_close_head found ≡ close
            → GoodStrip eof (length buf) (elim close [
              | none ↦ nothing_left eof
              | some tail ↦ stripped (eat_leading_newlines_only tail)
            ])
        by_close found shorter none e =
            nothing_left-GoodStrip eof (length buf) (omega (arith, less))
        by_close found shorter (some tail) e =
            omega
              (arith, less, shorter, length-eat-le tail, bracket_tool_close_head-Short found tail e)

        by_cut :
            (cut : Cut)
            → cut_first (starts_low (text "[/tool_call]")) rest ≡ cut
            → GoodStrip eof
                (length buf)
                (elim (elim cut as (λ _. Option Text) [
                  | none ↦ none
                  | some (before, found) ↦ some found
                ]) [
                  | none ↦ nothing_left eof
                  | some tail_from_close ↦ elim (bracket_tool_close_head tail_from_close) [
                    | none ↦ nothing_left eof
                    | some tail ↦ stripped (eat_leading_newlines_only tail)
                  ]
                ])
        by_cut none e = nothing_left-GoodStrip eof (length buf) (omega (arith, less))
        by_cut (some (before, found)) e =
            by_close found
              (omega (
                arith,
                (length-cut_first (starts_low (text "[/tool_call]")) rest before found e).0,
              ))
              (bracket_tool_close_head found) refl

module _ (raw_decode : Text → Option (Value × ℕ))
    (decodes_some : (s : Text) (v : Value) (end : ℕ) → raw_decode s ≡ some (v, end) → 0 < end) where
  unread-GoodStrip :
      (eof : Bool) (rest : Text) (size : ℕ)
      → length rest < size
      → GoodStrip eof size (unread raw_decode eof rest)
  unread-GoodStrip true rest size h = omega (arith, h)
  unread-GoodStrip false rest size h = by_test (starts_with (lstrip rest) (text "{"))
    where
      by_test :
          (b : Bool)
          → GoodStrip false size (if b then hold else stripped (eat_leading_newlines_only rest))
      by_test true = tt
      by_test false = omega (arith, h, length-eat-le rest)

  -- What a head with a rest that is blank, unread or read gives.
  args-GoodStrip :
      (eof : Bool) (rest arguments : Text) (size : ℕ) (after : ℕ → Strip) (blank : Bool)
      → length rest < size
      → ((end : ℕ) → GoodStrip eof size (after end))
      → GoodStrip eof size (
          if blank then nothing_left eof else elim (raw_decode arguments) [
            | none ↦ unread raw_decode eof rest
            | some (_, end) ↦ after end
          ])
  args-GoodStrip eof rest arguments size after true h k =
      nothing_left-GoodStrip eof size (omega (arith, h))
  args-GoodStrip eof rest arguments size after false h k = by_decoded (raw_decode arguments)
    where
      by_decoded :
          (decoded : Option (Value × ℕ))
          → GoodStrip eof size
              (elim decoded [ none ↦ unread raw_decode eof rest | some (_, end) ↦ after end ])
      by_decoded none = unread-GoodStrip eof rest size h
      by_decoded (some (v, end)) = k end

  pub call-GoodStrip :
      (eof : Bool) (buf : Text)
      → GoodStrip eof (length buf) (try_strip_leading_call_tool raw_decode eof buf)
  unfolding try_strip_leading_call_tool
  call-GoodStrip eof buf = by_head (call_tool_head buf) refl
    where
      by_head :
          (head : Option Text)
          → call_tool_head buf ≡ head
          → GoodStrip eof (length buf) (elim head [
            | none ↦ no_match
            | some rest ↦
                if is_empty (strip rest) then nothing_left eof else elim (raw_decode rest) [
                  | none ↦ unread raw_decode eof rest
                  | some (_, end) ↦ stripped (eat_leading_newlines_only (drop end rest))
                ]
          ])
      by_head none same = tt
      by_head (some rest) same =
          args-GoodStrip eof rest rest (length buf)
            (λ end. stripped (eat_leading_newlines_only (drop end rest))) (is_empty (strip rest))
            (call_tool_head-Strict buf rest same)
            (λ end. omega (
              arith,
              call_tool_head-Strict buf rest same,
              length-eat-le (drop end rest),
              length-drop end rest,
            ))

  close-GoodStrip :
      (eof : Bool) (tail : Text) (size : ℕ)
      → length tail < size
      → GoodStrip eof size (close_angle raw_decode eof tail)
  close-GoodStrip eof tail size h = by_close (angle_tool_close tail) refl eof
    where
      by_close :
          (close : Option Text)
          → angle_tool_close tail ≡ close
          → (eof : Bool)
          → GoodStrip eof size (elim close [
            | some after ↦ stripped (eat_leading_newlines_only after)
            | none ↦ if eof then stripped (eat_leading_newlines_only tail) else hold
          ])
      by_close (some after) e eof =
          omega (arith, h, length-eat-le after, angle_tool_close-Short tail after e)
      by_close none e true = omega (arith, h, length-eat-le tail)
      by_close none e false = tt

  pub angle-GoodStrip :
      (eof : Bool) (buf : Text)
      → GoodStrip eof (length buf) (try_strip_leading_angle_tool raw_decode eof buf)
  unfolding try_strip_leading_angle_tool
  angle-GoodStrip eof buf = by_head (angle_tool_head buf) refl
    where
      by_head :
          (head : Option Text)
          → angle_tool_head buf ≡ head
          → GoodStrip eof (length buf) (elim head [
            | none ↦ no_match
            | some rest ↦
                if is_empty (strip rest)
                then nothing_left eof
                else elim (raw_decode (lstrip rest)) [
                  | none ↦ unread raw_decode eof rest
                  | some (_, end) ↦
                      close_angle raw_decode eof
                        (drop (length rest - length (lstrip rest) + end) rest)
                ]
          ])
      by_head none same = tt
      by_head (some rest) same =
          let cut : ℕ → Text = λ end. drop (length rest - length (lstrip rest) + end) rest in
          args-GoodStrip eof rest (lstrip rest) (length buf)
            (λ end. close_angle raw_decode eof (cut end)) (is_empty (strip rest))
            (angle_tool_head-Strict buf rest same)
            (λ end. close-GoodStrip eof (cut end) (length buf) (
              omega (
                arith,
                angle_tool_head-Strict buf rest same,
                length-drop (length rest - length (lstrip rest) + end) rest,
              )))

  object-GoodStrip :
      (eof : Bool) (c : ℕ) (s : Text)
      → GoodStrip eof (suc (length s)) (strip_object raw_decode eof (c ∷ s))
  object-GoodStrip eof c s = by_decoded (raw_decode (c ∷ s)) refl
    where
      before-lt : length (before_marker raw_decode (c ∷ s)) < suc (length s)
      before-lt = by_cut (cut_first (λ t. is_match (json_mark t)) (c ∷ s)) refl
        where
          by_cut :
              (cut : Cut)
              → cut_first (λ t. is_match (json_mark t)) (c ∷ s) ≡ cut
              → length (elim cut as (λ _. Text) [ none ↦ [] | some (before, _) ↦ before ])
                < suc (length s)
          by_cut none e = omega arith
          by_cut (some (before, found)) e =
              let (sum, positive) =
                length-cut_first (λ t. is_match (json_mark t)) (c ∷ s) before found e in
              omega (arith, sum, positive)

      by_eof :
          (eof : Bool)
          → GoodStrip eof
              (suc (length s))
              (if eof then stripped (before_marker raw_decode (c ∷ s)) else hold)
      by_eof true = before-lt
      by_eof false = tt

      by_head :
          (b : Bool)
          → GoodStrip eof (suc (length s)) (
              if b
              then if eof then stripped (before_marker raw_decode (c ∷ s)) else hold
              else no_match)
      by_head true = by_eof eof
      by_head false = tt

      by_call :
          (end : ℕ)
          → 0 < end
          → (b : Bool)
          → GoodStrip eof
              (suc (length s))
              (if b then stripped (eat_leading_newlines_only (drop end (c ∷ s))) else no_match)
      by_call end positive true =
          omega (arith, positive, length-eat-le (drop end (c ∷ s)), length-drop end (c ∷ s))
      by_call end positive false = tt

      by_decoded :
          (decoded : Option (Value × ℕ))
          → raw_decode (c ∷ s) ≡ decoded
          → GoodStrip eof (suc (length s)) (elim decoded [
            | none ↦
                if is_match (tool_json_head (take 8192 (c ∷ s)))
                then if eof then stripped (before_marker raw_decode (c ∷ s)) else hold
                else no_match
            | some (v, end) ↦
                if is_tool_object v
                then stripped (eat_leading_newlines_only (drop end (c ∷ s)))
                else no_match
          ])
      by_decoded none same = by_head (is_match (tool_json_head (take 8192 (c ∷ s))))
      by_decoded (some (v, end)) same =
          by_call end (decodes_some (c ∷ s) v end same) (is_tool_object v)

  pub json-GoodStrip :
      (eof : Bool) (c : ℕ) (s : Text)
      → GoodStrip eof (suc (length s)) (try_strip_leading_tool_json_object raw_decode eof (c ∷ s))
  unfolding try_strip_leading_tool_json_object
  json-GoodStrip eof c s = by_brace (nat_beq c 123)
    where
      by_brace :
          (b : Bool)
          → GoodStrip eof
              (suc (length s))
              (if b then strip_object raw_decode eof (c ∷ s) else no_match)
      by_brace true = object-GoodStrip eof c s
      by_brace false = tt
