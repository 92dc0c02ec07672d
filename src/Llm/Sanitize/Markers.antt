-- ===== src/Llm/Sanitize/Markers.antt =====
-- koraku/llm/sanitize.py: where a text has a marker, and where it may end in a part of one.
use koraku.Prelude.{
  ℕ, Bool, true, false, not, ◌&&◌, ◌||◌, Option, none, some, [], ◌∷◌, keep, length, leb, ltb,
  nat_beq, if◌then◌else◌,
}
use koraku.Prelude.Text.{Text, text, is_space, lower, lstrip, starts_with, contains_text}
use koraku.Llm.Sanitize.Matchers.{
  literal, name, call_mark, angle_mark, bracket_mark, json_mark, call_tool_head, angle_tool_head,
  bracket_tool_head, is_match,
}

unfoldable pub eat_leading_newlines_only : Text → Text
eat_leading_newlines_only [] = []
eat_leading_newlines_only (c ∷ s) =
    let rest = eat_leading_newlines_only s in if nat_beq c 10 || nat_beq c 13 then rest else c ∷ s

-- A text cut in two.
abbrev pub Cut : Type 0
Cut = Option (Text × Text)

abbrev pub after_one : ℕ → Cut → Cut
after_one c none = none
after_one c (some (before, rest)) = some (c ∷ before, rest)

-- The text before the first place where a matcher fits, and the text from there.
unfoldable pub cut_first : (Text → Bool) → Text → Cut
cut_first fits [] = none
cut_first fits (c ∷ s) =
    let later = after_one c (cut_first fits s) in if fits (c ∷ s) then some ([], c ∷ s) else later

unfoldable pub cut_last : (Text → Bool) → Text → Cut
cut_last fits [] = none
cut_last fits (c ∷ s) = elim (after_one c (cut_last fits s)) [
  | some found ↦ some found
  | none ↦ if fits (c ∷ s) then some ([], c ∷ s) else none
]

abbrev pub is_tool_marker : Text → Bool
is_tool_marker s =
    is_match (json_mark s)
    || is_match (angle_mark s)
    || is_match (call_mark s)
    || is_match (bracket_mark s)

unfoldable pub first_tool_marker : Text → Cut
first_tool_marker s = cut_first is_tool_marker s

-- The longest end of a text that begins the needle and is shorter; the needle is in lower case.
abbrev pub begins_needle : Text → Text → Bool
begins_needle needle s = ltb (length s) (length needle) && starts_with needle (lower s)

abbrev pub or_cut : Cut → Cut → Cut
or_cut none other = other
or_cut (some found) other = some found

-- tail if the test holds
abbrev pub keep_cut : (Text → Bool) → Cut → Cut
keep_cut test none = none
keep_cut test (some (before, tail)) = if test tail then some (before, tail) else none

abbrev pub starts_low : Text → Text → Bool
starts_low needle s = is_match (literal needle s)

-- re.sub(r"\s+", "", tail.lower())
abbrev pub compact : Text → Text
compact tail = keep (λ c. not (is_space c)) (lower tail)

unfoldable pub split_partial_json_tool_marker : Text → Cut
split_partial_json_tool_marker s =
    keep_cut
      (λ tail. leb 2 (length (compact tail)) && starts_with (text "{\"tool\":") (compact tail))
      (cut_last (starts_low (text "{")) s)

-- NAME\]? or nothing, up to the end of the text
abbrev pub ends_or_bracket : Text → Bool
ends_or_bracket [] = true
ends_or_bracket (c ∷ []) = nat_beq c 93
ends_or_bracket (c ∷ d ∷ s) = false

abbrev pub is_partial_name : Text → Bool
is_partial_name s = elim (name s) [ none ↦ false | some rest ↦ ends_or_bracket rest ]

abbrev pub nothing_or : (Text → Bool) → Text → Bool
nothing_or test [] = true
nothing_or test (c ∷ s) = test (c ∷ s)

-- \[Call\s*(?:NAME\]?)? and <tool_call>\s*(?:\[NAME\]?)?
abbrev pub is_partial_call : Text → Bool
is_partial_call s = elim (literal (text "[call") s) [
  | none ↦ false
  | some rest ↦ nothing_or is_partial_name (lstrip rest)
]

abbrev pub is_bracket_name : Text → Bool
is_bracket_name s = elim (literal (text "[") s) [ none ↦ false | some rest ↦ is_partial_name rest ]

abbrev pub is_partial_angle : Text → Bool
is_partial_angle s = elim (literal (text "<tool_call>") s) [
  | none ↦ false
  | some rest ↦ nothing_or is_bracket_name (lstrip rest)
]

unfoldable pub split_partial_call_tool_marker : Text → Cut
split_partial_call_tool_marker s = or_cut (cut_first (begins_needle (text "[call ")) s) (
    keep_cut (λ tail. not (is_match (call_tool_head tail)) && is_partial_call tail)
      (cut_last (starts_low (text "[call")) s))

unfoldable pub split_partial_angle_tool_marker : Text → Cut
split_partial_angle_tool_marker s = or_cut (cut_first (begins_needle (text "<tool_call>")) s) (
    keep_cut (λ tail. not (is_match (angle_tool_head tail)) && is_partial_angle tail)
      (cut_last (starts_low (text "<tool_call>")) s))

abbrev pub is_open_span : Text → Bool
is_open_span tail = elim (bracket_tool_head tail) [
  | none ↦ false
  | some rest ↦ not (contains_text (lower rest) (text "[/tool_call]"))
]

unfoldable pub split_partial_bracket_tool_marker : Text → Cut
split_partial_bracket_tool_marker s =
    or_cut (cut_first (begins_needle (text "[tool_call]")) s)
      (keep_cut is_open_span (cut_last (starts_low (text "[tool_call]")) s))

unfoldable pub split_partial_tool_marker : Text → Cut
split_partial_tool_marker s = or_cut (split_partial_json_tool_marker s) (
    or_cut (split_partial_call_tool_marker s)
      (or_cut (split_partial_angle_tool_marker s) (split_partial_bracket_tool_marker s)))
