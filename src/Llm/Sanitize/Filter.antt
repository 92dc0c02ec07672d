-- ===== src/Llm/Sanitize/Filter.antt =====
-- koraku/llm/sanitize.py: the steps of `feed` and `flush`, and their loops.
use koraku.Prelude.{
  ℕ, zero, suc, Bool, true, false, Option, none, some, List, [], ◌∷◌, ◌++◌, length, take, drop,
  nat_beq, ◌-◌, ◌+◌, if◌then◌else◌,
}
use koraku.Prelude.Text.{Text, text, is_empty, lstrip, strip, starts_with}
use koraku.Prelude.Json.{Value, str, get}
use koraku.Llm.Sanitize.Matchers.{
  bracket_tool_head, bracket_tool_close_head, call_tool_head, angle_tool_head, angle_tool_close,
  tool_json_head, json_mark, is_match,
}
use koraku.Llm.Sanitize.Markers.{
  eat_leading_newlines_only, cut_first, first_tool_marker, split_partial_tool_marker, starts_low,
}

-- What an attempt to strip a call off the front gives: the rest (True), no call (False), or a call
-- that is not complete (None).
pub data Strip : Type 0 where
  stripped : Text → Strip
  no_match hold : Strip

-- A step of a loop emits texts and goes on with a buffer, or ends with one.
pub data Step : Type 0 where
  go_on : List Text → Text → Step
  halt : List Text → Text → Step

abbrev pub nothing_left : Bool → Strip
nothing_left true = stripped []
nothing_left false = hold

-- The rest of a text from "[/tool_call]" on.
abbrev pub from_close : Text → Option Text
from_close rest = elim (cut_first (starts_low (text "[/tool_call]")) rest) [
  | none ↦ none
  | some (before, found) ↦ some found
]

unfoldable pub try_strip_leading_bracket_tool_call : Bool → Text → Strip
try_strip_leading_bracket_tool_call eof buf = elim (bracket_tool_head buf) [
  | none ↦ no_match
  | some rest ↦ elim (from_close rest) [
    | none ↦ nothing_left eof
    | some tail_from_close ↦ elim (bracket_tool_close_head tail_from_close) [
      | none ↦ nothing_left eof
      | some tail ↦ stripped (eat_leading_newlines_only tail)
    ]
  ]
]

-- `isinstance(obj, dict) and isinstance(obj.get("tool"), str)`
abbrev pub is_string : Option Value → Bool
is_string (some (str s)) = true
is_string _ = false

abbrev pub is_tool_object : Value → Bool
is_tool_object v = is_string (get v (text "tool"))

-- `raw_decode` is `JSONDecoder().raw_decode`: the value that a text begins with, and its length.
module _ (raw_decode : Text → Option (Value × ℕ)) where
  -- What follows a head whose arguments cannot be read.
  abbrev pub unread : Bool → Text → Strip
  unread true rest = stripped []
  unread false rest =
      if starts_with (lstrip rest) (text "{")
      then hold
      else stripped (eat_leading_newlines_only rest)

  unfoldable pub try_strip_leading_call_tool : Bool → Text → Strip
  try_strip_leading_call_tool eof buf = elim (call_tool_head buf) [
    | none ↦ no_match
    | some rest ↦ if is_empty (strip rest) then nothing_left eof else elim (raw_decode rest) [
      | none ↦ unread eof rest
      | some (_, end) ↦ stripped (eat_leading_newlines_only (drop end rest))
    ]
  ]

  abbrev pub close_angle : Bool → Text → Strip
  close_angle eof tail = elim (angle_tool_close tail) [
    | some after ↦ stripped (eat_leading_newlines_only after)
    | none ↦ if eof then stripped (eat_leading_newlines_only tail) else hold
  ]

  unfoldable pub try_strip_leading_angle_tool : Bool → Text → Strip
  try_strip_leading_angle_tool eof buf = elim (angle_tool_head buf) [
    | none ↦ no_match
    | some rest ↦
        if is_empty (strip rest) then nothing_left eof else elim (raw_decode (lstrip rest)) [
          | none ↦ unread eof rest
          | some (_, end) ↦ close_angle eof (drop (length rest - length (lstrip rest) + end) rest)
        ]
  ]

  -- The text before a marker of an object, or nothing.
  abbrev pub before_marker : Text → Text
  before_marker buf = elim (cut_first (λ s. is_match (json_mark s)) buf) [
    | none ↦ []
    | some (before, _) ↦ before
  ]

  abbrev pub strip_object : Bool → Text → Strip
  strip_object eof buf = elim (raw_decode buf) [
    | none ↦
        if is_match (tool_json_head (take 8192 buf))
        then if eof then stripped (before_marker buf) else hold
        else no_match
    | some (v, end) ↦
        if is_tool_object v then stripped (eat_leading_newlines_only (drop end buf)) else no_match
  ]

  unfoldable pub try_strip_leading_tool_json_object : Bool → Text → Strip
  try_strip_leading_tool_json_object eof [] = no_match
  try_strip_leading_tool_json_object eof (c ∷ s) =
      if nat_beq c 123 then strip_object eof (c ∷ s) else no_match

  -- One attempt, and what follows where there is no call.
  abbrev pub or_step : Strip → Text → Step → Step
  or_step (stripped rest) buf next = go_on [] rest
  or_step hold buf next = halt [] buf
  or_step no_match buf next = next

  abbrev pub strip_step : Bool → Text → Step → Step
  strip_step eof buf next = or_step (try_strip_leading_bracket_tool_call eof buf) buf (
      or_step (try_strip_leading_call_tool eof buf) buf (
        or_step (try_strip_leading_angle_tool eof buf) buf
          (or_step (try_strip_leading_tool_json_object eof buf) buf next)))

  abbrev pub if_some : Text → List Text
  if_some [] = []
  if_some (c ∷ s) = (c ∷ s) ∷ []

  abbrev pub no_marker_step : Text → Step
  no_marker_step buf = elim (split_partial_tool_marker buf) [
    | some (emit, held) ↦ halt (if_some emit) held
    | none ↦ halt (buf ∷ []) []
  ]

  abbrev pub first_code : Text → Step
  first_code [] = halt [] []
  first_code (c ∷ s) = go_on ((c ∷ []) ∷ []) s

  -- A marker at the front. The other three attempts are made a second time where their heads match;
  -- none does, since the first time they have found no call in the same buffer.
  abbrev pub front_step : Text → Step
  front_step buf =
      if is_match (tool_json_head buf)
      then elim (raw_decode buf) [
        | none ↦ halt [] buf
        | some (v, end) ↦
            if is_tool_object v
            then go_on [] (eat_leading_newlines_only (drop end buf))
            else go_on (take end buf ∷ []) (eat_leading_newlines_only (drop end buf))
      ]
      else first_code buf

  abbrev pub marker_step : Text → Step
  marker_step buf = elim (first_tool_marker buf) [
    | none ↦ no_marker_step buf
    | some ([], found) ↦ front_step buf
    | some (c ∷ before, found) ↦ go_on ((c ∷ before) ∷ []) found
  ]

  unfoldable pub feed_step : Text → Step
  feed_step buf = strip_step false buf (marker_step buf)

  -- At the end, a marker at the front is followed by a call that is not complete.
  abbrev pub last_step : Text → Step
  last_step buf = elim (first_tool_marker buf) [
    | none ↦ halt (buf ∷ []) []
    | some ([], found) ↦ if is_match (tool_json_head buf) then halt [] [] else halt (buf ∷ []) []
    | some (c ∷ before, found) ↦ go_on ((c ∷ before) ∷ []) found
  ]

  unfoldable pub flush_step : Text → Step
  flush_step buf = strip_step true buf (last_step buf)

  -- `while self._buf`, on fuel: the buffer that is left, and what is emitted.
  unfoldable pub run_steps : (Text → Step) → ℕ → Text → Text × List Text
  run_steps step zero buf = (buf, [])
  run_steps step (suc fuel) [] = ([], [])
  run_steps step (suc fuel) (c ∷ s) = elim (step (c ∷ s)) [
    | halt emitted rest ↦ (rest, emitted)
    | go_on emitted rest ↦ let (left, later) = run_steps step fuel rest in (left, emitted ++ later)
  ]

  -- Each step that goes on has a shorter buffer, so its length is fuel enough.
  unfoldable pub feed : Text → Text → Text × List Text
  feed buf [] = (buf, [])
  feed buf (c ∷ chunk) = let whole = buf ++ c ∷ chunk in run_steps feed_step (length whole) whole

  unfoldable pub flush : Text → Text × List Text
  flush buf = run_steps flush_step (length buf) buf
