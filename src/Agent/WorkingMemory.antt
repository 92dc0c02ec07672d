-- ===== src/Agent/WorkingMemory.antt =====
-- koraku/agent/utils.py: the scratchpad that the later rounds of a run see.
use koraku.Prelude.{
  ℕ, zero, suc, ◌+◌, ◌-◌, ◌*◌, Bool, true, false, not, ◌&&◌, Option, none, some, List, [], ◌∷◌,
  ◌++◌, ltb, if◌then◌else◌, length, take, take_last,
}
use mathlib.Core.List.{reverse}
use koraku.Prelude.Text.{
  Text, text, strip, split, join, rstrip, is_empty, or_text, starts_with, contains_text, decimal,
}
use koraku.Prelude.Json.{Value, str, arr, get, is_dict, truthy, as_text, text_or, to_list}
use koraku.Agent.Message.{plain, AgentMessage, message, user}

abbrev pub working_memory_max_items : ℕ
working_memory_max_items = 8

abbrev pub working_memory_item_chars : ℕ
working_memory_item_chars = 360

abbrev pub working_memory_total_chars : ℕ
working_memory_total_chars = 2000

pub record Finding : Type 0 where
  pub kind : Text
  pub summary : Text

-- Runs of white space become one blank, and none is left at the ends: the words with a blank between.
unfoldable pub clean_one_line : Text → ℕ → Text
clean_one_line s max_chars =
    let line = join (text " ") (split s) in
    if ltb max_chars (length line) then rstrip (take (max_chars - 3) line) ++ text "..." else line

-- a or b, on the values of a dict's keys
abbrev pub or_value : (Value → Text) → Option Value → Text → Text
or_value repr none otherwise = otherwise
or_value repr (some v) otherwise = if truthy v then as_text repr v else otherwise

-- s.count(p) for a text `p` that is not empty: a match is not looked into; `skip` code points are left
-- of the match before.
abbrev pub count_from : Text → ℕ → Text → ℕ
count_from p skip [] = 0
count_from p (suc skip) (c ∷ s) = count_from p skip s
count_from p zero (c ∷ s) =
    let after_match = count_from p (length p - 1) s in
    let next = count_from p 0 s in
    elim (starts_with (c ∷ s) p) [ true ↦ 1 + after_match | false ↦ next ]

-- The title of a row is its title, or else its name, or else `Source`.
abbrev pub row_title : (Value → Text) → Value → Text
row_title repr row =
    clean_one_line
      (or_value repr (get row (text "title"))
        (or_value repr (get row (text "name")) (text "Source")))
      90

-- The rows from which the first `left` sources are read.
unfoldable pub sources_of : (Value → Text) → ℕ → List Value → List Text
sources_of repr left [] = []
sources_of repr zero (row ∷ rows) = []
sources_of repr (suc left) (row ∷ rows) =
    let url = clean_one_line (or_value repr (get row (text "url")) []) 140 in
    let more = sources_of repr left rows in
    let same = sources_of repr (suc left) rows in
    if is_dict row && not (is_empty url)
    then (row_title repr row ++ (text " (" ++ (url ++ text ")"))) ∷ more
    else same

abbrev finding : Text → Text → Option Finding
finding kind summary = some (record { kind = kind; summary = summary })

-- `loads` is `json.loads`, `none` where it raises.
abbrev pub rows_of : (Text → Option Value) → Text → List Value
rows_of loads stripped = elim (loads stripped) [ some (arr rows) ↦ to_list rows | _ ↦ [] ]

sources_finding : (Value → Text) → (Text → Option Value) → Text → Text → Option Finding
sources_finding repr loads prefix stripped = elim (sources_of repr 3 (rows_of loads stripped)) [
  | [] ↦ finding (text "sources") (
      prefix
      ++ (text "Found "
          ++ (decimal (count_from (text "url") 0 stripped) ++ text " source-like results.")))
  | source ∷ sources ↦
      finding (text "sources")
        (prefix ++ (text "Found sources: " ++ join (text "; ") (source ∷ sources)))
]

content_finding : (Value → Text) → (Text → Option Value) → Text → Text → Option Finding
unfolding sources_finding
content_finding repr loads prefix stripped =
    if is_empty stripped
    then none
    else if starts_with stripped (text "[") && contains_text stripped (text "url")
    then sources_finding repr loads prefix stripped
    else if ltb (length stripped) 80
    then none
    else finding (text "content") (prefix ++ clean_one_line stripped working_memory_item_chars)

abbrev pub prefix_of : (Value → Text) → Value → Text
prefix_of repr tool_result =
    let tool_id = strip (or_value repr (get tool_result (text "tool_use_id")) []) in
    if is_empty tool_id then [] else tool_id ++ text ": "

abbrev pub is_error_result : Value → Bool
is_error_result tool_result = elim (get tool_result (text "is_error")) [
  | some v ↦ truthy v
  | none ↦ false
]

unfoldable pub tool_result_summary : (Value → Text) → (Text → Option Value) → Value → Option Finding
unfolding content_finding
tool_result_summary repr loads tool_result =
    let prefix = prefix_of repr tool_result in
    let content = get tool_result (text "content") in
    if is_error_result tool_result
    then finding (text "error") (prefix ++ clean_one_line (text_or repr [] content) 220)
    else elim content [ some (str s) ↦ content_finding repr loads prefix (strip s) | _ ↦ none ]

append_findings : (Value → Text) → (Text → Option Value) → List Finding → List Value → List Finding
append_findings repr loads memory [] = memory
append_findings repr loads memory (tr ∷ rest) = elim (tool_result_summary repr loads tr) [
  | some f ↦ append_findings repr loads (memory ++ f ∷ []) rest
  | none ↦ append_findings repr loads memory rest
]

unfoldable pub update_working_memory :
    (Value → Text) → (Text → Option Value) → List Finding → List Value → List Finding
unfolding append_findings
update_working_memory repr loads memory tool_results =
    let longer = append_findings repr loads memory tool_results in
    if ltb (working_memory_max_items * 2) (length longer)
    then take_last (working_memory_max_items * 2) longer
    else longer

abbrev pub memory_heading : List Text
memory_heading =
    text "## Working memory for this run"
    ∷ text
        "Transient findings from tools. Use these to avoid re-reading, but do not treat them as durable user memory."
    ∷ []

abbrev pub finding_line : Finding → Text
finding_line item =
    text "- "
    ++ (clean_one_line (or_text item.kind (text "note")) 40
        ++ (text ": " ++ clean_one_line item.summary working_memory_item_chars))

-- The lines of the findings as far as they fit, from `total` characters on.
unfoldable pub memory_lines : ℕ → List Finding → List Text
memory_lines total [] = []
memory_lines total (item ∷ rest) =
    let line = finding_line item in
    let later = memory_lines (total + length line + 1) rest in
    if ltb working_memory_total_chars (total + length line + 1)
    then text "- note: Additional findings omitted to keep context small." ∷ []
    else line ∷ later

abbrev pub total_length : List Text → ℕ
total_length [] = 0
total_length (line ∷ lines) = length line + 1 + total_length lines

unfoldable pub format_working_memory_context : List Finding → Option AgentMessage
format_working_memory_context [] = none
format_working_memory_context (f ∷ fs) =
    let latest = reverse (take_last working_memory_max_items (f ∷ fs)) in
    some (
      message user (
        plain
          (join (10 ∷ []) (memory_heading ++ memory_lines (total_length memory_heading) latest))))
