-- ===== src/Agent/ContextManager/Summary.antt =====
-- The text of `_summarize_if_needed`: the visible turns, the counts of tool calls and the findings.
use koraku.Prelude.{
  not, ◌&&◌, ◌||◌, ℕ, zero, suc, ◌+◌, ◌-◌, Option, none, some, List, [], ◌∷◌, ◌++◌, if◌then◌else◌,
  ltb, length, take, take_last, text_equality, contains,
}
use koraku.Prelude.Text.{
  Text, text, strip, rstrip, is_empty, decimal, split, join, starts_with, contains_text,
}
use koraku.Prelude.Json.{Value, str, arr, get, has_type, text_or, as_text, truthy, to_list}
use koraku.Agent.Message.{Role, user, assistant, Content, plain, blocks, AgentMessage}

-- " ".join(s.split()).strip()
abbrev pub one_line : Text → Text
one_line s = strip (join (text " ") (split s))

module _ (repr : Value → Text) where
  visible_parts : List Value → List Text
  visible_parts [] = []
  visible_parts (block ∷ rest) =
      let parts = visible_parts rest in
      let t = strip (text_or repr [] (get block (text "text"))) in
      if has_type block (text "text") then (if is_empty t then parts else t ∷ parts) else parts

  unfoldable pub message_visible_text : AgentMessage → Text
  unfolding visible_parts
  message_visible_text msg = elim msg.content [
    | plain s ↦ one_line s
    | blocks bs ↦ one_line (join (text " ") (visible_parts bs))
  ]

-- `_summary_snippet`, at a `max_chars` of at least 3 (the calls leave it at 500).
unfoldable pub summary_snippet : ℕ → Text → Text
summary_snippet max_chars s =
    let clean = one_line s in
    if ltb max_chars (length clean)
    then rstrip (take (max_chars - 3) clean) ++ text "..."
    else clean

pub record Findings : Type 0 where
  pub visible_turns : List Text
  pub search_count : ℕ
  pub fetch_count : ℕ
  pub file_count : ℕ
  pub key_findings : List Text

abbrev no_findings : Findings
no_findings = record {
  visible_turns = [];
  search_count = 0;
  fetch_count = 0;
  file_count = 0;
  key_findings = [];
}

-- What a `tool_use` block of an assistant adds to the counts.
count_tool : (Value → Text) → Findings → Value → Findings
count_tool repr f block =
    let name = text_or repr [] (get block (text "name")) in
    if not (has_type block (text "tool_use"))
    then f
    else if contains_text name (text "Search") || contains_text name (text "search")
    then record f { search_count = f.search_count + 1 }
    else if contains (text "WebPage" ∷ text "WebFetch" ∷ text "Firecrawl" ∷ text "Fetch" ∷ []) name
    then record f { fetch_count = f.fetch_count + 1 }
    else if contains (text "Read" ∷ text "Glob" ∷ text "Grep" ∷ []) name
    then record f { file_count = f.file_count + 1 }
    else f

-- The lines of the first rows that have a URL.
row_findings : (Value → Text) → List Value → List Text
row_findings repr [] = []
row_findings repr (item ∷ rest) =
    let later = row_findings repr rest in
    elim (get item (text "url")) [
      | none ↦ later
      | some url ↦
          if truthy url
          then (text "- "
              ++ (text_or repr (text "Source") (get item (text "title"))
                  ++ (text ": " ++ as_text repr url)))
            ∷ later
          else later
    ]

rows_of : Option Value → List Value
rows_of (some (arr rows)) = take 3 (to_list rows)
rows_of _ = []

result_findings : (Value → Text) → (Text → Option Value) → Option Value → List Text
unfolding row_findings rows_of
result_findings repr loads (some (str content)) =
    if starts_with content (text "[") && contains_text content (text "url")
    then row_findings repr (rows_of (loads content))
    else if ltb 100 (length content) && not (starts_with content (text "Error"))
    then (text "- " ++ (take 120 content ++ text "...")) ∷ []
    else []
result_findings repr loads _ = []

content_or_blank : Option Value → Option Value
content_or_blank none = some (str [])
content_or_blank (some v) = some v

find_result : (Value → Text) → (Text → Option Value) → Findings → Value → Findings
unfolding result_findings content_or_blank
find_result repr loads f block =
    if has_type block (text "tool_result")
    then record f {
      key_findings =
          f.key_findings
          ++ result_findings repr loads (content_or_blank (get block (text "content")));
    }
    else f

over_blocks : (Findings → Value → Findings) → Findings → List Value → Findings
over_blocks step f [] = f
over_blocks step f (block ∷ rest) = over_blocks step (step f block) rest

abbrev label : Role → Text
label user = text "User"
label assistant = text "Assistant"

findings_of_blocks : (Value → Text) → (Text → Option Value) → Findings → Role → Content → Findings
unfolding over_blocks count_tool find_result
findings_of_blocks repr loads f assistant (blocks bs) = over_blocks (count_tool repr) f bs
findings_of_blocks repr loads f user (blocks bs) = over_blocks (find_result repr loads) f bs
findings_of_blocks repr loads f _ _ = f

add_turn : (Value → Text) → Findings → AgentMessage → Findings
add_turn repr f msg =
    let visible = message_visible_text repr msg in
    if is_empty visible then f else record f {
      visible_turns =
          f.visible_turns
          ++ (text "- " ++ (label msg.role ++ (text ": " ++ summary_snippet 500 visible))) ∷ [];
    }

collect : (Value → Text) → (Text → Option Value) → Findings → List AgentMessage → Findings
unfolding add_turn findings_of_blocks message_visible_text summary_snippet
collect repr loads f [] = f
collect repr loads f (msg ∷ rest) =
    collect repr loads (findings_of_blocks repr loads (add_turn repr f msg) msg.role msg.content)
      rest

abbrev counted : Text → ℕ → Text → List Text
counted before zero after = []
counted before (suc n) after = (before ++ (decimal (suc n) ++ after)) ∷ []

abbrev indented : List Text → List Text
indented [] = []
indented (f ∷ fs) = (text "  " ++ f) ∷ indented fs

abbrev under : Text → List Text → List Text
under title [] = []
under title (l ∷ lines) = title ∷ l ∷ lines

summary_lines : Findings → List Text
summary_lines f =
    text "## Previous Conversation Summary"
      ∷ under (text "- Visible earlier turns:") (take_last 12 f.visible_turns)
    ++ (counted (text "- Performed ") f.search_count (text " searches")
        ++ (counted (text "- Fetched ") f.fetch_count (text " pages")
            ++ (counted (text "- Examined ") f.file_count (text " files")
                ++ under (text "- Key sources/findings:") (indented (take 5 f.key_findings)))))

unfoldable pub summary_text : (Value → Text) → (Text → Option Value) → List AgentMessage → Text
unfolding collect summary_lines
summary_text repr loads msgs =
    join (text "\n") (summary_lines (collect repr loads no_findings msgs))
