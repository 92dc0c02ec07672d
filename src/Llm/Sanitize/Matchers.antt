-- ===== src/Llm/Sanitize/Matchers.antt =====
-- The regular expressions of koraku/llm/sanitize.py as functions to the rest of a text. A literal is
-- in lower case and fits either case, on ASCII letters.
use koraku.Prelude.{
  ℕ, Bool, true, false, ◌&&◌, ◌||◌, Option, none, some, [], ◌∷◌, leb, nat_beq, if◌then◌else◌,
}
use koraku.Prelude.Text.{Text, text, is_space, lower_code, lstrip}

-- What follows the match at the start of a text, if there is one.
abbrev pub Matcher : Type 0
Matcher = Text → Option Text

infixr 50 ◌then◌
unfoldable pub ◌then◌ : Matcher → Matcher → Matcher
(m then n) s = elim (m s) [ none ↦ none | some rest ↦ n rest ]

-- `exact` is a literal that fits its own case only.
unfoldable pub exact : Text → Matcher
exact [] s = some s
exact (c ∷ p) [] = none
exact (c ∷ p) (d ∷ s) = let rest = exact p s in if nat_beq d c then rest else none

unfoldable pub literal : Text → Matcher
literal [] s = some s
literal (c ∷ p) [] = none
literal (c ∷ p) (d ∷ s) = let rest = literal p s in if nat_beq (lower_code d) c then rest else none

-- \s* and \s+
unfoldable pub spaces : Matcher
spaces s = some (lstrip s)

unfoldable pub some_spaces : Matcher
some_spaces [] = none
some_spaces (c ∷ s) = if is_space c then some (lstrip s) else none

-- [A-Za-z][A-Za-z0-9_]*
abbrev pub is_letter : ℕ → Bool
is_letter c = leb 97 (lower_code c) && leb (lower_code c) 122

abbrev pub is_word : ℕ → Bool
is_word c = is_letter c || leb 48 c && leb c 57 || nat_beq c 95

unfoldable pub skip_word : Text → Text
skip_word [] = []
skip_word (c ∷ s) = let rest = skip_word s in if is_word c then rest else c ∷ s

unfoldable pub name : Matcher
name [] = none
name (c ∷ s) = if is_letter c then some (skip_word s) else none

-- The markers of a call, from their first code point on.
unfoldable pub call_mark : Matcher
call_mark =
    literal (text "[call")
    then (some_spaces
        then (name then (literal (text "]") then (spaces then (literal (text ":") then spaces)))))

unfoldable pub angle_mark : Matcher
angle_mark =
    literal (text "<tool_call>")
    then (spaces then (literal (text "[") then (name then (literal (text "]") then spaces))))

unfoldable pub bracket_mark : Matcher
bracket_mark = literal (text "[") then (spaces then (literal (text "tool_call]") then spaces))

unfoldable pub json_mark : Matcher
json_mark =
    exact (text "{")
    then (spaces then (exact (text "\"tool\"") then (spaces then exact (text ":"))))

-- _CALL_TOOL_HEAD, _ANGLE_TOOL_HEAD, _TOOL_JSON_HEAD, _ANGLE_TOOL_CLOSE, _BRACKET_TOOL_HEAD and
-- _BRACKET_TOOL_CLOSE_HEAD
unfoldable pub call_tool_head : Matcher
call_tool_head = spaces then call_mark

unfoldable pub angle_tool_head : Matcher
angle_tool_head = spaces then angle_mark

unfoldable pub tool_json_head : Matcher
tool_json_head =
    spaces
    then (literal (text "{")
        then (spaces then (literal (text "\"tool\"") then (spaces then literal (text ":")))))

unfoldable pub angle_tool_close : Matcher
angle_tool_close =
    spaces then (literal (text "</tool_call") then (spaces then (literal (text ">") then spaces)))

unfoldable pub bracket_tool_head : Matcher
bracket_tool_head = spaces then (literal (text "[tool_call]") then spaces)

unfoldable pub bracket_tool_close_head : Matcher
bracket_tool_close_head = spaces then (literal (text "[/tool_call]") then spaces)

abbrev pub is_match : Option Text → Bool
is_match none = false
is_match (some _) = true
