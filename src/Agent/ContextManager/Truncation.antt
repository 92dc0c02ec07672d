-- ===== src/Agent/ContextManager/Truncation.antt =====
-- What is left of a tool result.
use koraku.Prelude.{
  true, ◌≡◌, some, text_equality, arith, if◌then◌else◌, inl, inr, Bool-cases, ℕ, ltb, length, take,
  ◌++◌, ==_refl,
}
use koraku.Prelude.Text.{Text, text}
use koraku.Prelude.Json.{
  Value, get, null, bool, num, str, arr, obj, Fields, end, field, field_of, set_field,
}
use koraku.Agent.ContextManager.{truncate_block, truncation_note, is_tool_result}

field_of-set_field_self :
    (fs : Fields) (key : Text) (v : Value) → field_of (set_field fs key v) key ≡ some v
field_of-set_field_self end key v = ground (arith, ==_refl key)
field_of-set_field_self (field k w rest) key v = ground (arith, field_of-set_field_self rest key v)

abbrev pub cut_content : ℕ → Text → Text
cut_content max_chars s =
    if ltb max_chars (length s) then take max_chars s ++ truncation_note max_chars else s

-- The text of a tool result stays when it has at most `max_chars` characters; a longer one keeps
-- its first `max_chars`, with the note behind them.
pub truncate_block_content :
    (max_chars : ℕ) (block : Value) (s : Text)
    → is_tool_result block ≡ true
    → get block (text "content") ≡ some (str s)
    → get (truncate_block max_chars block) (text "content") ≡ some (str (cut_content max_chars s))
unfolding truncate_block
truncate_block_content max_chars (obj fs) s result e =
    elim (Bool-cases (ltb max_chars (length s))) [
      | inl long ↦ ground (
        arith,
        field_of-set_field_self fs (text "content")
            (str (take max_chars s ++ truncation_note max_chars)),
      )
      | inr short ↦ ground arith
    ]
truncate_block_content max_chars null s result e = absurd (ground arith)
truncate_block_content max_chars (bool b) s result e = absurd (ground arith)
truncate_block_content max_chars (num n) s result e = absurd (ground arith)
truncate_block_content max_chars (str t) s result e = absurd (ground arith)
truncate_block_content max_chars (arr vs) s result e = absurd (ground arith)
