-- ===== src/Agent/ContextManager.antt =====
-- koraku/agent/context_manager.py: `ContextManager`. `repr` is Python's text of a value that is no
-- string; `loads` and `dumps` are `json.loads` (`none` where it raises) and `json.dumps`.
mod Summary
pub mod Window
pub mod Truncation
pub mod Tests
pub mod Pairs
pub mod Paired
unfoldable pub use Summary.{message_visible_text, summary_snippet, summary_text}
use koraku.Prelude.{
  Bool, true, false, not, ◌&&◌, ◌||◌, ℕ, zero, suc, ◌+◌, ◌-◌, ◌/◌, Option, none, some, List, [],
  ◌∷◌, ◌++◌, map, if◌then◌else◌, leb, ltb, length, take, drop, take_last, all, any, keep,
  text_equality, ◌==◌,
}
use koraku.Prelude.Text.{Text, text, strip, is_empty, decimal}
use koraku.Prelude.Json.{
  Value, null, bool, num, str, arr, obj, get, is_dict, has_type, text_or, Fields, set_field,
}
use koraku.Agent.Message.{Role, user, assistant, Content, plain, blocks, AgentMessage, message}

pub record ContextManager : Type 0 where
  pub max_messages : ℕ
  pub summarize_after : ℕ
  pub max_tool_result_chars : ℕ
  pub compact_tool_rounds : Bool

-- str(block.get("text", "")).strip() is not empty
abbrev pub has_visible_text : (Value → Text) → Value → Bool
has_visible_text repr block = not (is_empty (strip (text_or repr [] (get block (text "text")))))

-- One round of the loop of `_assistant_is_tool_use_only`: `none` where it returns False, or else the
-- flag `has_tool_use` that it goes on with.
unfoldable pub scan_block : (Value → Text) → Bool → Value → Option Bool
scan_block repr has_tool_use block =
    if not (is_dict block)
    then none
    else if has_type block (text "tool_use")
    then some true
    else if has_type block (text "text")
    then (if has_visible_text repr block then none else some has_tool_use)
    else if has_type block (text "thinking")
    then some has_tool_use
    else none

unfoldable pub scan_blocks : (Value → Text) → Bool → List Value → Bool
unfolding scan_block
scan_blocks repr has_tool_use [] = has_tool_use
scan_blocks repr has_tool_use (block ∷ rest) = elim (scan_block repr has_tool_use block) [
  | none ↦ false
  | some flag ↦ scan_blocks repr flag rest
]

unfoldable pub assistant_is_tool_use_only : (Value → Text) → AgentMessage → Bool
unfolding scan_blocks
assistant_is_tool_use_only repr msg = elim msg.role [
  | user ↦ false
  | assistant ↦ elim msg.content [ plain _ ↦ false | blocks bs ↦ scan_blocks repr false bs ]
]

abbrev pub is_tool_result : Value → Bool
is_tool_result block = has_type block (text "tool_result")

abbrev pub results_only : List Value → Bool
results_only [] = false
results_only (b ∷ bs) = all is_tool_result (b ∷ bs)

unfoldable pub user_is_tool_results_only : AgentMessage → Bool
user_is_tool_results_only msg = elim msg.role [
  | user ↦ elim msg.content [ plain _ ↦ false | blocks bs ↦ results_only bs ]
  | assistant ↦ false
]

unfoldable pub assistant_has_visible_text : (Value → Text) → AgentMessage → Bool
assistant_has_visible_text repr msg = elim msg.role [
  | user ↦ false
  | assistant ↦ elim msg.content [
    | plain s ↦ not (is_empty (strip s))
    | blocks bs ↦ any (λ b. has_type b (text "text") && has_visible_text repr b) bs
  ]
]

-- The loop looks two messages ahead, and steps over the pair that it drops.
unfoldable pub drop_completed_tool_round_pairs :
    (Value → Text) → List AgentMessage → List AgentMessage
unfolding assistant_is_tool_use_only user_is_tool_results_only assistant_has_visible_text
drop_completed_tool_round_pairs repr (a ∷ b ∷ c ∷ rest) =
    let kept = drop_completed_tool_round_pairs repr (b ∷ c ∷ rest) in
    let dropped = drop_completed_tool_round_pairs repr (c ∷ rest) in
    if assistant_is_tool_use_only repr a
      && user_is_tool_results_only b
      && assistant_has_visible_text repr c
    then dropped
    else a ∷ kept
drop_completed_tool_round_pairs repr msgs = msgs

-- `AgentMessage(role=msg.role, content=filtered)`: a message with blocks is made anew, without its
-- stop reason; a plain one is passed on.
abbrev pub with_blocks : (List Value → List Value) → AgentMessage → AgentMessage
with_blocks f msg = elim msg.content [
  | plain _ ↦ msg
  | blocks bs ↦ message msg.role (blocks (f bs))
]

abbrev pub is_thinking : Value → Bool
is_thinking block = has_type block (text "thinking")

unfoldable pub drop_thinking : List AgentMessage → List AgentMessage
drop_thinking = map (with_blocks (keep (λ b. not (is_thinking b))))

abbrev pub truncation_note : ℕ → Text
truncation_note max_chars =
    text "\n...[truncated: tool result exceeded "
    ++ (decimal max_chars ++ text " chars for LLM context]")

abbrev pub truncate_content : ℕ → Fields → Option Value → Fields
truncate_content max_chars fs (some (str content)) =
    if ltb max_chars (length content)
    then set_field fs (text "content") (str (take max_chars content ++ truncation_note max_chars))
    else fs
truncate_content max_chars fs _ = fs

unfoldable pub truncate_block : ℕ → Value → Value
truncate_block max_chars (obj fs) =
    if is_tool_result (obj fs)
    then obj (truncate_content max_chars fs (get (obj fs) (text "content")))
    else obj fs
truncate_block max_chars block = block

unfoldable pub truncate_tool_results : ℕ → List AgentMessage → List AgentMessage
unfolding truncate_block
truncate_tool_results max_chars = map (with_blocks (map (truncate_block max_chars)))

abbrev pub keep_recent : ℕ
keep_recent = 8

-- `messages[1:-keep_recent]` is empty where there are too few; `messages[0]` is then not reached.
unfoldable pub summarize_if_needed :
    (Value → Text) → (Text → Option Value) → ContextManager → List AgentMessage → List AgentMessage
unfolding summary_text
summarize_if_needed repr loads manager [] = []
summarize_if_needed repr loads manager (first ∷ rest) =
    let msgs = first ∷ rest in
    let to_summarize = drop 1 (take (length msgs - keep_recent) msgs) in
    if leb (length msgs) manager.summarize_after then msgs else elim to_summarize [
      | [] ↦ msgs
      | m ∷ ms ↦
          first
          ∷ message user (plain (summary_text repr loads (m ∷ ms)))
          ∷ take_last keep_recent msgs
    ]

-- `messages[-(n - 1):]` of Python: the whole list at n = 1, and all but the first at n = 0.
abbrev pub recent : ℕ → List AgentMessage → List AgentMessage
recent zero msgs = drop 1 msgs
recent (suc zero) msgs = msgs
recent (suc (suc n)) msgs = take_last (suc n) msgs

unfoldable pub apply_sliding_window : ℕ → List AgentMessage → List AgentMessage
apply_sliding_window max_messages [] = []
apply_sliding_window max_messages (first ∷ rest) =
    if leb (length (first ∷ rest)) max_messages
    then first ∷ rest
    else first ∷ recent max_messages (first ∷ rest)

unfoldable pub process_messages :
    (Value → Text) → (Text → Option Value) → ContextManager → List AgentMessage → List AgentMessage
unfolding drop_thinking drop_completed_tool_round_pairs truncate_tool_results summarize_if_needed
    apply_sliding_window
process_messages repr loads manager messages =
    let cleaned = drop_thinking messages in
    let compacted =
      if manager.compact_tool_rounds
      then drop_completed_tool_round_pairs repr cleaned
      else cleaned in
    let truncated = truncate_tool_results manager.max_tool_result_chars compacted in
    let summarized = summarize_if_needed repr loads manager truncated in
    apply_sliding_window manager.max_messages summarized

abbrev chars_of : (Content → Text) → AgentMessage → ℕ
chars_of dumps msg = elim msg.content [
  | plain s ↦ length s
  | blocks bs ↦ length (dumps (blocks bs))
]

total_chars : (Content → Text) → List AgentMessage → ℕ
total_chars dumps [] = 0
total_chars dumps (msg ∷ rest) = chars_of dumps msg + total_chars dumps rest

unfoldable pub estimate_tokens : (Content → Text) → List AgentMessage → ℕ
unfolding total_chars
estimate_tokens dumps messages = total_chars dumps messages / 4
