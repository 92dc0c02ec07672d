-- ===== src/Agent/ContextManager/Tests.antt =====
-- Tests of the context manager, and the theorems at concrete conversations.
use koraku.Prelude.{
  ◌≡◌, refl, Option, none, List, [], ◌∷◌, true, false, length, arith, text_equality,
}
use koraku.Prelude.Text.{Text, text, strip, split, decimal}
use koraku.Prelude.Json.{Value, str, dict}
use koraku.Agent.Message.{user, assistant, plain, blocks, AgentMessage, message}
use koraku.Agent.Pairing.{is_paired}
use koraku.Agent.ContextManager.{
  ContextManager, scan_block, scan_blocks, assistant_is_tool_use_only, user_is_tool_results_only,
  assistant_has_visible_text, drop_completed_tool_round_pairs, drop_thinking, truncate_block,
  truncate_tool_results, process_messages, summarize_if_needed, apply_sliding_window,
  estimate_tokens, summary_snippet, message_visible_text, summary_text,
}
use koraku.Agent.ContextManager.Window
use koraku.Agent.ContextManager.Paired
use koraku.Agent.ContextManager.Pairs

program : Unit {0}
unfolding scan_block scan_blocks assistant_is_tool_use_only user_is_tool_results_only
    assistant_has_visible_text drop_completed_tool_round_pairs drop_thinking truncate_block
    truncate_tool_results process_messages summarize_if_needed apply_sliding_window estimate_tokens
    summary_snippet message_visible_text summary_text strip split decimal
program = tt

abbrev repr : Value → Text
repr _ = []

abbrev loads : Text → Option Value
loads _ = none

abbrev settings : ContextManager
settings = record {
  max_messages = 28;
  summarize_after = 14;
  max_tool_result_chars = 8;
  compact_tool_rounds = true;
}

abbrev call : AgentMessage
call = message assistant (
    blocks (
      dict (
        (text "type", str (text "tool_use"))
        ∷ (text "id", str (text "t1"))
        ∷ (text "name", str (text "Read"))
        ∷ [])
      ∷ []))

abbrev result_block : Value
result_block = dict (
    (text "type", str (text "tool_result"))
    ∷ (text "tool_use_id", str (text "t1"))
    ∷ (text "content", str (text "0123456789"))
    ∷ [])

abbrev result : AgentMessage
result = message user (blocks (result_block ∷ []))

abbrev question : AgentMessage
question = message user (plain (text "What is new?"))

abbrev answer : AgentMessage
answer = message assistant (plain (text "Nothing."))

abbrev thought : AgentMessage
thought = message assistant (
    blocks (
      dict ((text "type", str (text "thinking")) ∷ [])
      ∷ dict ((text "type", str (text "text")) ∷ (text "text", str (text "Hm.")) ∷ [])
      ∷ []))

-- A pair that an answer follows goes; one that a question follows stays.
compact_drops :
    drop_completed_tool_round_pairs repr (question ∷ call ∷ result ∷ answer ∷ [])
    ≡ question ∷ answer ∷ []
unfolding program
compact_drops = refl

compact_keeps :
    drop_completed_tool_round_pairs repr (question ∷ call ∷ result ∷ question ∷ [])
    ≡ question ∷ call ∷ result ∷ question ∷ []
unfolding program
compact_keeps = refl

newline : length (text "\n") ≡ 1
newline = refl

snippet : summary_snippet 10 (text " one  two three ") ≡ text "one two..."
unfolding program
snippet = refl

summary_of_turns :
    summary_text repr loads (question ∷ call ∷ [])
    ≡ text
        "## Previous Conversation Summary\n- Visible earlier turns:\n- User: What is new?\n- Examined 1 files"
unfolding program
summary_of_turns = refl

drop_completed_paired_example :
    is_paired repr (drop_completed_tool_round_pairs repr (question ∷ call ∷ result ∷ answer ∷ []))
    ≡ true
drop_completed_paired_example =
    Pairs.drop_completed_paired repr [] (question ∷ call ∷ result ∷ answer ∷ []) refl

process_messages_paired_example :
    is_paired repr (process_messages repr loads settings (question ∷ thought ∷ call ∷ result ∷ []))
    ≡ true
process_messages_paired_example =
    Paired.process_messages_paired repr loads settings (question ∷ thought ∷ call ∷ result ∷ [])
      (omega arith) (omega arith) refl

abbrev long : List AgentMessage
long =
    question ∷ answer ∷ question ∷ answer ∷ question ∷ answer ∷ call ∷ result ∷ answer ∷ question
    ∷ answer ∷ question ∷ answer ∷ question ∷ answer ∷ []

long-is_paired : is_paired repr long ≡ true
long-is_paired = refl

summarize_orphans_example : is_paired repr (summarize_if_needed repr loads settings long) ≡ false
summarize_orphans_example =
    Window.summarize_orphans repr loads settings question result
      (answer ∷ question ∷ answer ∷ question ∷ answer ∷ call ∷ result ∷ answer ∷ question ∷ answer
        ∷ question ∷ answer ∷ question ∷ answer ∷ [])
      (answer ∷ question ∷ answer ∷ question ∷ answer ∷ question ∷ answer ∷ []) (omega arith)
      (omega arith) refl (λ e. cc e)
