-- ===== src/Agent/ContextManager/Pairs.antt =====
-- The steps before the summary keep every tool call beside its result.
use koraku.Prelude.{
  Bool, true, false, ◌&&◌, ◌≡◌, refl, some, List, [], ◌∷◌, text_equality, arith, inl, inr,
  Bool-cases, Option-cases, all,
}
use koraku.Prelude.Text.{Text, text}
use koraku.Prelude.Json.{Value, has_type}
use koraku.Agent.Message.{Role, user, assistant, Content, plain, blocks, AgentMessage}
use koraku.Agent.Pairing.{
  ids_of, content_ids, call_ids, result_ids, texts_beq, paired_from, has_type_other,
}
use koraku.Agent.ContextManager.{
  scan_block, scan_blocks, assistant_is_tool_use_only, is_tool_result, user_is_tool_results_only,
  assistant_has_visible_text, drop_completed_tool_round_pairs,
}

module _ (repr : Value → Text) where
  scan_block_no_result :
      (flag : Bool) (b : Value) (next : Bool)
      → scan_block repr flag b ≡ some next
      → has_type b (text "tool_result") ≡ false
  unfolding scan_block
  scan_block_no_result flag b next h = ground (
    arith,
    has_type_other b (text "tool_use") (text "tool_result"),
    has_type_other b (text "text") (text "tool_result"),
    has_type_other b (text "thinking") (text "tool_result"),
  )

  scan_blocks_no_results :
      (flag : Bool) (bs : List Value)
      → scan_blocks repr flag bs ≡ true
      → ids_of repr (text "tool_result") (text "tool_use_id") bs ≡ []
  unfolding scan_blocks
  scan_blocks_no_results flag [] h = refl
  scan_blocks_no_results flag (b ∷ bs) h = elim (Option-cases (scan_block repr flag b)) [
    | inl stop ↦ absurd (ground arith)
    | inr (next, e) ↦
        ground (arith, e, scan_block_no_result flag b next e, scan_blocks_no_results next bs)
  ]

  all_results_no_calls :
      (bs : List Value)
      → all is_tool_result bs ≡ true
      → ids_of repr (text "tool_use") (text "id") bs ≡ []
  all_results_no_calls [] h = refl
  all_results_no_calls (b ∷ bs) h =
      ground
        (arith, has_type_other b (text "tool_result") (text "tool_use"), all_results_no_calls bs)

  tool_use_only_no_results :
      (m : AgentMessage) → assistant_is_tool_use_only repr m ≡ true → result_ids repr m ≡ []
  unfolding assistant_is_tool_use_only
  tool_use_only_no_results m h = by_content m.role m.content h
    where
      by_content :
          (role : Role) (c : Content)
          → assistant_is_tool_use_only repr (record m { role = role; content = c }) ≡ true
          → content_ids repr (text "tool_result") (text "tool_use_id") c ≡ []
      by_content user c h = absurd (ground arith)
      by_content assistant (plain s) h = refl
      by_content assistant (blocks bs) h = scan_blocks_no_results false bs h

  results_only_no_calls :
      (m : AgentMessage) → user_is_tool_results_only m ≡ true → call_ids repr m ≡ []
  unfolding user_is_tool_results_only
  results_only_no_calls m h = by_content m.role m.content h
    where
      by_content :
          (role : Role) (c : Content)
          → user_is_tool_results_only (record m { role = role; content = c }) ≡ true
          → content_ids repr (text "tool_use") (text "id") c ≡ []
      by_content assistant c h = absurd (ground arith)
      by_content user (plain s) h = refl
      by_content user (blocks []) h = refl
      by_content user (blocks (b ∷ bs)) h = all_results_no_calls (b ∷ bs) h

  no_pending : (pending : List Text) → texts_beq [] pending ≡ true → pending ≡ []
  no_pending [] h = refl
  no_pending (p ∷ ps) h = absurd (ground arith)

  -- Between the calls of `a`, which answers nothing, and the results of `b`, which calls nothing,
  -- nothing is pending.
  after_pair :
      (pending : List Text) (a b : AgentMessage) (rest : List AgentMessage)
      → result_ids repr a ≡ []
      → call_ids repr b ≡ []
      → paired_from repr pending (a ∷ b ∷ rest) ≡ true
      → (pending ≡ []) × (paired_from repr [] rest ≡ true)
  after_pair pending a b rest none_answered none_called h =
      let both : (texts_beq [] pending ≡ true) × (paired_from repr [] rest ≡ true) =
        (ground (arith, none_answered), ground (arith, none_called)) in
      (no_pending pending both.0, both.1)

  -- In a conversation whose tool results answer exactly the calls before them, they still do once
  -- the completed tool rounds are dropped.
  pub drop_completed_paired :
      (pending : List Text) (msgs : List AgentMessage)
      → paired_from repr pending msgs ≡ true
      → paired_from repr pending (drop_completed_tool_round_pairs repr msgs) ≡ true
  unfolding drop_completed_tool_round_pairs
  drop_completed_paired pending [] h = h
  drop_completed_paired pending (a ∷ []) h = h
  drop_completed_paired pending (a ∷ b ∷ []) h = h
  drop_completed_paired pending (a ∷ b ∷ c ∷ rest) h =
      elim (Bool-cases (
        assistant_is_tool_use_only repr a
        && user_is_tool_results_only b
        && assistant_has_visible_text repr c)) [
          | inl finished ↦
              let (start, after) =
                after_pair pending a b (c ∷ rest) (tool_use_only_no_results a (ground arith))
                  (results_only_no_calls b (ground arith)) h in
              rw (finished, start) (drop_completed_paired [] (c ∷ rest) after)
          | inr kept ↦
              rw kept (ground (arith, drop_completed_paired (call_ids repr a) (b ∷ c ∷ rest)))
        ]
