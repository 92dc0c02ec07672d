-- ===== src/Agent/ContextManager/Paired.antt =====
-- `process_messages` on a conversation in which every tool result answers its call.
use koraku.Prelude.{
  true, false, not, ◌≡◌, ◌≤◌, refl, suc, ap, ◌∙◌, Option, some, List, [], ◌∷◌, text_equality, ◌==◌,
  arith, if◌then◌else◌, inl, inr, Bool-cases, keep, map, ℕ, ltb, length, le→leb,
}
use koraku.Prelude.Text.{Text, text}
use koraku.Prelude.Fields.{field_of-set_field}
use koraku.Prelude.Json.{Value, get, null, bool, num, str, arr, obj, Fields, field_of}
use koraku.Agent.Message.{Content, plain, blocks, AgentMessage}
use koraku.Agent.Pairing.{
  ids_of, content_ids, call_ids, result_ids, paired_from, is_paired, has_type_other,
}
use koraku.Agent.ContextManager.{
  ContextManager, drop_completed_tool_round_pairs, with_blocks, is_thinking, drop_thinking,
  truncate_block, truncate_content, truncate_tool_results, is_tool_result, process_messages,
  summarize_if_needed, apply_sliding_window,
}
use koraku.Agent.ContextManager.Pairs.{drop_completed_paired}

field_of-truncate_content :
    (max_chars : ℕ) (fs : Fields) (content : Option Value) (key : Text)
    → (text "content" == key) ≡ false
    → field_of (truncate_content max_chars fs content) key ≡ field_of fs key
field_of-truncate_content max_chars fs (some (str s)) key apart =
    elim (Bool-cases (ltb max_chars (length s))) [
      | inl long ↦ rw long (field_of-set_field fs (text "content") key _ apart)
      | inr short ↦ rw short
    ]
field_of-truncate_content max_chars fs _ key apart = refl

-- A truncated block has its other fields.
get-truncate_block :
    (max_chars : ℕ) (b : Value) (key : Text)
    → (text "content" == key) ≡ false
    → get (truncate_block max_chars b) key ≡ get b key
unfolding truncate_block
get-truncate_block max_chars (obj fs) key apart = elim (Bool-cases (is_tool_result (obj fs))) [
  | inl result ↦
      rw result (field_of-truncate_content max_chars fs (get (obj fs) (text "content")) key apart)
  | inr other ↦ rw other
]
get-truncate_block max_chars null key apart = refl
get-truncate_block max_chars (bool b) key apart = refl
get-truncate_block max_chars (num t) key apart = refl
get-truncate_block max_chars (str t) key apart = refl
get-truncate_block max_chars (arr vs) key apart = refl

module _ (repr : Value → Text) where
  ids_of-truncate :
      (max_chars : ℕ) (type key : Text) (bs : List Value)
      → (text "content" == key) ≡ false
      → ids_of repr type key (map (truncate_block max_chars) bs) ≡ ids_of repr type key bs
  ids_of-truncate max_chars type key [] apart = refl
  ids_of-truncate max_chars type key (b ∷ bs) apart = ground (
    arith,
    get-truncate_block max_chars b (text "type") refl,
    get-truncate_block max_chars b key apart,
    ids_of-truncate max_chars type key bs apart,
  )

  ids_of-keep :
      (type key : Text) (bs : List Value)
      → (text "thinking" == type) ≡ false
      → ids_of repr type key (keep (λ b. not (is_thinking b)) bs) ≡ ids_of repr type key bs
  ids_of-keep type key [] apart = refl
  ids_of-keep type key (b ∷ bs) apart =
      ground (arith, has_type_other b (text "thinking") type, ids_of-keep type key bs apart)

  module _ (f : List Value → List Value)
      (calls : (bs : List Value)
        → ids_of repr (text "tool_use") (text "id") (f bs)
          ≡ ids_of repr (text "tool_use") (text "id") bs)
      (results : (bs : List Value)
        → ids_of repr (text "tool_result") (text "tool_use_id") (f bs)
          ≡ ids_of repr (text "tool_result") (text "tool_use_id") bs) where
    call_ids-with_blocks : (m : AgentMessage) → call_ids repr (with_blocks f m) ≡ call_ids repr m
    call_ids-with_blocks m = by_content m.content
      where
        by_content :
            (c : Content)
            → call_ids repr (with_blocks f (record m { content = c }))
              ≡ content_ids repr (text "tool_use") (text "id") c
        by_content (plain s) = refl
        by_content (blocks bs) = calls bs

    result_ids-with_blocks :
        (m : AgentMessage) → result_ids repr (with_blocks f m) ≡ result_ids repr m
    result_ids-with_blocks m = by_content m.content
      where
        by_content :
            (c : Content)
            → result_ids repr (with_blocks f (record m { content = c }))
              ≡ content_ids repr (text "tool_result") (text "tool_use_id") c
        by_content (plain s) = refl
        by_content (blocks bs) = results bs

    paired-map :
        (pending : List Text) (msgs : List AgentMessage)
        → paired_from repr pending (map (with_blocks f) msgs) ≡ paired_from repr pending msgs
    paired-map pending [] = refl
    paired-map pending (m ∷ rest) =
        cc (call_ids-with_blocks m, result_ids-with_blocks m, paired-map (call_ids repr m) rest)

  paired-drop_thinking :
      (msgs : List AgentMessage)
      → paired_from repr [] (drop_thinking msgs) ≡ paired_from repr [] msgs
  unfolding drop_thinking
  paired-drop_thinking msgs =
      paired-map (keep (λ b. not (is_thinking b)))
        (λ bs. ids_of-keep (text "tool_use") (text "id") bs refl)
        (λ bs. ids_of-keep (text "tool_result") (text "tool_use_id") bs refl) [] msgs

  paired-truncate :
      (max_chars : ℕ) (msgs : List AgentMessage)
      → paired_from repr [] (truncate_tool_results max_chars msgs) ≡ paired_from repr [] msgs
  unfolding truncate_tool_results
  paired-truncate max_chars msgs =
      paired-map (map (truncate_block max_chars))
        (λ bs. ids_of-truncate max_chars (text "tool_use") (text "id") bs refl)
        (λ bs. ids_of-truncate max_chars (text "tool_result") (text "tool_use_id") bs refl) [] msgs

  length-drop_thinking : (msgs : List AgentMessage) → length (drop_thinking msgs) ≡ length msgs
  unfolding drop_thinking
  length-drop_thinking [] = refl
  length-drop_thinking (m ∷ ms) = ap suc (length-drop_thinking ms)

  length-truncate :
      (n : ℕ) (msgs : List AgentMessage) → length (truncate_tool_results n msgs) ≡ length msgs
  unfolding truncate_tool_results
  length-truncate n [] = refl
  length-truncate n (m ∷ ms) = ap suc (length-truncate n ms)

  length-drop_completed-le :
      (msgs : List AgentMessage) → length (drop_completed_tool_round_pairs repr msgs) ≤ length msgs
  unfolding drop_completed_tool_round_pairs
  length-drop_completed-le [] = omega arith
  length-drop_completed-le (a ∷ []) = omega arith
  length-drop_completed-le (a ∷ b ∷ []) = omega arith
  length-drop_completed-le (a ∷ b ∷ c ∷ rest) =
      ground (arith, length-drop_completed-le (b ∷ c ∷ rest), length-drop_completed-le (c ∷ rest))

  -- A short conversation is neither summarized nor cut.
  summarize_short :
      (loads : Text → Option Value) (manager : ContextManager) (msgs : List AgentMessage)
      → length msgs ≤ manager.summarize_after
      → summarize_if_needed repr loads manager msgs ≡ msgs
  unfolding summarize_if_needed
  summarize_short loads manager [] h = refl
  summarize_short loads manager (m ∷ ms) h = rw (le→leb _ _ h)

  window_short :
      (max_messages : ℕ) (msgs : List AgentMessage)
      → length msgs ≤ max_messages
      → apply_sliding_window max_messages msgs ≡ msgs
  unfolding apply_sliding_window
  window_short max_messages [] h = refl
  window_short max_messages (m ∷ ms) h = rw (le→leb _ _ h)

  compacted : ContextManager → List AgentMessage → List AgentMessage
  compacted manager msgs =
      if manager.compact_tool_rounds then drop_completed_tool_round_pairs repr msgs else msgs

  paired-compacted :
      (manager : ContextManager) (msgs : List AgentMessage)
      → paired_from repr [] msgs ≡ true
      → (paired_from repr [] (compacted manager msgs) ≡ true)
        × (length (compacted manager msgs) ≤ length msgs)
  unfolding compacted
  paired-compacted manager msgs h =
      ground (arith, drop_completed_paired repr [] msgs h, length-drop_completed-le msgs)

  -- `process_messages` keeps a conversation paired when it has at most `summarize_after` and
  -- `max_messages` messages.
  pub process_messages_paired :
      (loads : Text → Option Value) (manager : ContextManager) (msgs : List AgentMessage)
      → length msgs ≤ manager.summarize_after
      → length msgs ≤ manager.max_messages
      → is_paired repr msgs ≡ true
      → is_paired repr (process_messages repr loads manager msgs) ≡ true
  unfolding process_messages compacted
  process_messages_paired loads manager msgs h k paired =
      let thoughtless : List AgentMessage = drop_thinking msgs in
      let (still, shorter) =
        paired-compacted manager thoughtless (paired-drop_thinking msgs ∙ paired) in
      let short : List AgentMessage =
        truncate_tool_results manager.max_tool_result_chars (compacted manager thoughtless) in
      let size : length short ≤ length msgs = omega (
        arith,
        shorter,
        length-drop_thinking msgs,
        length-truncate manager.max_tool_result_chars (compacted manager thoughtless),
      ) in
      rw
        (
          summarize_short loads manager short (omega (arith, size)),
          window_short manager.max_messages short (omega (arith, size)),
        )
        (paired-truncate manager.max_tool_result_chars (compacted manager thoughtless) ∙ still)
