-- ===== src/Agent/ContextManager/Window.antt =====
-- What the summary and the sliding window keep, and how much.
use koraku.Prelude.{
  false, not, ◌≡◌, ◌≢◌, ◌≤◌, ◌<◌, ◌-◌, refl, ap, sym, Option, List, [], ◌∷◌, text_equality, arith,
  if◌then◌else◌, inl, inr, Bool-cases, List-cases, keep, map, ℕ, length, take, drop, take_last, leb,
  length-take, length-drop,
}
use mathlib.Core.Path.{subst}
use koraku.Prelude.Text.{Text}
use koraku.Prelude.Json.{Value}
use koraku.Agent.Message.{user, plain, AgentMessage, message}
use koraku.Agent.Pairing.{result_ids, texts_beq, is_paired}
use koraku.Agent.ContextManager.{
  ContextManager, drop_completed_tool_round_pairs, with_blocks, is_thinking, drop_thinking,
  truncate_block, truncate_tool_results, summarize_if_needed, apply_sliding_window, keep_recent,
  recent, assistant_is_tool_use_only, summary_text,
}

abbrev Begins : AgentMessage → List AgentMessage → Type 0
Begins first messages = (later : List AgentMessage) × (messages ≡ first ∷ later)

module _ (first : AgentMessage) where
  through :
      (step : List AgentMessage → List AgentMessage)
      → ((rest : List AgentMessage) → Begins first (step (first ∷ rest)))
      → {messages : List AgentMessage} → Begins first messages
      → Begins first (step messages)
  through step keeps (rest, e) = subst (λ msgs. Begins first (step msgs)) (sym e) (keeps rest)

  with_blocks_plain :
      (f : List Value → List Value) (question : Text)
      → first.content ≡ plain question
      → with_blocks f first ≡ first
  with_blocks_plain f question e = ground arith

  Begins-drop_thinking :
      (rest : List AgentMessage) (question : Text)
      → first.content ≡ plain question
      → Begins first (drop_thinking (first ∷ rest))
  unfolding drop_thinking
  Begins-drop_thinking rest question e = (
    map (with_blocks (keep (λ b. not (is_thinking b)))) rest,
    ap (λ m. m ∷ map (with_blocks (keep (λ b. not (is_thinking b)))) rest)
        (with_blocks_plain _ question e),
  )

  Begins-truncate :
      (n : ℕ) (rest : List AgentMessage) (question : Text)
      → first.content ≡ plain question
      → Begins first (truncate_tool_results n (first ∷ rest))
  unfolding truncate_tool_results
  Begins-truncate n rest question e = (
    map (with_blocks (map (truncate_block n))) rest,
    ap (λ m. m ∷ map (with_blocks (map (truncate_block n))) rest) (with_blocks_plain _ question e),
  )

  Begins-drop_completed :
      (repr : Value → Text) (rest : List AgentMessage)
      → first.role ≡ user
      → Begins first (drop_completed_tool_round_pairs repr (first ∷ rest))
  unfolding drop_completed_tool_round_pairs
  Begins-drop_completed repr [] e = ([], refl)
  Begins-drop_completed repr (b ∷ []) e = (b ∷ [], refl)
  Begins-drop_completed repr (b ∷ c ∷ rest) e =
      let asks : assistant_is_tool_use_only repr first ≡ false =
        unfold assistant_is_tool_use_only in ground arith in
      (drop_completed_tool_round_pairs repr (b ∷ c ∷ rest), rw asks refl)

  Begins-compacted :
      (repr : Value → Text) (manager : ContextManager) (rest : List AgentMessage)
      → first.role ≡ user
      → Begins first (
          if manager.compact_tool_rounds
          then drop_completed_tool_round_pairs repr (first ∷ rest)
          else first ∷ rest)
  Begins-compacted repr manager rest e = elim (Bool-cases manager.compact_tool_rounds) [
    | inl on ↦ rw on (Begins-drop_completed repr rest e)
    | inr off ↦ rw off (rest, refl)
  ]

  Begins-summarize :
      (repr : Value → Text) (loads : Text → Option Value) (manager : ContextManager)
      (rest : List AgentMessage)
      → Begins first (summarize_if_needed repr loads manager (first ∷ rest))
  unfolding summarize_if_needed
  Begins-summarize repr loads manager rest =
      elim (Bool-cases (leb (length (first ∷ rest)) manager.summarize_after)) [
        | inl short ↦ rw short (rest, refl)
        | inr long ↦
            rw long
              (elim (List-cases
                (drop 1 (take (length (first ∷ rest) - keep_recent) (first ∷ rest)))) [
                  | inl e ↦ (rest, ground arith)
                  | inr (m, ms, e) ↦ (
                    message user (plain (summary_text repr loads (m ∷ ms)))
                        ∷ take_last keep_recent (first ∷ rest),
                    ground (arith, e),
                  )
                ])
      ]

  Begins-window :
      (n : ℕ) (rest : List AgentMessage) → Begins first (apply_sliding_window n (first ∷ rest))
  unfolding apply_sliding_window
  Begins-window n rest = elim (Bool-cases (leb (length (first ∷ rest)) n)) [
    | inl short ↦ rw short (rest, refl)
    | inr long ↦ rw long (recent n (first ∷ rest), refl)
  ]

some_pending : (ids : List Text) → ids ≢ [] → texts_beq ids [] ≡ false
some_pending [] h = absurd (h refl)
some_pending (i ∷ ids) h = refl

-- Where the summary begins to keep messages at a tool result, its call is gone: the conversation
-- that is sent has a result that answers no call.
pub summarize_orphans :
    (repr : Value → Text) (loads : Text → Option Value) (manager : ContextManager)
    (first m : AgentMessage) (rest kept : List AgentMessage)
    → manager.summarize_after < length (first ∷ rest)
    → 10 ≤ length (first ∷ rest)
    → take_last keep_recent (first ∷ rest) ≡ m ∷ kept
    → result_ids repr m ≢ []
    → is_paired repr (summarize_if_needed repr loads manager (first ∷ rest)) ≡ false
unfolding summarize_if_needed
summarize_orphans repr loads manager first m rest kept long ten cut orphan =
    elim (List-cases (drop 1 (take (length (first ∷ rest) - keep_recent) (first ∷ rest)))) [
      | inl e ↦ absurd (
          omega (
            arith,
            ap length e,
            length-drop 1 (take (length (first ∷ rest) - keep_recent) (first ∷ rest)),
            length-take (length (first ∷ rest) - keep_recent) (first ∷ rest),
          ))
      | inr (s, ss, e) ↦ ground (arith, e, cut, some_pending (result_ids repr m) orphan)
    ]
