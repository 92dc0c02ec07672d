-- ===== src/Llm/Canonical/Answered.antt =====
-- The OpenAI messages of a conversation in which the tool results answer the tool calls.
use koraku.Prelude.{
  ℕ, suc, Bool, true, false, not, ◌||◌, List, [], ◌∷◌, ◌++◌, map, keep, all, text_equality, ◌≡◌,
  refl, ap, ◌∙◌, arith, inl, inr, Bool-cases,
}
use mathlib.Core.List.{append-nil}
use koraku.Prelude.Text.{Text, text, strip}
use koraku.Prelude.Fields.{to_list-items}
use koraku.Prelude.Json.{Value, str, arr, get, is_text, has_type, text_or, dict, items}
use koraku.Agent.Message.{Role, user, assistant, Content, plain, blocks, AgentMessage}
use koraku.Agent.Pairing.{
  content_ids, lacks, ids_of-lacks, ids_of, call_ids, result_ids, paired_from, is_paired,
}
use koraku.Llm.Canonical.Request.{
  ChatSettings, CanonicalChatRequest, openai_messages, full_system, system_message,
}
use koraku.Llm.Canonical.Messages.{
  openai_chat_messages_from_agent_messages, openai_messages_of, assistant_openai_message,
  user_openai_messages, joined_text, text_parts, tool_calls_from, tool_call, tool_message,
  user_text_message, text_or_null, user_blocks_have_image, role_message,
}
use koraku.Llm.Canonical.Protocol.{
  text_at, call_list, is_tool_message, answered_from, has_id, is_turn_of, is_turn, texts_beq→≡,
  keep-lacks, OnlyResults, text_parts-results, no_image, id_text, default_text,
}

module _ (repr dumps dumps_plain : Value → Text) where
  -- The messages of the results answer the calls that are left.
  results_answer :
      (bs : List Value) (later : List Value)
      → OnlyResults bs
      → answered_from (ids_of repr (text "tool_result") (text "tool_use_id") bs) (
          map (tool_message repr dumps dumps_plain) (keep (λ b. has_type b (text "tool_result")) bs)
          ++ later)
        ≡ answered_from [] later
  results_answer [] later h = refl
  results_answer (b ∷ bs) later h =
      let result : is_text (get b (text "type")) (text "tool_result") ≡ true = ground (arith, h) in
      let id : has_id (text "tool_use_id") b ≡ true = ground (arith, h) in
      rw (ids_of, keep, result, id_text repr (text "tool_use_id") b id)
        (ground (
          arith,
          text_equality.equal_iff (text_or repr [] (get b (text "tool_use_id")))
              (text_or repr [] (get b (text "tool_use_id"))),
          results_answer bs later,
          h,
        ))

  calls_ids :
      (n : ℕ) (bs : List Value)
      → all (λ b. not (has_type b (text "tool_use")) || has_id (text "id") b) bs ≡ true
      → map (λ c. text_at c (text "id")) (tool_calls_from repr dumps dumps_plain n bs)
        ≡ ids_of repr (text "tool_use") (text "id") bs
  calls_ids n [] h = refl
  calls_ids n (b ∷ bs) h =
      by_test (λ k. calls_ids k bs (ground (arith, h)))
        (is_text (get b (text "type")) (text "tool_use")) refl
    where
      id_of_call :
          is_text (get b (text "type")) (text "tool_use") ≡ true
          → text_at (tool_call repr dumps dumps_plain n b) (text "id")
            ≡ text_or repr [] (get b (text "id"))
      id_of_call used = default_text repr (text "id") b _ (ground (arith, h, used))

      by_test :
          ((k : ℕ)
            → map (λ c. text_at c (text "id")) (tool_calls_from repr dumps dumps_plain k bs)
              ≡ ids_of repr (text "tool_use") (text "id") bs)
          → (v : Bool) → is_text (get b (text "type")) (text "tool_use") ≡ v
          → map
              (λ c. text_at c (text "id"))
              (elim v as (λ _. List Value) [
                | false ↦ tool_calls_from repr dumps dumps_plain n bs
                | true ↦
                    tool_call repr dumps dumps_plain n b
                    ∷ tool_calls_from repr dumps dumps_plain (suc n) bs
              ])
            ≡ (elim v as (λ _. List Text) [
              | false ↦ ids_of repr (text "tool_use") (text "id") bs
              | true ↦
                  text_or repr [] (get b (text "id")) ∷ ids_of repr (text "tool_use") (text "id") bs
            ])
      by_test further true e = cc (id_of_call e, further (suc n))
      by_test further false e = further n

  assistant_calls :
      (bs : List Value)
      → all (λ b. not (has_type b (text "tool_use")) || has_id (text "id") b) bs ≡ true
      → call_list (get (assistant_openai_message repr dumps dumps_plain bs) (text "tool_calls"))
        ≡ ids_of repr (text "tool_use") (text "id") bs
  unfolding assistant_openai_message
  assistant_calls bs h = by_calls (tool_calls_from repr dumps dumps_plain 0 bs) ∙ calls_ids 0 bs h
    where
      by_calls :
          (calls : List Value)
          → call_list (
              get
                (elim calls as (λ _. Value) [
                  | [] ↦
                      role_message assistant
                        (str (joined_text (text_parts repr dumps dumps_plain (text "tool_use") bs)))
                  | c ∷ cs ↦ dict (
                      (text "role", str (text "assistant"))
                      ∷ (text "tool_calls", arr (items (c ∷ cs)))
                      ∷ (
                        text "content",
                        text_or_null repr dumps dumps_plain
                            (joined_text (text_parts repr dumps dumps_plain (text "tool_use") bs)),
                      )
                      ∷ [])
                ])
                (text "tool_calls"))
            ≡ map (λ c. text_at c (text "id")) calls
      by_calls [] = refl
      by_calls (c ∷ cs) = ap (map (λ v. text_at v (text "id"))) (to_list-items (c ∷ cs))

  assistant_role :
      (bs : List Value)
      → is_tool_message (assistant_openai_message repr dumps dumps_plain bs) ≡ false
  unfolding assistant_openai_message
  assistant_role bs = by_calls (tool_calls_from repr dumps dumps_plain 0 bs)
    where
      content : Text
      content = joined_text (text_parts repr dumps dumps_plain (text "tool_use") bs)

      by_calls :
          (calls : List Value)
          → is_tool_message (elim calls as (λ _. Value) [
            | [] ↦ role_message assistant (str content)
            | c ∷ cs ↦ dict (
                (text "role", str (text "assistant"))
                ∷ (text "tool_calls", arr (items (c ∷ cs)))
                ∷ (text "content", text_or_null repr dumps dumps_plain content)
                ∷ [])
          ])
            ≡ false
      by_calls [] = refl
      by_calls (c ∷ cs) = refl

  user_text :
      (s : Text) (later : List Value)
      → answered_from [] (user_text_message repr dumps dumps_plain s ++ later)
        ≡ answered_from [] later
  user_text [] later = refl
  user_text (c ∷ s) later = refl

  -- A message of the user's text, before what follows it.
  plain_answers :
      (role : Role) (content : Value) (later : List Value)
      → answered_from [] (role_message role content ∷ later) ≡ answered_from [] later
  plain_answers user content later = refl
  plain_answers assistant content later = refl

  assistant_answers :
      (bs : List Value) (later : List Value)
      → all (λ b. not (has_type b (text "tool_use")) || has_id (text "id") b) bs ≡ true
      → answered_from [] (assistant_openai_message repr dumps dumps_plain bs ∷ later)
        ≡ answered_from (ids_of repr (text "tool_use") (text "id") bs) later
  assistant_answers bs later h =
      rw (assistant_role bs) (ap (λ ids. answered_from ids later) (assistant_calls bs h))

  user_answers :
      (bs : List Value) (later : List Value)
      → lacks (text "tool_result") bs ≡ true
      → answered_from [] (openai_messages_of repr dumps dumps_plain user (blocks bs) ++ later)
        ≡ answered_from [] later
  unfolding user_openai_messages
  user_answers bs later h = elim (Bool-cases (user_blocks_have_image bs)) [
    | inl image ↦ rw image refl
    | inr text_only ↦
        rw
          (
            text_only,
            keep-lacks (text "tool_result") bs h,
            append-nil (
                user_text_message repr dumps dumps_plain
                  (joined_text (text_parts repr dumps dumps_plain (text "tool_result") bs))),
          )
          (user_text _ later)
  ]

  results_turn :
      (bs : List Value) (later : List Value)
      → OnlyResults bs
      → answered_from
          (ids_of repr (text "tool_result") (text "tool_use_id") bs)
          (openai_messages_of repr dumps dumps_plain user (blocks bs) ++ later)
        ≡ answered_from [] later
  unfolding user_openai_messages joined_text strip
  results_turn bs later h =
      rw (no_image bs h, text_parts-results repr dumps dumps_plain bs h) (results_answer bs later h)

  -- A turn and what follows it: its messages answer the calls that are pending, and leave its own.
  turn_answers :
      (role : Role) (content : Content) (later : List Value)
      → is_turn_of role content ≡ true
      → answered_from
          (content_ids repr (text "tool_result") (text "tool_use_id") content)
          (openai_messages_of repr dumps dumps_plain role content ++ later)
        ≡ answered_from (content_ids repr (text "tool_use") (text "id") content) later
  turn_answers role (plain s) later h = plain_answers role (str s) later
  turn_answers assistant (blocks bs) later h =
      rw (ids_of-lacks repr (text "tool_result") (text "tool_use_id") bs (ground (arith, h)))
        (assistant_answers bs later (ground (arith, h)))
  turn_answers user (blocks bs) later h =
      rw (ids_of-lacks repr (text "tool_use") (text "id") bs (ground (arith, h)))
        (elim (Bool-cases (lacks (text "tool_result") bs)) [
          | inl none_of ↦
              rw (ids_of-lacks repr (text "tool_result") (text "tool_use_id") bs none_of)
                (user_answers bs later none_of)
          | inr some_of ↦ results_turn bs later (ground (arith, h, some_of))
        ])

  answered-messages :
      (pending : List Text) (messages : List AgentMessage)
      → all is_turn messages ≡ true
      → paired_from repr pending messages ≡ true
      → answered_from pending
          (openai_chat_messages_from_agent_messages repr dumps dumps_plain messages)
        ≡ true
  unfolding openai_chat_messages_from_agent_messages
  answered-messages pending [] h k = k
  answered-messages pending (m ∷ ms) h k =
      let later : List Value = openai_chat_messages_from_agent_messages repr dumps dumps_plain ms in
      let same : pending ≡ result_ids repr m = texts_beq→≡ _ _ (ground (arith, k)) in
      ap
        (λ p. answered_from p (openai_messages_of repr dumps dumps_plain m.role m.content ++ later))
        same
      ∙ (turn_answers m.role m.content later (ground (arith, h))
          ∙ answered-messages (call_ids repr m) ms (ground (arith, h)) (ground (arith, k)))

  -- The messages of an OpenAI request, the system's first: when each message's tool results answer
  -- the tool calls of the message before it, then one message with the role "tool" answers each tool
  -- call, in order and before any other message. The turns are those of a run: the assistant's blocks
  -- hold no tool results and their calls have an id that is a text and not blank; the user's hold no
  -- tool calls, and no tool results or nothing else.
  pub openai_messages_answered :
      (settings : ChatSettings) (request : CanonicalChatRequest)
      → all is_turn request.messages ≡ true
      → is_paired repr request.messages ≡ true
      → answered_from [] (openai_messages repr dumps dumps_plain settings request) ≡ true
  unfolding openai_messages
  openai_messages_answered settings request h k =
      by_system (full_system repr dumps dumps_plain settings request)
    where
      by_system :
          (s : Text)
          → answered_from [] (
              system_message repr dumps dumps_plain s
              ++ openai_chat_messages_from_agent_messages repr dumps dumps_plain request.messages)
            ≡ true
      by_system [] = answered-messages [] request.messages h k
      by_system (c ∷ s) = answered-messages [] request.messages h k
