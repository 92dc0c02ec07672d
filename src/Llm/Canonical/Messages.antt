-- ===== src/Llm/Canonical/Messages.antt =====
-- koraku/llm/canonical.py: the conversation as OpenAI and as Anthropic messages.
use koraku.Prelude.{
  ℕ, suc, Bool, true, false, not, ◌&&◌, Option, none, some, List, [], ◌∷◌, ◌++◌, map, keep, any,
  if◌then◌else◌, text_equality,
}
use koraku.Prelude.Text.{Text, text, join, strip, is_empty, decimal}
use koraku.Prelude.Json.{
  Value, null, str, arr, obj, end, get, is_dict, has_type, as_text, text_or, truthy, dict, items,
}
use koraku.Agent.Message.{Role, user, assistant, Content, plain, blocks, AgentMessage, or_blank}
use koraku.Llm.Canonical.Tools.{newline}

abbrev pub user_blocks_have_image : List Value → Bool
user_blocks_have_image bs = any (λ b. has_type b (text "image")) bs

-- "\n".join(part for part in text_parts if part).strip()
unfoldable pub joined_text : List Text → Text
joined_text parts = strip (join newline (keep (λ p. not (is_empty p)) parts))

abbrev pub role_name : Role → Text
role_name user = text "user"
role_name assistant = text "assistant"

abbrev pub role_message : Role → Value → Value
role_message role content =
    dict ((text "role", str (role_name role)) ∷ (text "content", content) ∷ [])

-- value or "default"
abbrev pub or_default : (Value → Text) → Option Value → Text → Text
or_default repr none default = default
or_default repr (some v) default = if truthy v then as_text repr v else default

-- `repr` is `str` of a value that is no string, `dumps` is `json.dumps`, and `dumps_plain` is
-- `json.dumps` with `ensure_ascii=False`.
module _ (repr dumps dumps_plain : Value → Text) where
  abbrev pub text_part : Value → Value
  text_part s = dict ((text "type", str (text "text")) ∷ (text "text", s) ∷ [])

  abbrev pub image_part : Value → Value
  image_part source = dict (
      (text "type", str (text "image_url"))
      ∷ (
        text "image_url",
        dict (
            (
              text "url",
              str (
                  text "data:"
                  ++ (or_default repr (get source (text "media_type")) (text "image/png")
                      ++ (text ";base64," ++ text_or repr [] (get source (text "data"))))),
            )
            ∷ []),
      )
      ∷ [])

  abbrev pub is_base64 : Value → Bool
  is_base64 source =
      has_type source (text "base64")
      && (elim (get source (text "data")) [ none ↦ false | some v ↦ truthy v ])

  -- block.get("source") or {}; a source that is neither is a dict
  abbrev pub source_of : Value → Value
  source_of block = elim (get block (text "source")) [
    | none ↦ obj end
    | some v ↦ if truthy v then v else obj end
  ]

  abbrev pub multimodal_part : Value → List Value
  multimodal_part block =
      if not (is_dict block)
      then text_part (str (as_text repr block)) ∷ []
      else if has_type block (text "image")
      then if is_base64 (source_of block) then image_part (source_of block) ∷ [] else []
      else if has_type block (text "text")
      then text_part (str (text_or repr [] (get block (text "text")))) ∷ []
      else text_part (str (dumps block)) ∷ []

  unfoldable pub openai_user_multimodal_parts : List Value → List Value
  openai_user_multimodal_parts [] = []
  openai_user_multimodal_parts (b ∷ bs) = multimodal_part b ++ openai_user_multimodal_parts bs

  -- `text_parts` of a message whose blocks of the type `kept` go elsewhere.
  abbrev pub text_parts : Text → List Value → List Text
  text_parts kept [] = []
  text_parts kept (b ∷ bs) =
      let rest = text_parts kept bs in
      if not (is_dict b)
      then as_text repr b ∷ rest
      else if has_type b (text "text")
      then text_or repr [] (get b (text "text")) ∷ rest
      else if has_type b kept
      then rest
      else dumps b ∷ rest

  abbrev pub input_or_empty : Option Value → Value
  input_or_empty none = obj end
  input_or_empty (some v) = if is_dict v then v else obj end

  -- The call of a `tool_use` block that has `n` calls before it.
  abbrev pub tool_call : ℕ → Value → Value
  tool_call n block = dict (
      (text "id", str (or_default repr (get block (text "id")) (text "tool_" ++ decimal n)))
      ∷ (text "type", str (text "function"))
      ∷ (
        text "function",
        dict (
            (text "name", str (or_blank repr (get block (text "name"))))
            ∷ (text "arguments", str (dumps_plain (input_or_empty (get block (text "input")))))
            ∷ []),
      )
      ∷ [])

  abbrev pub tool_calls_from : ℕ → List Value → List Value
  tool_calls_from n [] = []
  tool_calls_from n (b ∷ bs) =
      let call = tool_call n b ∷ tool_calls_from (suc n) bs in
      let rest = tool_calls_from n bs in
      elim (has_type b (text "tool_use")) [ true ↦ call | false ↦ rest ]

  abbrev pub text_or_null : Text → Value
  text_or_null [] = null
  text_or_null (c ∷ s) = str (c ∷ s)

  unfoldable pub assistant_openai_message : List Value → Value
  assistant_openai_message bs =
      let content = joined_text (text_parts (text "tool_use") bs) in
      elim (tool_calls_from 0 bs) [
        | [] ↦ role_message assistant (str content)
        | c ∷ cs ↦ dict (
            (text "role", str (text "assistant"))
            ∷ (text "tool_calls", arr (items (c ∷ cs)))
            ∷ (text "content", text_or_null content)
            ∷ [])
      ]

  abbrev pub tool_message : Value → Value
  tool_message tr = dict (
      (text "role", str (text "tool"))
      ∷ (text "tool_call_id", str (or_blank repr (get tr (text "tool_use_id"))))
      ∷ (text "content", str (or_blank repr (get tr (text "content"))))
      ∷ [])

  abbrev pub user_text_message : Text → List Value
  user_text_message [] = []
  user_text_message (c ∷ s) = role_message user (str (c ∷ s)) ∷ []

  unfoldable pub user_openai_messages : List Value → List Value
  user_openai_messages bs =
      user_text_message (joined_text (text_parts (text "tool_result") bs))
      ++ map tool_message (keep (λ b. has_type b (text "tool_result")) bs)

  -- A message has one of the two roles, so the last branch of the loop is not taken.
  abbrev pub openai_messages_of : Role → Content → List Value
  openai_messages_of role (plain s) = role_message role (str s) ∷ []
  openai_messages_of assistant (blocks bs) = assistant_openai_message bs ∷ []
  openai_messages_of user (blocks bs) =
      if user_blocks_have_image bs
      then role_message user (arr (items (openai_user_multimodal_parts bs))) ∷ []
      else user_openai_messages bs

  unfoldable pub openai_chat_messages_from_agent_messages : List AgentMessage → List Value
  openai_chat_messages_from_agent_messages [] = []
  openai_chat_messages_from_agent_messages (m ∷ ms) =
      openai_messages_of m.role m.content ++ openai_chat_messages_from_agent_messages ms

abbrev pub content_value : Content → Value
content_value (plain s) = str s
content_value (blocks bs) = arr (items bs)

unfoldable pub anthropic_messages_from_agent_messages : List AgentMessage → List Value
anthropic_messages_from_agent_messages ms =
    map (λ m. role_message m.role (content_value m.content)) ms
