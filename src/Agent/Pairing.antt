-- ===== src/Agent/Pairing.antt =====
-- What the LLM providers ask of a conversation: the tool results of a message answer exactly the
-- tool calls of the message before it, in order.
use koraku.Prelude.{
  keep, all, not, Bool, true, false, ◌&&◌, ◌≡◌, List, [], ◌∷◌, text_equality, ◌==◌, arith, refl,
}
use koraku.Prelude.Text.{Text, text}
use koraku.Prelude.Json.{Value, get, has_type, text_or, str, is_text}
use koraku.Agent.Message.{Content, plain, blocks, AgentMessage}
use mathlib.Core.Option.{Option, some}

-- The texts under `key` of the blocks of a type.
abbrev pub ids_of : (Value → Text) → Text → Text → List Value → List Text
ids_of repr type key [] = []
ids_of repr type key (b ∷ bs) =
    let rest = ids_of repr type key bs in
    elim (has_type b type) [ true ↦ text_or repr [] (get b key) ∷ rest | false ↦ rest ]

abbrev pub content_ids : (Value → Text) → Text → Text → Content → List Text
content_ids repr type key (plain _) = []
content_ids repr type key (blocks bs) = ids_of repr type key bs

-- The ids of the tool calls of a message, and the ids that its tool results answer.
abbrev pub call_ids : (Value → Text) → AgentMessage → List Text
call_ids repr m = content_ids repr (text "tool_use") (text "id") m.content

abbrev pub result_ids : (Value → Text) → AgentMessage → List Text
result_ids repr m = content_ids repr (text "tool_result") (text "tool_use_id") m.content

abbrev pub texts_beq : List Text → List Text → Bool
texts_beq [] [] = true
texts_beq (s ∷ ss) (t ∷ ts) = s == t && texts_beq ss ts
texts_beq _ _ = false

pub texts_beq_refl : (ss : List Text) → texts_beq ss ss ≡ true
texts_beq_refl [] = refl
texts_beq_refl (s ∷ ss) = ground (arith, text_equality.equal_iff s s, texts_beq_refl ss)

-- `pending` are the calls that the next message has to answer.
abbrev pub paired_from : (Value → Text) → List Text → List AgentMessage → Bool
paired_from repr pending [] = texts_beq pending []
paired_from repr pending (m ∷ rest) =
    texts_beq (result_ids repr m) pending && paired_from repr (call_ids repr m) rest

abbrev pub is_paired : (Value → Text) → List AgentMessage → Bool
is_paired repr messages = paired_from repr [] messages

-- A block has one type at most.
pub has_type_other :
    (b : Value) (s t : Text) → (s == t) ≡ false → has_type b s ≡ true → has_type b t ≡ false
has_type_other b s t apart h = is_text_other (get b (text "type")) s t apart h
  where
    is_text_other :
        (v : Option Value) (s t : Text)
        → (s == t) ≡ false
        → is_text v s ≡ true
        → is_text v t ≡ false
    is_text_other (some (str r)) s t apart h = ground (
      arith,
      text_equality.equal_iff r s,
      text_equality.equal_iff r t,
      text_equality.equal_iff s t,
    )
    is_text_other _ s t apart h = absurd (ground arith)

-- No block of the content has the type.
abbrev pub lacks : Text → List Value → Bool
lacks type content = all (λ b. not (has_type b type)) content

pub texts_beq-nil : (ss : List Text) → texts_beq ss [] ≡ true → ss ≡ []
texts_beq-nil [] h = refl
texts_beq-nil (s ∷ ss) h = absurd (ground (arith, h))

module _ (repr : Value → Text) where
  pub ids_of-lacks :
      (type key : Text) (bs : List Value) → lacks type bs ≡ true → ids_of repr type key bs ≡ []
  ids_of-lacks type key [] h = refl
  ids_of-lacks type key (b ∷ bs) h = ground (arith, h, ids_of-lacks type key bs)

  pub ids_of-keep :
      (type key : Text) (bs : List Value)
      → ids_of repr type key (keep (λ b. has_type b type) bs) ≡ ids_of repr type key bs
  ids_of-keep type key [] = refl
  ids_of-keep type key (b ∷ bs) = ground (arith, ids_of-keep type key bs)
