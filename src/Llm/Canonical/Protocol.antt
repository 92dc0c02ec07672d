-- ===== src/Llm/Canonical/Protocol.antt =====
-- What the OpenAI API asks of the order of messages, and the turns that a run makes.
use koraku.Prelude.{
  Bool, true, false, not, ◌&&◌, ◌||◌, Option, some, List, [], ◌∷◌, map, keep, all, if◌then◌else◌,
  ◌==◌, text_equality, ◌≡◌, refl, arith,
}
use koraku.Prelude.Text.{Text, text}
use koraku.Prelude.Json.{
  Value, null, bool, num, str, arr, obj, get, is_dict, is_text, has_type, text_or, to_list,
}
use koraku.Agent.Message.{Role, user, assistant, Content, plain, blocks, AgentMessage, or_blank}
use koraku.Agent.Pairing.{lacks, texts_beq, has_type_other}
use koraku.Llm.Canonical.Messages.{or_default, text_parts, user_blocks_have_image}

-- What the OpenAI API asks: the calls of an assistant's message are answered by the next messages,
-- one with the role "tool" for each call, in order, before a message of another role.
abbrev pub text_at : Value → Text → Text
text_at v key = elim (get v key) [ some (str s) ↦ s | _ ↦ [] ]

abbrev pub call_list : Option Value → List Text
call_list (some (arr calls)) = map (λ c. text_at c (text "id")) (to_list calls)
call_list _ = []

abbrev pub is_tool_message : Value → Bool
is_tool_message m = is_text (get m (text "role")) (text "tool")

abbrev pub answered_from : List Text → List Value → Bool
answered_from pending [] = texts_beq pending []
answered_from pending (m ∷ rest) =
    if is_tool_message m
    then elim pending [
      | [] ↦ false
      | id ∷ ids ↦ id == text_at m (text "tool_call_id") && answered_from ids rest
    ]
    else texts_beq pending [] && answered_from (call_list (get m (text "tool_calls"))) rest

-- A block has a type and, under `key`, a text that is not blank.
abbrev pub has_id : Text → Value → Bool
has_id key b = elim (get b key) [ some (str (c ∷ s)) ↦ true | _ ↦ false ]

-- An answer of the model has no tool results, and its calls have an id. A message of the user has no
-- calls, and it has no results or nothing else.
abbrev pub is_turn_of : Role → Content → Bool
is_turn_of role (plain s) = true
is_turn_of assistant (blocks bs) =
    lacks (text "tool_result") bs
    && all (λ b. not (has_type b (text "tool_use")) || has_id (text "id") b) bs
is_turn_of user (blocks bs) =
    lacks (text "tool_use") bs
    && (lacks (text "tool_result") bs
        || all (λ b. has_type b (text "tool_result") && has_id (text "tool_use_id") b) bs)

abbrev pub is_turn : AgentMessage → Bool
is_turn m = is_turn_of m.role m.content

pub texts_beq→≡ : (ss ts : List Text) → texts_beq ss ts ≡ true → ts ≡ ss
texts_beq→≡ [] [] h = refl
texts_beq→≡ [] (t ∷ ts) h = absurd (ground (arith, h))
texts_beq→≡ (s ∷ ss) [] h = absurd (ground (arith, h))
texts_beq→≡ (s ∷ ss) (t ∷ ts) h =
    let heads : s ≡ t = (text_equality.equal_iff s t).0 (ground (arith, h)) in
    let tails : ts ≡ ss = texts_beq→≡ ss ts (ground (arith, h)) in cc (heads, tails)

pub keep-lacks :
    (type : Text) (bs : List Value) → lacks type bs ≡ true → keep (λ b. has_type b type) bs ≡ []
keep-lacks type [] h = refl
keep-lacks type (b ∷ bs) h = ground (arith, h, keep-lacks type bs)

pub get-is_dict : (b : Value) (s : Text) → has_type b s ≡ true → is_dict b ≡ true
get-is_dict (obj fs) s h = refl
get-is_dict null s h = absurd (ground (arith, h))
get-is_dict (bool b) s h = absurd (ground (arith, h))
get-is_dict (num t) s h = absurd (ground (arith, h))
get-is_dict (str t) s h = absurd (ground (arith, h))
get-is_dict (arr vs) s h = absurd (ground (arith, h))

-- The results of a message of the user.
abbrev pub OnlyResults : List Value → Type 0
OnlyResults bs =
    all (λ b. has_type b (text "tool_result") && has_id (text "tool_use_id") b) bs ≡ true

pub text_parts-results :
    (repr dumps dumps_plain : Value → Text) (bs : List Value)
    → OnlyResults bs
    → text_parts repr dumps dumps_plain (text "tool_result") bs ≡ []
text_parts-results repr dumps dumps_plain [] h = refl
text_parts-results repr dumps dumps_plain (b ∷ bs) h = ground (
  arith,
  h,
  get-is_dict b (text "tool_result"),
  has_type_other b (text "tool_result") (text "text"),
  text_parts-results repr dumps dumps_plain bs,
)

pub no_image : (bs : List Value) → OnlyResults bs → user_blocks_have_image bs ≡ false
no_image [] h = refl
no_image (b ∷ bs) h =
    ground (arith, h, has_type_other b (text "tool_result") (text "image"), no_image bs)

pub id_text :
    (repr : Value → Text) (key : Text) (b : Value)
    → has_id key b ≡ true
    → or_blank repr (get b key) ≡ text_or repr [] (get b key)
id_text repr key b h = by_value (get b key) h
  where
    by_value :
        (v : Option Value)
        → (elim v as (λ _. Bool) [ some (str (c ∷ s)) ↦ true | _ ↦ false ]) ≡ true
        → or_blank repr v ≡ text_or repr [] v
    by_value (some (str (c ∷ s))) e = refl
    by_value _ e = absurd (ground (arith, e))

pub default_text :
    (repr : Value → Text) (key : Text) (b : Value) (default : Text)
    → has_id key b ≡ true
    → or_default repr (get b key) default ≡ text_or repr [] (get b key)
default_text repr key b default h = by_value (get b key) h
  where
    by_value :
        (v : Option Value)
        → (elim v as (λ _. Bool) [ some (str (c ∷ s)) ↦ true | _ ↦ false ]) ≡ true
        → or_default repr v default ≡ text_or repr [] v
    by_value (some (str (c ∷ s))) e = refl
    by_value _ e = absurd (ground (arith, e))
