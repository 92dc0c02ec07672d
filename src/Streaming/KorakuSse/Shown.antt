-- ===== src/Streaming/KorakuSse/Shown.antt =====
-- What shows a raw tool call: a message with a block of one, its start, or a piece of the arguments.
use koraku.Prelude.{
  ◌≡◌, refl, ap, ◌∙◌, arith, Bool, true, false, not, ◌&&◌, ◌||◌, Option, none, some, List, [], ◌∷◌,
  keep, all, any, if◌then◌else◌, ◌==◌, text_equality,
}
use koraku.Prelude.Text.{Text, text, is_empty}
use koraku.Prelude.Fields.{field_of-set_field, field_of-set, to_list-items}
use koraku.Prelude.Json.{Value, str, arr, obj, Fields, get, is_text, has_type, to_list, items}
use koraku.Agent.Message.{or_blank}
use koraku.Agent.React.{is_tool_use}
use koraku.Streaming.KorakuSse.Payloads.{Outer, envelope, outer, extended}
use koraku.Streaming.KorakuSse.StreamEvents.{with_content, int_index, block_is_call, is_input_delta}

-- The blocks of the content of the message of an event.
abbrev pub blocks_of : Option Value → List Value
blocks_of (some (arr content)) = to_list content
blocks_of _ = []

abbrev pub blocks_at : Option Value → List Value
blocks_at (some message) = blocks_of (get message (text "content"))
blocks_at none = []

abbrev pub message_blocks : Value → List Value
message_blocks raw = blocks_at (get raw (text "message"))

abbrev pub has_index : Value → Bool
has_index raw = elim (int_index (get raw (text "index"))) [ none ↦ false | some _ ↦ true ]

-- A raw event that shows a tool call: a message with a call, the start of a block of one, or a piece
-- of its arguments.
abbrev pub raw_shows_call : Value → Bool
raw_shows_call raw =
    has_type raw (text "assistant_message") && any is_tool_use (message_blocks raw)
    || has_type raw (text "content_block_start") && (has_index raw && block_is_call raw)
    || has_type raw (text "content_block_delta") && is_input_delta raw

abbrev pub shows_call : Outer → Bool
shows_call (outer type data_of) = false
shows_call (envelope inner) =
    has_type inner (text "stream_event")
    && (elim (get inner (text "event")) [ some raw ↦ raw_shows_call raw | none ↦ false ])

abbrev pub is_clean : List Outer → Bool
is_clean sent = all (λ o. not (shows_call o)) sent

pub if_split :
    {A : Type 0} (P : A → Type 0) {x y : A} (b : Bool)
    → (b ≡ true → P x)
    → (b ≡ false → P y)
    → P (if b then x else y)
if_split P true h k = h refl
if_split P false h k = k refl

-- A text is one of two that differ.
pub other_text : (r s t : Text) → (s == t) ≡ false → (r == s) ≡ true → (r == t) ≡ false
other_text r s t apart h = ground (
  arith,
  text_equality.equal_iff r s,
  text_equality.equal_iff r t,
  text_equality.equal_iff s t,
  apart,
  h,
)

module _ (repr : Value → Text) where
  abbrev pub raw_type : Value → Text
  raw_type raw = or_blank repr (get raw (text "type"))

  pub not_type :
      (raw : Value) (t : Text)
      → is_empty t ≡ false
      → (raw_type raw == t) ≡ false
      → has_type raw t ≡ false
  not_type raw t named h = by_value (get raw (text "type")) h
    where
      by_value : (v : Option Value) → (or_blank repr v == t) ≡ false → is_text v t ≡ false
      by_value (some (str [])) e = by_name t named
        where
          by_name : (t : Text) → is_empty t ≡ false → ([] == t) ≡ false
          by_name [] k = absurd (ground (arith, k))
          by_name (c ∷ s) k = refl
      by_value (some (str (c ∷ s))) e = e
      by_value _ e = refl

  abbrev pub Quiet : Value → Type 0
  Quiet raw = raw_shows_call raw ≡ false

  -- A raw event whose type is another shows no call.
  pub other-Quiet :
      (raw : Value) (t : Text)
      → (t == text "assistant_message") ≡ false
      → (t == text "content_block_start") ≡ false
      → (t == text "content_block_delta") ≡ false
      → (raw_type raw == t) ≡ true
      → Quiet raw
  other-Quiet raw t not_message not_start not_delta h = ground (
    arith,
    not_type raw (text "assistant_message") refl (other_text _ t _ not_message h),
    not_type raw (text "content_block_start") refl (other_text _ t _ not_start h),
    not_type raw (text "content_block_delta") refl (other_text _ t _ not_delta h),
  )

  pub none-keep : (bs : List Value) → any is_tool_use (keep (λ b. not (is_tool_use b)) bs) ≡ false
  none-keep [] = refl
  none-keep (b ∷ bs) = ground (arith, none-keep bs)

  pub with_content-Quiet :
      (raw : Value) (fs : Fields) (content : List Value)
      → has_type raw (text "content_block_start") ≡ false
      → has_type raw (text "content_block_delta") ≡ false
      → any is_tool_use content ≡ false
      → Quiet (with_content raw (obj fs) content)
  with_content-Quiet (obj rs) fs content not_start not_delta none_of =
      let message : Value = extended (obj fs) (text "content") (arr (items content)) in
      let type : get (with_content (obj rs) (obj fs) content) (text "type")
          ≡ get (obj rs) (text "type") =
        field_of-set_field rs (text "message") (text "type") message refl in
      let kept : message_blocks (with_content (obj rs) (obj fs) content) ≡ content =
        ap blocks_at (field_of-set rs (text "message") message)
        ∙ (ap blocks_of (field_of-set fs (text "content") (arr (items content)))
            ∙ to_list-items content) in
      ground (
        arith,
        ap (λ t. is_text t (text "content_block_start")) type ∙ not_start,
        ap (λ t. is_text t (text "content_block_delta")) type ∙ not_delta,
        ap (any is_tool_use) kept ∙ none_of,
      )
  with_content-Quiet _ fs content not_start not_delta none_of = refl
