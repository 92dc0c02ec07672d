-- ===== src/Llm/ToolDeltas.antt =====
-- koraku/llm/openai_delta.py: the fragments of an OpenAI-compatible stream, gathered into text and
-- into `tool_use` blocks. An index of a tool call is a number that is not negative.
pub mod Merge
pub mod Tests
use koraku.Prelude.{
  Bool, true, false, not, ◌&&◌, ◌||◌, ℕ, Option, none, some, List, [], ◌∷◌, ◌++◌, map, leb, nat_beq,
  if◌then◌else◌, length, text_equality, nat_equality, ◌==◌, contains,
}
use koraku.Prelude.Text.{Text, text, strip, is_empty, or_text, decimal}
use koraku.Prelude.Dict
use koraku.Prelude.Dict.{Dict}
use koraku.Prelude.Json.{
  Value, null, bool, num, str, arr, obj, end, get, is_dict, is_text, has_type, as_text, truthy,
  dict, to_list,
}

abbrev pub retryable_statuses : List ℕ
retryable_statuses = 408 ∷ 409 ∷ 425 ∷ 429 ∷ 500 ∷ 502 ∷ 503 ∷ 504 ∷ []

unfoldable pub retryable_http_status : ℕ → Bool
retryable_http_status status_code = contains retryable_statuses status_code

-- What an entry of a list of parts adds.
abbrev pub string_or_empty : Option Value → Text
string_or_empty (some (str s)) = s
string_or_empty _ = []

abbrev pub is_string : Option Value → Bool
is_string (some (str _)) = true
is_string _ = false

abbrev pub part_text : Value → Text
part_text (str s) = s
part_text (obj fields) =
    if has_type (obj fields) (text "text") && is_string (get (obj fields) (text "text"))
    then string_or_empty (get (obj fields) (text "text"))
    else string_or_empty (get (obj fields) (text "content"))
part_text _ = []

abbrev pub parts_text : List Value → Text
parts_text [] = []
parts_text (p ∷ ps) = part_text p ++ parts_text ps

unfoldable pub openai_delta_content_to_str : (Value → Text) → Value → Text
openai_delta_content_to_str repr null = []
openai_delta_content_to_str repr (str s) = s
openai_delta_content_to_str repr (arr parts) = parts_text (to_list parts)
openai_delta_content_to_str repr raw = repr raw

pub record Slot : Type 0 where
  pub id : Text
  pub name : Text
  pub arguments : Text

abbrev pub empty_slot : Slot
empty_slot = record { id = []; name = []; arguments = [] }

-- A fragment as the merge reads it: the index, and the id, the name and the piece of the arguments
-- where it has them.
pub record Fragment : Type 0 where
  pub index : ℕ
  pub id : Option Text
  pub name : Option Text
  pub arguments : Text

abbrev pub text_if_truthy : (Value → Text) → Option Value → Option Text
text_if_truthy repr none = none
text_if_truthy repr (some v) = if truthy v then some (as_text repr v) else none

-- fn.get("arguments"), when it is neither None nor "": its text, else nothing
abbrev pub argument_text : (Value → Text) → Option Value → Text
argument_text repr none = []
argument_text repr (some null) = []
argument_text repr (some v) = as_text repr v

abbrev pub function_field : Value → Text → Option Value
function_field tc key = elim (get tc (text "function")) [ some fn ↦ get fn key | none ↦ none ]

-- `index_of` is `int` of the index, 0 where there is none.
abbrev pub fragment_of : (Value → Text) → (Option Value → ℕ) → Value → Fragment
fragment_of repr index_of tc = record {
  index = index_of (get tc (text "index"));
  id = text_if_truthy repr (get tc (text "id"));
  name = text_if_truthy repr (function_field tc (text "name"));
  arguments = argument_text repr (function_field tc (text "arguments"));
}

abbrev pub or_kept : Option Text → Text → Text
or_kept none kept = kept
or_kept (some s) kept = s

abbrev pub Slots : Type 0
Slots = Dict ℕ Slot

abbrev pub slot_or_empty : Option Slot → Slot
slot_or_empty (some slot) = slot
slot_or_empty none = empty_slot

-- slots.setdefault(idx, ...)
abbrev pub slot_at : Slots → ℕ → Slot
slot_at slots idx = slot_or_empty (Dict.get slots idx)

abbrev pub merged : Slot → Fragment → Slot
merged slot f = record {
  id = or_kept f.id slot.id;
  name = or_kept f.name slot.name;
  arguments = slot.arguments ++ f.arguments;
}

unfoldable pub merge_fragment : Slots → Fragment → Slots
merge_fragment slots f = Dict.put slots f.index (merged (slot_at slots f.index) f)

unfoldable pub accumulate_openai_tool_call_deltas :
    (Value → Text) → (Option Value → ℕ) → Slots → List Value → Slots
accumulate_openai_tool_call_deltas repr index_of slots [] = slots
accumulate_openai_tool_call_deltas repr index_of slots (tc ∷ rest) =
    accumulate_openai_tool_call_deltas repr index_of
      (if is_dict tc then merge_fragment slots (fragment_of repr index_of tc) else slots) rest

-- The arguments of a call: their JSON when it is an object. `loads` is `json.loads`, `none` where it
-- raises.
abbrev pub loaded_input : (Text → Option Value) → Text → Value
loaded_input loads raw_args = elim (loads raw_args) [
  | some v ↦ if is_dict v then v else dict ((text "_value", v) ∷ [])
  | none ↦ dict ((text "_partial_json", str raw_args) ∷ [])
]

abbrev pub input_of : (Text → Option Value) → Text → Value
input_of loads raw_args = if is_empty (strip raw_args) then obj end else loaded_input loads raw_args

abbrev pub tool_use_block : (Text → Option Value) → ℕ → Slot → Value
tool_use_block loads idx slot = dict (
    (text "type", str (text "tool_use"))
    ∷ (text "id", str (or_text (strip slot.id) (text "tool_" ++ decimal idx)))
    ∷ (text "name", str (strip slot.name))
    ∷ (text "input", input_of loads slot.arguments)
    ∷ [])

-- Insertion of an entry before the first with a larger key: `sorted` on keys that differ.
abbrev pub insert_slot : ℕ → Slot → Slots → Slots
insert_slot idx slot [] = (idx, slot) ∷ []
insert_slot idx slot ((j, s) ∷ rest) =
    let later = insert_slot idx slot rest in
    elim (leb idx j) [ true ↦ (idx, slot) ∷ (j, s) ∷ rest | false ↦ (j, s) ∷ later ]

abbrev pub sorted_slots : Slots → Slots
sorted_slots [] = []
sorted_slots ((idx, slot) ∷ rest) = insert_slot idx slot (sorted_slots rest)

abbrev pub blocks_in_order : (Text → Option Value) → Slots → List Value
blocks_in_order loads [] = []
blocks_in_order loads ((idx, slot) ∷ rest) =
    let later = blocks_in_order loads rest in
    elim (is_empty (strip slot.name)) [
      | true ↦ later
      | false ↦ tool_use_block loads idx slot ∷ later
    ]

unfoldable pub tool_call_slots_to_blocks : (Text → Option Value) → Slots → List Value
tool_call_slots_to_blocks loads slots = blocks_in_order loads (sorted_slots slots)
