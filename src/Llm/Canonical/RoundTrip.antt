-- ===== src/Llm/Canonical/RoundTrip.antt =====
-- Tool calls written for OpenAI, and read back from a stream by koraku/llm/openai_delta.py.
use koraku.Prelude.{
  ℕ, suc, ◌≤◌, false, Option, none, some, List, [], ◌∷◌, ◌++◌, map, if◌then◌else◌, ◌==◌,
  nat_equality, text_equality, ◌≡◌, refl, ap, sym, ◌∙◌, arith, inl, inr, Bool-cases,
}
use mathlib.Core.List.{append-nil, append_assoc}
use koraku.Prelude.Text.{Text, text, strip, is_empty, decimal, or_text}
use koraku.Prelude.Dict
use koraku.Prelude.Dict.{Dict, get-put, get-cons}
use koraku.Prelude.Json.{Value, str, obj, Fields, field, is_dict, dict}
use koraku.Llm.Canonical.Messages.{tool_call, tool_calls_from}
use koraku.Llm.ToolDeltas.{
  Slot, Slots, Fragment, fragment_of, slot_or_empty, merged, merge_fragment,
  accumulate_openai_tool_call_deltas, tool_use_block, input_of, insert_slot, sorted_slots,
  blocks_in_order, tool_call_slots_to_blocks,
}

-- A call with an id, a name and an input.
pub record Call : Type 0 where
  pub id : Text
  pub name : Text
  pub input : Fields

abbrev pub block_of : Call → Value
block_of c = dict (
    (text "type", str (text "tool_use"))
    ∷ (text "id", str c.id)
    ∷ (text "name", str c.name)
    ∷ (text "input", obj c.input)
    ∷ [])

-- The id and the name are not blank, and there is no space at their ends.
abbrev pub IsTrimmed : Text → Type 0
IsTrimmed s = (strip s ≡ s) × (is_empty s ≡ false)

-- A call as a fragment of a stream, which numbers the calls.
abbrev pub streamed : Value → Value → Value
streamed index (obj fs) = obj (field (text "index") index fs)
streamed index v = v

abbrev pub streamed_from : (ℕ → Value) → ℕ → List Value → List Value
streamed_from index_value n [] = []
streamed_from index_value n (v ∷ vs) =
    streamed (index_value n) v ∷ streamed_from index_value (suc n) vs

-- The calls are trimmed, and `loads` reads the text of an input, which is not blank.
abbrev pub AllReadable : (Value → Text) → (Text → Option Value) → List Call → Type 0
AllReadable dumps_plain loads [] = Unit {0}
AllReadable dumps_plain loads (c ∷ cs) =
    IsTrimmed c.id
    × IsTrimmed c.name
    × (loads (dumps_plain (obj c.input)) ≡ some (obj c.input))
    × (is_empty (strip (dumps_plain (obj c.input))) ≡ false)
    × AllReadable dumps_plain loads cs

put_fresh : (d : Slots) (k : ℕ) (v : Slot) → Dict.get d k ≡ none → Dict.put d k v ≡ d ++ (k, v) ∷ []
unfolding Dict.get Dict.put
put_fresh [] k v h = refl
put_fresh ((j, w) ∷ d) k v h = elim (Bool-cases (j == k)) [
  | inl same ↦ absurd (ground (arith, h, same))
  | inr other ↦ rw other (ap (λ r. (j, w) ∷ r) (put_fresh d k v (ground (arith, h, other))))
]

or_text-some : (s t : Text) → is_empty s ≡ false → or_text s t ≡ s
or_text-some [] t h = absurd (ground (arith, h))
or_text-some (c ∷ s) t h = refl

module _ (repr dumps dumps_plain : Value → Text) (loads : Text → Option Value)
    (index_of : Option Value → ℕ) (index_value : ℕ → Value)
    (reads_index : (n : ℕ) → index_of (some (index_value n)) ≡ n) where
  abbrev slot_of : Call → Slot
  slot_of c = record { id = c.id; name = c.name; arguments = dumps_plain (obj c.input) }

  slots_from : ℕ → List Call → Slots
  slots_from n [] = []
  slots_from n (c ∷ cs) = (n, slot_of c) ∷ slots_from (suc n) cs

  -- No slot has the index `n` or a later one.
  abbrev Fresh : ℕ → Slots → Type 0
  Fresh n slots = (m : ℕ) → n ≤ m → Dict.get slots m ≡ none

  fragment_at : ℕ → Call → Fragment
  fragment_at n c = record {
    index = n;
    id = some c.id;
    name = some c.name;
    arguments = dumps_plain (obj c.input);
  }

  fragment_of-streamed :
      (n i : ℕ) (c : Call)
      → IsTrimmed c.id
      → IsTrimmed c.name
      → fragment_of repr index_of
          (streamed (index_value n) (tool_call repr dumps dumps_plain i (block_of c)))
        ≡ fragment_at n c
  unfolding fragment_at
  fragment_of-streamed n i c (_, some_id) (_, some_name) =
      rw (some_id, some_id, some_name, some_name, reads_index n) refl

  merge_apart :
      (n : ℕ) (slots : Slots) (c : Call)
      → Fresh n slots
      → (merge_fragment slots (fragment_at n c) ≡ slots ++ (n, slot_of c) ∷ [])
        × Fresh (suc n) (slots ++ (n, slot_of c) ∷ [])
  unfolding merge_fragment fragment_at
  merge_apart n slots c fresh = (
    ap (λ found. Dict.put slots n (merged (slot_or_empty found) (fragment_at n c)))
          (fresh n (omega arith))
        ∙ added,
    λ m later.
        ap (λ d. Dict.get d m) (sym added) ∙ (get-put slots n m (slot_of c) ∙ by_key m later),
  )
    where
      added : Dict.put slots n (slot_of c) ≡ slots ++ (n, slot_of c) ∷ []
      added = put_fresh slots n (slot_of c) (fresh n (omega arith))

      by_key : (m : ℕ) → suc n ≤ m → (if n == m then some (slot_of c) else Dict.get slots m) ≡ none
      by_key m later =
          ground (arith, later, fresh m (omega (arith, later)), nat_equality.equal_iff n m)

  accumulate-streamed :
      (n : ℕ) (slots : Slots) (cs : List Call) (i : ℕ)
      → AllReadable dumps_plain loads cs
      → Fresh n slots
      → accumulate_openai_tool_call_deltas repr index_of slots
          (streamed_from index_value n (tool_calls_from repr dumps dumps_plain i (map block_of cs)))
        ≡ slots ++ slots_from n cs
  unfolding accumulate_openai_tool_call_deltas slots_from
  accumulate-streamed n slots [] i h fresh = sym (append-nil slots)
  accumulate-streamed n slots (c ∷ cs) i (id, name, loaded, visible, h) fresh =
      let rest : List Value =
        streamed_from index_value (suc n)
          (tool_calls_from repr dumps dumps_plain (suc i) (map block_of cs)) in
      let (merges, still) = merge_apart n slots c fresh in
      ap (λ f. accumulate_openai_tool_call_deltas repr index_of (merge_fragment slots f) rest)
        (fragment_of-streamed n i c id name)
      ∙ (ap (λ s. accumulate_openai_tool_call_deltas repr index_of s rest) merges
          ∙ (accumulate-streamed (suc n) (slots ++ (n, slot_of c) ∷ []) cs (suc i) h still
              ∙ append_assoc slots ((n, slot_of c) ∷ []) (slots_from (suc n) cs)))

  insert_first :
      (n : ℕ) (slot : Slot) (cs : List Call)
      → insert_slot n slot (slots_from (suc n) cs) ≡ (n, slot) ∷ slots_from (suc n) cs
  unfolding slots_from
  insert_first n slot [] = refl
  insert_first n slot (c ∷ cs) = ground arith

  sorted-slots_from : (n : ℕ) (cs : List Call) → sorted_slots (slots_from n cs) ≡ slots_from n cs
  unfolding slots_from
  sorted-slots_from n [] = refl
  sorted-slots_from n (c ∷ cs) = rw (sorted-slots_from (suc n) cs) (insert_first n (slot_of c) cs)

  input-dumps :
      (fs : Fields)
      → loads (dumps_plain (obj fs)) ≡ some (obj fs)
      → is_empty (strip (dumps_plain (obj fs))) ≡ false
      → input_of loads (dumps_plain (obj fs)) ≡ obj fs
  input-dumps fs loaded visible = rw visible (by_loaded (loads (dumps_plain (obj fs))) loaded)
    where
      by_loaded :
          (read : Option Value)
          → read ≡ some (obj fs)
          → (elim read as (λ _. Value) [
            | some v ↦ if is_dict v then v else dict ((text "_value", v) ∷ [])
            | none ↦ dict ((text "_partial_json", str (dumps_plain (obj fs))) ∷ [])
          ])
            ≡ obj fs
      by_loaded read e = rw e refl

  block-slot_of :
      (n : ℕ) (c : Call)
      → IsTrimmed c.id
      → IsTrimmed c.name
      → loads (dumps_plain (obj c.input)) ≡ some (obj c.input)
      → is_empty (strip (dumps_plain (obj c.input))) ≡ false
      → tool_use_block loads n (slot_of c) ≡ block_of c
  block-slot_of n c id name loaded visible =
      rw
        (
          id.0,
          or_text-some c.id (text "tool_" ++ decimal n) id.1,
          input-dumps c.input loaded visible,
        )
        (ap
          (λ name. dict (
            (text "type", str (text "tool_use"))
            ∷ (text "id", str c.id)
            ∷ (text "name", str name)
            ∷ (text "input", obj c.input)
            ∷ []))
          name.0)

  blocks-slots_from :
      (n : ℕ) (cs : List Call)
      → AllReadable dumps_plain loads cs
      → blocks_in_order loads (slots_from n cs) ≡ map block_of cs
  unfolding slots_from
  blocks-slots_from n [] h = refl
  blocks-slots_from n (c ∷ cs) (id, name, loaded, visible, h) =
      rw
        (
          blocks_in_order,
          name.0,
          name.1,
          block-slot_of n c id name loaded visible,
          blocks-slots_from (suc n) cs h,
        )
        refl

  -- The `tool_use` blocks of an assistant's message, written as OpenAI tool calls and read back as a
  -- stream of fragments, are the same blocks, in the same order. Their ids and names are texts that
  -- are trimmed and not blank, their inputs are objects, and `json.loads` reads the text that
  -- `json.dumps` writes of each, which is not blank; `int` reads the index of a fragment.
  pub blocks-deltas-calls :
      (cs : List Call)
      → AllReadable dumps_plain loads cs
      → tool_call_slots_to_blocks loads (
          accumulate_openai_tool_call_deltas repr index_of [] (
            streamed_from index_value 0
              (tool_calls_from repr dumps dumps_plain 0 (map block_of cs))))
        ≡ map block_of cs
  unfolding tool_call_slots_to_blocks
  blocks-deltas-calls cs h =
      ap (tool_call_slots_to_blocks loads)
        (accumulate-streamed 0 [] cs 0 h (λ m le. unfold Dict.get in refl))
      ∙ (ap (blocks_in_order loads) (sorted-slots_from 0 cs) ∙ blocks-slots_from 0 cs h)
