-- ===== src/Llm/ToolDeltas/Merge.antt =====
-- The merge of the fragments of several calls that a stream mixes.
use koraku.Prelude.{
  Bool, true, false, ◌&&◌, ℕ, ◌≡◌, refl, ap, ◌∙◌, Option, some, List, [], ◌∷◌, nat_beq, nat_beq_iff,
  if◌then◌else◌, nat_equality,
}
use koraku.Prelude.Text.{Text}
use koraku.Prelude.Dict
use koraku.Prelude.Dict.{Dict, get-put}
use koraku.Prelude.Json.{Value, is_dict}
use koraku.Llm.ToolDeltas.{
  Slot, slot_or_empty, Fragment, fragment_of, Slots, slot_at, merged, merge_fragment,
  accumulate_openai_tool_call_deltas,
}

-- A fragment changes the slot of its index and no other.
slot_at-merge_fragment :
    (slots : Slots) (f : Fragment) (idx : ℕ)
    → slot_at (merge_fragment slots f) idx
      ≡ (if nat_beq f.index idx then merged (slot_at slots idx) f else slot_at slots idx)
unfolding merge_fragment
slot_at-merge_fragment slots f idx =
    ap slot_or_empty (get-put slots f.index idx (merged (slot_at slots f.index) f))
    ∙ by_test (nat_beq f.index idx) refl
  where
    by_test :
        (b : Bool)
        → nat_beq f.index idx ≡ b
        → slot_or_empty (if b then some (merged (slot_at slots f.index) f) else Dict.get slots idx)
          ≡ (if b then merged (slot_at slots idx) f else slot_at slots idx)
    by_test true same = ap (λ i. merged (slot_at slots i) f) ((nat_beq_iff f.index idx).0 same)
    by_test false other = refl

module _ (repr : Value → Text) (index_of : Option Value → ℕ) where
  -- The fragments of one call, in their order.
  abbrev pub fragments_at : ℕ → List Value → List Fragment
  fragments_at idx [] = []
  fragments_at idx (tc ∷ rest) =
      let later = fragments_at idx rest in
      if is_dict tc && nat_beq ((fragment_of repr index_of tc).index) idx
      then fragment_of repr index_of tc ∷ later
      else later

  abbrev pub merge_all : Slot → List Fragment → Slot
  merge_all slot [] = slot
  merge_all slot (f ∷ fs) = merge_all (merged slot f) fs

  -- However the fragments of several calls are mixed, the slot of a call is what its own fragments
  -- make of it, one after another.
  pub slot_at-accumulate :
      (slots : Slots) (tool_calls : List Value) (idx : ℕ)
      → slot_at (accumulate_openai_tool_call_deltas repr index_of slots tool_calls) idx
        ≡ merge_all (slot_at slots idx) (fragments_at idx tool_calls)
  unfolding accumulate_openai_tool_call_deltas
  slot_at-accumulate slots [] idx = refl
  slot_at-accumulate slots (tc ∷ rest) idx =
      slot_at-accumulate
        (if is_dict tc then merge_fragment slots (fragment_of repr index_of tc) else slots) rest idx
      ∙ by_kind (is_dict tc)
    where
      by_kind :
          (b : Bool)
          → merge_all
              (slot_at
                (if b then merge_fragment slots (fragment_of repr index_of tc) else slots)
                idx)
              (fragments_at idx rest)
            ≡ merge_all (slot_at slots idx) (
                if b && nat_beq ((fragment_of repr index_of tc).index) idx
                then fragment_of repr index_of tc ∷ fragments_at idx rest
                else fragments_at idx rest)
      by_kind false = refl
      by_kind true =
          ap (λ s. merge_all s (fragments_at idx rest))
            (slot_at-merge_fragment slots (fragment_of repr index_of tc) idx)
          ∙ by_index (nat_beq ((fragment_of repr index_of tc).index) idx)
        where
          by_index :
              (b : Bool)
              → merge_all
                  (if b
                    then merged (slot_at slots idx) (fragment_of repr index_of tc)
                    else slot_at slots idx)
                  (fragments_at idx rest)
                ≡ merge_all (slot_at slots idx) (
                    if b
                    then fragment_of repr index_of tc ∷ fragments_at idx rest
                    else fragments_at idx rest)
          by_index true = refl
          by_index false = refl
