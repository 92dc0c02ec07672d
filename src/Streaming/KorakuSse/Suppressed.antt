-- ===== src/Streaming/KorakuSse/Suppressed.antt =====
-- The indexes of suppressed blocks, which the agents of a run share.
use koraku.Prelude.{
  ◌≡◌, refl, ap, ◌∙◌, arith, Bool, true, false, ◌||◌, Option, none, some, List, [], ◌∷◌,
  if◌then◌else◌, ==_refl, text_equality, contains,
}
use koraku.Prelude.Text.{Text, text, strip, or_text}
use koraku.Prelude.Json.{Value, str, get}
use koraku.Streaming.KorakuSse.Payloads.{Outer, or_null}
use koraku.Streaming.KorakuSse.State.{KorakuStreamState}
use koraku.Streaming.KorakuSse.ToolEvents.{Subagent, Start, tool_started_events, start_named}
use koraku.Streaming.KorakuSse.StreamEvents.{
  map_raw_event, block_begins, block_is_call, int_index, is_suppressed, suppress, block_start,
  is_input_delta, forward,
}

module _ (repr dumps : Value → Text) (int_of : Value → Value) where
  started_indexes :
      (state : KorakuStreamState) (uuid : Text) (start : Start)
      → ((tool_started_events dumps state uuid start).0).suppressed_tool_block_indexes
        ≡ state.suppressed_tool_block_indexes
  unfolding tool_started_events
  started_indexes state uuid start = by_id (strip start.tool_use_id)
    where
      name : Text
      name = or_text (strip (or_text start.tool_name (text "tool"))) (text "tool")

      by_id :
          (id : Text)
          → ((elim id as (λ _. KorakuStreamState × List Outer) [
            | [] ↦ (state, [])
            | c ∷ s ↦ start_named dumps state uuid name start (c ∷ s)
          ]).0
            ).suppressed_tool_block_indexes
            ≡ state.suppressed_tool_block_indexes
      by_id [] = refl
      by_id (c ∷ s) = refl

  contains-suppress :
      (state : KorakuStreamState) (idx : Text)
      → contains (suppress state idx).suppressed_tool_block_indexes idx ≡ true
  contains-suppress state idx = by_test (contains state.suppressed_tool_block_indexes idx) refl
    where
      by_test :
          (b : Bool)
          → contains state.suppressed_tool_block_indexes idx ≡ b
          → contains
              (if b
                then state.suppressed_tool_block_indexes
                else idx ∷ state.suppressed_tool_block_indexes)
              idx
            ≡ true
      by_test true there = there
      by_test false new = ground (arith, ==_refl {A = Text} idx)

  start_step :
      (uuid : Text) (state : KorakuStreamState) (sub : Option Subagent) (raw : Value)
      → get raw (text "type") ≡ some (str (text "content_block_start"))
      → map_raw_event repr dumps int_of uuid state sub raw
        ≡ block_begins repr dumps int_of uuid state sub raw
  unfolding map_raw_event
  start_step uuid state sub raw type = rw type refl

  begins_step :
      (uuid : Text) (state : KorakuStreamState) (sub : Option Subagent) (raw : Value) (idx : Text)
      → int_index (get raw (text "index")) ≡ some idx
      → block_is_call raw ≡ true
      → block_begins repr dumps int_of uuid state sub raw
        ≡ tool_started_events dumps
            (suppress state idx)
            uuid
            (block_start repr dumps int_of sub (or_null (get raw (text "content_block"))))
  begins_step uuid state sub raw idx index call =
      by_index (int_index (get raw (text "index"))) index
    where
      by_index :
          (i : Option Text)
          → i ≡ some idx
          → (elim i as (λ _. KorakuStreamState × List Outer) [
            | none ↦ forward repr dumps int_of uuid state raw
            | some i ↦
                if block_is_call raw
                then tool_started_events dumps
                    (suppress state i)
                    uuid
                    (block_start repr dumps int_of sub (or_null (get raw (text "content_block"))))
                else forward repr dumps int_of uuid state raw
          ])
            ≡ tool_started_events dumps
                (suppress state idx)
                uuid
                (block_start repr dumps int_of sub (or_null (get raw (text "content_block"))))
      by_index i same = rw (same, call) refl

  delta_step :
      (uuid : Text) (state : KorakuStreamState) (raw : Value) (idx : Text)
      → get raw (text "type") ≡ some (str (text "content_block_delta"))
      → int_index (get raw (text "index")) ≡ some idx
      → contains state.suppressed_tool_block_indexes idx ≡ true
      → (map_raw_event repr dumps int_of uuid state none raw).1 ≡ []
  unfolding map_raw_event
  delta_step uuid state raw idx type index there =
      rw type (by_index (int_index (get raw (text "index"))) index)
    where
      by_index :
          (i : Option Text)
          → i ≡ some idx
          → (if is_suppressed state i || is_input_delta raw
              then (state, [])
              else forward repr dumps int_of uuid state raw).1
            ≡ []
      by_index i same = rw (same, there) refl

  -- A call that starts in the stream of one agent hides the text of another: once a block with a call
  -- has begun at an index in an event of a nested agent, a piece of a text block with the same index
  -- in the turn itself is not sent.
  pub nested_call_hides_text :
      (uuid uuid' : Text) (state : KorakuStreamState) (sub : Subagent) (raw_start raw_delta : Value)
      (idx : Text)
      → get raw_start (text "type") ≡ some (str (text "content_block_start"))
      → int_index (get raw_start (text "index")) ≡ some idx
      → block_is_call raw_start ≡ true
      → get raw_delta (text "type") ≡ some (str (text "content_block_delta"))
      → int_index (get raw_delta (text "index")) ≡ some idx
      → let next : KorakuStreamState =
          (map_raw_event repr dumps int_of uuid state (some sub) raw_start).0 in
        (map_raw_event repr dumps int_of uuid' next none raw_delta).1 ≡ []
  nested_call_hides_text uuid uuid' state sub raw_start raw_delta idx t1 i1 call t2 i2 =
      let start : Start =
        block_start repr dumps int_of (some sub) (or_null (get raw_start (text "content_block"))) in
      let next : KorakuStreamState =
        (map_raw_event repr dumps int_of uuid state (some sub) raw_start).0 in
      let step : next ≡ (tool_started_events dumps (suppress state idx) uuid start).0 =
        ap (λ s. s.0)
          (start_step uuid state (some sub) raw_start t1
            ∙ begins_step uuid state (some sub) raw_start idx i1 call) in
      delta_step uuid' next raw_delta idx t2 i2 (
        ap (λ s. contains s.suppressed_tool_block_indexes idx) step
        ∙ (ap (λ is. contains is idx) (started_indexes (suppress state idx) uuid start)
            ∙ contains-suppress state idx))
