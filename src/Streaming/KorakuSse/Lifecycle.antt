-- ===== src/Streaming/KorakuSse/Lifecycle.antt =====
-- A tool call of a stream from its start to its end, with other calls between.
use koraku.Prelude.{
  ◌≡◌, refl, ap, ◌∙◌, arith, false, Option, none, some, List, [], ◌∷◌, if◌then◌else◌, ◌==◌, ==_refl,
  text_equality,
}
use koraku.Prelude.Text.{Text, text, is_empty, strip, or_text}
use koraku.Prelude.Dict
use koraku.Prelude.Dict.{get-put, get-put_self, get-remove}
use koraku.Prelude.Json.{Value, str, get}
use koraku.Agent.Message.{or_blank}
use koraku.Streaming.KorakuSse.Payloads.{Outer, envelope, outer}
use koraku.Streaming.KorakuSse.State.{ToolCall, KorakuStreamState}
use koraku.Streaming.KorakuSse.ToolEvents.{
  Subagent, scoped_tool_use_id, Start, tool_started_events, start_named, tool_event,
}
use koraku.Streaming.KorakuSse.MapEvents.{
  Python, finished_event, popped, call_of, call_name, call_input,
}

-- The field of an inner object that is sent.
abbrev pub inner_field : Outer → Text → Option Value
inner_field (envelope inner) key = get inner key
inner_field (outer type data_of) key = none

-- The id and the name that a start is kept under.
abbrev pub start_id : Start → Text
start_id start = strip start.tool_use_id

abbrev pub start_name : Start → Text
start_name start = or_text (strip (or_text start.tool_name (text "tool"))) (text "tool")

module _ (python : Python) where
  abbrev pub result_id : Option Subagent → Value → Text
  result_id sub block =
      scoped_tool_use_id (or_blank python.repr (get block (text "tool_use_id"))) sub

  -- Starts and ends of other calls than the one with this id.
  pub data Between (id : Text) : KorakuStreamState → KorakuStreamState → Type 0 where
    at_once : (s : KorakuStreamState) → Between id s s
    other_start :
        {s t : KorakuStreamState}
        → Between id s t
        → (uuid : Text) (start : Start) → (start_id start == id) ≡ false
        → Between id s ((tool_started_events python.dumps t uuid start).0)
    other_end :
        {s t : KorakuStreamState}
        → Between id s t
        → (uuid : Text) (sub : Option Subagent) (block : Value)
        → (result_id sub block == id) ≡ false
        → Between id s ((finished_event python uuid t sub block).0)

  abbrev call_at : KorakuStreamState → Text → Option ToolCall
  call_at state id = Dict.get state.tool_calls_by_id id

  call_at-start :
      (state : KorakuStreamState) (uuid : Text) (start : Start) (id : Text)
      → is_empty (start_id start) ≡ false
      → call_at ((tool_started_events python.dumps state uuid start).0) id ≡ (
          if start_id start == id
          then some (record { tool = start_name start; input = start.tool_input })
          else call_at state id)
  unfolding tool_started_events
  call_at-start state uuid start id named = by_id (start_id start) named
    where
      by_id :
          (i : Text)
          → is_empty i ≡ false
          → call_at
              ((elim i as (λ _. KorakuStreamState × List Outer) [
                | [] ↦ (state, [])
                | c ∷ s ↦ start_named python.dumps state uuid (start_name start) start (c ∷ s)
              ]).0)
              id
            ≡ (if i == id
                then some (record { tool = start_name start; input = start.tool_input })
                else call_at state id)
      by_id [] k = absurd (ground (arith, k))
      by_id (c ∷ s) k = get-put state.tool_calls_by_id (c ∷ s) id _

  other_start-call_at :
      (state : KorakuStreamState) (uuid : Text) (start : Start) (id : Text)
      → (start_id start == id) ≡ false
      → call_at ((tool_started_events python.dumps state uuid start).0) id ≡ call_at state id
  unfolding tool_started_events
  other_start-call_at state uuid start id other = by_id (start_id start) other
    where
      by_id :
          (i : Text)
          → (i == id) ≡ false
          → call_at
              ((elim i as (λ _. KorakuStreamState × List Outer) [
                | [] ↦ (state, [])
                | c ∷ s ↦ start_named python.dumps state uuid (start_name start) start (c ∷ s)
              ]).0)
              id
            ≡ call_at state id
      by_id [] k = refl
      by_id (c ∷ s) k =
          let call : ToolCall = record { tool = start_name start; input = start.tool_input } in
          get-put state.tool_calls_by_id (c ∷ s) id call
          ∙ ap (λ b. if b then some call else call_at state id) k

  popped-call_at :
      (state : KorakuStreamState) (i id : Text)
      → (i == id) ≡ false
      → call_at (popped state i) id ≡ call_at state id
  popped-call_at state [] id other = refl
  popped-call_at state (c ∷ s) id other =
      get-remove state.tool_calls_by_id (c ∷ s) id
      ∙ ap (λ b. if b then none else call_at state id) other

  Between-call_at :
      (id : Text) {s t : KorakuStreamState} → Between id s t → call_at t id ≡ call_at s id
  unfolding finished_event
  Between-call_at id (at_once s) = refl
  Between-call_at id (other_start {t = t} h uuid start other) =
      other_start-call_at t uuid start id other ∙ Between-call_at id h
  Between-call_at id (other_end {t = t} h uuid sub block other) =
      popped-call_at t (result_id sub block) id other ∙ Between-call_at id h

  call_of-call_at :
      (state : KorakuStreamState) (id : Text)
      → is_empty id ≡ false
      → call_of state id ≡ call_at state id
  call_of-call_at state [] h = absurd (ground (arith, h))
  call_of-call_at state (c ∷ s) h = refl

  call_of-popped : (state : KorakuStreamState) (id : Text) → call_of (popped state id) id ≡ none
  call_of-popped state [] = refl
  call_of-popped state (c ∷ s) =
      get-remove state.tool_calls_by_id (c ∷ s) (c ∷ s)
      ∙ ap (λ b. if b then none else call_at state (c ∷ s)) (==_refl {A = Text} (c ∷ s))

  call_name-start :
      (start : Start)
      → call_name (some (record { tool = start_name start; input = start.tool_input }))
        ≡ start_name start
  call_name-start start = by_name (strip (or_text start.tool_name (text "tool")))
    where
      by_name :
          (s : Text)
          → (if is_empty (or_text s (text "tool")) then text "tool" else or_text s (text "tool"))
            ≡ or_text s (text "tool")
      by_name [] = refl
      by_name (c ∷ s) = refl

  -- The end of a call names the tool and carries the input that the last start of its id gave, however
  -- many other calls start and end between the two; after it the call is known no more.
  pub ends_as_started :
      (state later : KorakuStreamState) (uuid : Text) (start : Start) (sub : Option Subagent)
      (block : Value)
      → is_empty (start_id start) ≡ false
      → result_id sub block ≡ start_id start
      → Between (start_id start) ((tool_started_events python.dumps state uuid start).0) later
      → let (last, sent) = finished_event python uuid later sub block in
        (inner_field sent (text "tool_use_id") ≡ some (str (start_id start)))
        × (inner_field sent (text "tool_name") ≡ some (str (start_name start)))
        × (inner_field sent (text "tool_input") ≡ some start.tool_input)
        × (call_of last (start_id start) ≡ none)
  unfolding finished_event tool_event
  ends_as_started state later uuid start sub block named same between =
      let id : Text = start_id start in
      let call : ToolCall = record { tool = start_name start; input = start.tool_input } in
      let kept : call_at later id ≡ some call =
        Between-call_at id between
        ∙ (call_at-start state uuid start id named
            ∙ ap (λ b. if b then some call else call_at state id) (==_refl id)) in
      let found : call_of later (result_id sub block) ≡ some call =
        ap (call_of later) same ∙ (call_of-call_at later id named ∙ kept) in
      (
        ap (λ i. some (str i)) same,
        ap (λ c. some (str (call_name c))) found ∙ ap (λ n. some (str n)) (call_name-start start),
        ap (λ c. some (call_input c)) found,
        ap (λ i. call_of (popped later i) id) same ∙ call_of-popped later id,
      )
