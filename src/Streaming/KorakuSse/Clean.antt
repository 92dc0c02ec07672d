-- ===== src/Streaming/KorakuSse/Clean.antt =====
-- No step on a model's events sends what shows a raw tool call.
use koraku.Prelude.{
  ◌≡◌, refl, ap, ◌∙◌, arith, Bool, true, false, not, ◌||◌, Option, none, some, List, [], ◌∷◌, ◌++◌,
  map, keep, any, if◌then◌else◌, ◌==◌, text_equality,
}
use koraku.Prelude.Text.{Text, text, or_text, strip}
use koraku.Prelude.Json.{Value, str, arr, obj, get, has_type, dict, to_list}
use koraku.Agent.React.{is_tool_use}
use koraku.Streaming.KorakuSse.Payloads.{Outer, or_null, outer}
use koraku.Streaming.KorakuSse.State.{KorakuStreamState}
use koraku.Streaming.KorakuSse.ToolEvents.{
  Subagent, Start, tool_started_events, start_named, tool_event,
}
use koraku.Streaming.KorakuSse.StreamEvents.{
  wrap_stream_event, without_calls, message_without_calls, assistant_message_without_tool_calls,
  int_index, block_is_call, is_input_delta, is_suppressed, turn_usage, usage_of, forward,
  forward_message, suppress, discard, usage_keys, is_positive, int_or_zero, block_start,
  block_begins, map_raw_event,
}
use koraku.Streaming.KorakuSse.Shown.{
  blocks_of, blocks_at, message_blocks, has_index, is_clean, if_split, other_text, raw_type,
  not_type, Quiet, other-Quiet, none-keep, with_content-Quiet,
}

module _ (repr dumps : Value → Text) (int_of : Value → Value) where
  abbrev pub CleanStep : KorakuStreamState × List Outer → Type 0
  CleanStep step = is_clean (step.1) ≡ true

  forward-CleanStep :
      (uuid : Text) (state : KorakuStreamState) (raw : Value)
      → Quiet repr raw
      → CleanStep (forward repr dumps int_of uuid state raw)
  unfolding wrap_stream_event
  forward-CleanStep uuid state raw h = ground (arith, h)

  pub started-CleanStep :
      (state : KorakuStreamState) (uuid : Text) (start : Start)
      → CleanStep (tool_started_events dumps state uuid start)
  unfolding tool_started_events tool_event
  started-CleanStep state uuid start = by_id (strip start.tool_use_id)
    where
      name : Text
      name = or_text (strip (or_text start.tool_name (text "tool"))) (text "tool")

      by_id :
          (id : Text)
          → CleanStep (elim id [
            | [] ↦ (state, [])
            | c ∷ s ↦ start_named dumps state uuid name start (c ∷ s)
          ])
      by_id [] = refl
      by_id (c ∷ s) = refl

  unless-CleanStep :
      (uuid : Text) (state kept : KorakuStreamState) (raw : Value) (b : Bool)
      → (b ≡ false → Quiet repr raw)
      → CleanStep (if b then (kept, []) else forward repr dumps int_of uuid state raw)
  unless-CleanStep uuid state kept raw true h = refl
  unless-CleanStep uuid state kept raw false h = forward-CleanStep uuid state raw (h refl)

  usage-CleanStep :
      (uuid : Text) (state : KorakuStreamState) (raw : Value)
      → Quiet repr raw
      → CleanStep (
        state,
        turn_usage repr dumps int_of state (usage_of repr dumps int_of (get raw (text "usage")))
            ++ wrap_stream_event uuid state raw ∷ [],
      )
  unfolding wrap_stream_event
  usage-CleanStep uuid state raw h = by_test (
      any (λ k. is_positive (get (usage_of repr dumps int_of (get raw (text "usage"))) k))
        usage_keys)
    where
      by_test :
          (b : Bool)
          → is_clean (
              (if b
                then outer (text "koraku.turn_usage") (
                    dict (
                      (text "runId", str state.run_id)
                      ∷ (text "innerSessionId", str state.inner_session_id)
                      ∷ map
                          (λ k. (
                            k,
                            int_or_zero repr dumps int_of
                                (get (usage_of repr dumps int_of (get raw (text "usage"))) k),
                          ))
                          usage_keys))
                  ∷ []
                else [])
              ++ wrap_stream_event uuid state raw ∷ [])
            ≡ true
      by_test true = ground (arith, h)
      by_test false = ground (arith, h)

  block_begins-CleanStep :
      (uuid : Text) (state : KorakuStreamState) (sub : Option Subagent) (raw : Value)
      → (raw_type repr raw == text "content_block_start") ≡ true
      → CleanStep (block_begins repr dumps int_of uuid state sub raw)
  block_begins-CleanStep uuid state sub raw h = by_index (int_index (get raw (text "index"))) refl
    where
      not_message : has_type raw (text "assistant_message") ≡ false
      not_message = not_type repr raw (text "assistant_message") refl (
          other_text (raw_type repr raw) (text "content_block_start") (text "assistant_message")
            refl h)

      not_delta : has_type raw (text "content_block_delta") ≡ false
      not_delta = not_type repr raw (text "content_block_delta") refl (
          other_text (raw_type repr raw) (text "content_block_start") (text "content_block_delta")
            refl h)

      no_index : int_index (get raw (text "index")) ≡ none → has_index raw ≡ false
      no_index e = rw (has_index, e) refl

      by_index :
          (idx : Option Text)
          → int_index (get raw (text "index")) ≡ idx
          → CleanStep (elim idx [
            | none ↦ forward repr dumps int_of uuid state raw
            | some idx ↦
                if block_is_call raw
                then tool_started_events dumps
                    (suppress state idx)
                    uuid
                    (block_start repr dumps int_of sub (or_null (get raw (text "content_block"))))
                else forward repr dumps int_of uuid state raw
          ])
      by_index none same =
          forward-CleanStep uuid state raw (ground (arith, not_message, not_delta, no_index same))
      by_index (some idx) same =
          if_split CleanStep (block_is_call raw)
            (λ call. started-CleanStep (suppress state idx) uuid _)
            (λ other.
              forward-CleanStep uuid state raw (ground (arith, not_message, not_delta, other)))

  message-CleanStep :
      (uuid : Text) (state : KorakuStreamState) (raw : Value)
      → (raw_type repr raw == text "assistant_message") ≡ true
      → CleanStep
          (forward_message repr dumps int_of uuid state (assistant_message_without_tool_calls raw))
  unfolding assistant_message_without_tool_calls
  message-CleanStep uuid state raw h = by_message (get raw (text "message")) refl
    where
      not_start : has_type raw (text "content_block_start") ≡ false
      not_start = not_type repr raw (text "content_block_start") refl (
          other_text (raw_type repr raw) (text "assistant_message") (text "content_block_start")
            refl h)

      not_delta : has_type raw (text "content_block_delta") ≡ false
      not_delta = not_type repr raw (text "content_block_delta") refl (
          other_text (raw_type repr raw) (text "assistant_message") (text "content_block_delta")
            refl h)

      by_message :
          (message : Option Value)
          → get raw (text "message") ≡ message
          → CleanStep
              (forward_message repr dumps int_of uuid state (message_without_calls raw message))
      by_message (some (obj fs)) same = by_content (get (obj fs) (text "content")) refl
        where
          calm : any is_tool_use (message_blocks raw) ≡ false → Quiet repr raw
          calm none_of = ground (arith, not_start, not_delta, none_of)

          by_kept :
              (kept : List Value)
              → any is_tool_use kept ≡ false
              → CleanStep
                  (forward_message repr dumps int_of uuid state (without_calls raw (obj fs) kept))
          by_kept [] none_of = refl
          by_kept (b ∷ bs) none_of =
              forward-CleanStep uuid state _
                (with_content-Quiet repr raw fs (b ∷ bs) not_start not_delta none_of)

          by_content :
              (content : Option Value)
              → get (obj fs) (text "content") ≡ content
              → CleanStep (
                  forward_message repr dumps int_of uuid state
                    (elim content as (λ _. Option Value) [
                      | some (arr content) ↦
                          without_calls raw
                            (obj fs)
                            (keep (λ b. not (is_tool_use b)) (to_list content))
                      | _ ↦ some raw
                    ]))
          by_content (some (arr content)) e = by_kept _ (none-keep repr (to_list content))
          by_content none e = forward-CleanStep uuid state raw (
              calm (
                (ap (λ m. any is_tool_use (blocks_at m)) same)
                ∙ ap (λ c. any is_tool_use (blocks_of c)) e))
          by_content (some v) e = forward-CleanStep uuid state raw (
              calm (
                (ap (λ m. any is_tool_use (blocks_at m)) same)
                ∙ ap (λ c. any is_tool_use (blocks_of c)) e))
      by_message none same =
          forward-CleanStep uuid state raw
            (ground (arith, not_start, not_delta, ap (λ m. any is_tool_use (blocks_at m)) same))
      by_message (some v) same =
          forward-CleanStep uuid state raw
            (ground (arith, not_start, not_delta, ap (λ m. any is_tool_use (blocks_at m)) same))

  pub map_raw-CleanStep :
      (uuid : Text) (state : KorakuStreamState) (sub : Option Subagent) (raw : Value)
      → CleanStep (map_raw_event repr dumps int_of uuid state sub raw)
  unfolding map_raw_event
  map_raw-CleanStep uuid state sub raw =
      if_split CleanStep (raw_type repr raw == text "message_delta")
        (λ h.
          usage-CleanStep uuid state raw
            (other-Quiet repr raw (text "message_delta") refl refl refl h))
        (λ h1.
          if_split CleanStep (raw_type repr raw == text "tool_use_pending")
            (λ h. started-CleanStep state uuid _)
            (λ h2.
              if_split CleanStep (raw_type repr raw == text "content_block_start")
                (λ h. block_begins-CleanStep uuid state sub raw h)
                (λ h3.
                  if_split CleanStep (raw_type repr raw == text "content_block_delta")
                    (λ h.
                      unless-CleanStep uuid state state raw
                        (is_suppressed state (int_index (get raw (text "index")))
                          || is_input_delta raw)
                        (λ shown. ground (
                          arith,
                          shown,
                          not_type repr raw (text "content_block_start") refl h3,
                          not_type repr raw (text "assistant_message") refl (
                              other_text (raw_type repr raw) (text "content_block_delta")
                                (text "assistant_message") refl h),
                        )))
                    (λ h4.
                      if_split CleanStep (raw_type repr raw == text "content_block_stop")
                        (λ h.
                          unless-CleanStep uuid state
                            (discard state (int_index (get raw (text "index")))) raw
                            (is_suppressed state (int_index (get raw (text "index"))))
                            (λ _.
                              other-Quiet repr raw (text "content_block_stop") refl refl refl h))
                        (λ h5.
                          if_split CleanStep (raw_type repr raw == text "assistant_message")
                            (λ h. message-CleanStep uuid state raw h)
                            (λ h6. forward-CleanStep uuid state raw (
                              ground (
                                arith,
                                not_type repr raw (text "content_block_start") refl h3,
                                not_type repr raw (text "content_block_delta") refl h4,
                                not_type repr raw (text "assistant_message") refl h6,
                              ))))))))
