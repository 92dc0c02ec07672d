-- ===== src/Streaming/KorakuSse/Hidden.antt =====
-- No raw tool call reaches the browser, whatever the run yields.
use koraku.Prelude.{
  ◌≡◌, refl, arith, Bool, true, not, Option, none, some, List, [], ◌∷◌, all-append, ℕ, suc,
}
use koraku.Prelude.Text.{Text, text}
use koraku.Prelude.Json.{Value, obj, get, has_type}
use koraku.Streaming.KorakuSse.Payloads.{Outer, koraku_trace, result_inner, koraku_completed}
use koraku.Streaming.KorakuSse.State.{KorakuStreamState, completion_sequence}
use koraku.Streaming.KorakuSse.ToolEvents.{
  Subagent, tool_event, is_nested_subagent_event, nested_subagent_payload,
}
use koraku.Streaming.KorakuSse.StreamEvents.{map_raw_event, map_stream_event, with_subagent}
use koraku.Streaming.KorakuSse.MapEvents.{
  Python, map_koraku_stream_events, map_user, result_blocks, finished_events, finished_event,
  map_tool_execution, map_all_events, completion,
}
use koraku.Streaming.KorakuSse.Shown.{is_clean, shows_call, if_split}
use koraku.Streaming.KorakuSse.Clean.{started-CleanStep, map_raw-CleanStep}

module _ (python : Python) where
  abbrev Clean : KorakuStreamState × List Outer → Type 0
  Clean step = is_clean (step.1) ≡ true

  stream_event-CleanStep :
      (uuid : Text) (state : KorakuStreamState) (event : Value)
      → Clean (map_stream_event python.repr python.dumps python.int_of uuid state event)
  unfolding map_stream_event
  stream_event-CleanStep uuid state event = by_raw (get event (text "event"))
    where
      sub : Option Subagent
      sub = nested_subagent_payload python.repr event

      by_raw :
          (raw : Option Value)
          → Clean (elim raw [
            | some (obj fs) ↦
                map_raw_event python.repr python.dumps python.int_of uuid state sub
                  (with_subagent python.repr python.dumps python.int_of (obj fs) sub)
            | _ ↦ (state, [])
          ])
      by_raw (some (obj fs)) =
          map_raw-CleanStep python.repr python.dumps python.int_of uuid state sub _
      by_raw none = refl
      by_raw (some v) = refl

  finished-CleanStep :
      (n : ℕ) (state : KorakuStreamState) (sub : Option Subagent) (bs : List Value)
      → Clean (finished_events python n state sub bs)
  unfolding finished_events finished_event tool_event
  finished-CleanStep n state sub [] = refl
  finished-CleanStep n state sub (b ∷ bs) =
      if_split Clean (has_type b (text "tool_result")) (λ _. finished-CleanStep (suc n) _ sub bs)
        (λ _. finished-CleanStep n state sub bs)

  user-CleanStep : (state : KorakuStreamState) (event : Value) → Clean (map_user python state event)
  unfolding map_user
  user-CleanStep state event = by_message (get event (text "message"))
    where
      by_message :
          (message : Option Value)
          → Clean (elim message [
            | some (obj fs) ↦
                finished_events python 0 state
                  (nested_subagent_payload python.repr event)
                  (result_blocks python (get (obj fs) (text "content")))
            | _ ↦ (state, [])
          ])
      by_message (some (obj fs)) = finished-CleanStep 0 state _ _
      by_message none = refl
      by_message (some v) = refl

  completion-CleanStep :
      (state : KorakuStreamState) (event data_of : Value) (failed : Bool) (error : Option Text)
      (cancelled : Bool)
      → Clean (completion python state event data_of failed error cancelled)
  unfolding completion_sequence result_inner koraku_completed
  completion-CleanStep state event data_of failed error cancelled =
      if_split Clean (is_nested_subagent_event python.repr event) (λ _. refl) (λ _. refl)

  event-CleanStep :
      (state : KorakuStreamState) (event : Value)
      → Clean (map_koraku_stream_events python state event)
  unfolding map_koraku_stream_events map_tool_execution koraku_trace
  event-CleanStep state event =
      (if_split Clean (has_type event (text "agent.mode")) (λ _. refl)
        (λ _.
          (if_split Clean (has_type event (text "agent.tools")) (λ _. refl)
            (λ _.
              (if_split Clean (has_type event (text "agent.context")) (λ _. refl)
                (λ _.
                  (if_split Clean (has_type event (text "agent.history")) (λ _. refl)
                    (λ _.
                      (if_split Clean (has_type event (text "agent.trace")) (λ _. refl)
                        (λ _.
                          (if_split Clean (has_type event (text "tool_execution"))
                            (λ _.
                              (started-CleanStep python.repr python.dumps python.int_of state
                                (python.uuid 0) _))
                            (λ _.
                              (if_split Clean (has_type event (text "agent.memory")) (λ _. refl)
                                (λ _.
                                  (if_split Clean (has_type event (text "agent.skill")) (λ _. refl)
                                    (λ _.
                                      (if_split Clean (has_type event (text "agent.question"))
                                        (λ _. refl)
                                        (λ _.
                                          (if_split Clean (has_type event (text "agent.approval"))
                                            (λ _. refl)
                                            (λ _.
                                              (if_split Clean (has_type event (text "agent.action"))
                                                (λ _. refl)
                                                (λ _.
                                                  (if_split Clean
                                                    (has_type event (text "agent.run_log"))
                                                    (λ _. refl)
                                                    (λ _.
                                                      (if_split Clean
                                                        (has_type event (text "agent.subagent"))
                                                        (λ _. refl)
                                                        (λ _.
                                                          (if_split Clean
                                                            (has_type event (text "stream_event"))
                                                            (λ _.
                                                            (stream_event-CleanStep (python.uuid 0)
                                                            state event))
                                                            (λ _.
                                                            (if_split Clean
                                                            (has_type event (text "user"))
                                                            (λ _. (user-CleanStep state event))
                                                            (λ _.
                                                            (if_split Clean
                                                            (has_type event
                                                            (text "agent.completed"))
                                                            (λ _.
                                                            (completion-CleanStep state event _ _ _
                                                            _))
                                                            (λ _.
                                                            (if_split Clean
                                                            (has_type event
                                                            (text "agent.cancelled"))
                                                            (λ _.
                                                            (completion-CleanStep state event _ _ _
                                                            _))
                                                            (λ _.
                                                            (if_split Clean
                                                            (has_type event (text "agent.error"))
                                                            (λ _.
                                                            (completion-CleanStep state event _ _ _
                                                            _))
                                                            (λ _.
                                                            refl))))))))))))))))))))))))))))))))))))

  -- Whatever a run yields, and whatever the state of its stream, nothing that is sent shows a raw tool
  -- call: no message with a `tool_use` block, no start of such a block at a numbered index, and no
  -- `input_json_delta`.
  pub sent_is_clean :
      (state : KorakuStreamState) (events : List Value)
      → is_clean ((map_all_events python state events).1) ≡ true
  sent_is_clean state [] = refl
  sent_is_clean state (e ∷ es) =
      let next : KorakuStreamState = (map_koraku_stream_events python state e).0 in
      ground (
        arith,
        all-append (λ o. not (shows_call o)) ((map_koraku_stream_events python state e).1)
            ((map_all_events python next es).1),
        event-CleanStep state e,
        sent_is_clean next es,
      )
