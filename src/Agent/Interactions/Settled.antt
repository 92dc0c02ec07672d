-- ===== src/Agent/Interactions/Settled.antt =====
-- An interaction is answered once, in whatever order its answers, cancellations and timeouts come.
use koraku.Prelude.{
  Bool, true, false, ◌≡◌, refl, ap, sym, ◌∙◌, some, List, [], ◌∷◌, if◌then◌else◌, text_equality,
  ◌==◌, arith,
}
use koraku.Prelude.Text.{Text, text, is_empty}
use koraku.Prelude.Dict
use koraku.Prelude.Dict.{Dict, get-put}
use koraku.Prelude.Json.{Value}
use koraku.Agent.Interactions.{
  Future, answered, failed, Interactions, is_waiting, settle, was_open, pop_and_settle, resolve,
  cancel, ids_of_run, cancel_all, cancel_run, end_wait,
}

-- The steps of the tasks that share the interactions. A new interaction has a new id, so it is no
-- step on those that are there.
pub data Step : Type 0 where
  resolves : Text → Value → Step
  cancels : Text → Text → Step
  run_ends : Text → Text → Step
  wait_ends : Text → Bool → Step

unfoldable pub step : Interactions → Step → Interactions
step state (resolves id body) = (resolve state id body).0
step state (cancels id reason) = cancel state id reason
step state (run_ends run_id reason) = cancel_run state run_id reason
step state (wait_ends id timed_out) = end_wait state id timed_out

abbrev pub steps : Interactions → List Step → Interactions
steps state [] = state
steps state (s ∷ rest) = steps (step state s) rest

-- The future of `id` is done, with this outcome.
abbrev pub IsDone : Text → Future → Interactions → Type 0
IsDone id outcome state =
    (Dict.get state.futures id ≡ some outcome) × (is_waiting (some outcome) ≡ false)

module _ (id : Text) (outcome : Future) where
  settle-done :
      (futures : Dict Text Future) (other : Text) (result : Future)
      → Dict.get futures id ≡ some outcome
      → is_waiting (some outcome) ≡ false
      → Dict.get (settle futures other result) id ≡ some outcome
  unfolding settle
  settle-done futures other result h k = by_test (is_waiting (Dict.get futures other)) refl
    where
      apart :
          (b : Bool)
          → (other == id) ≡ b
          → is_waiting (Dict.get futures other) ≡ true
          → (if b then some result else Dict.get futures id) ≡ some outcome
      apart false e w = h
      apart true e w =
          let same : is_waiting (Dict.get futures other) ≡ is_waiting (Dict.get futures id) =
            ap (λ i. is_waiting (Dict.get futures i)) ((text_equality.equal_iff other id).0 e) in
          absurd (clash (is_waiting (some outcome)) (sym (ap is_waiting h) ∙ (sym same ∙ w)) k)
        where
          clash : (b : Bool) → b ≡ true → b ≡ false → ⊥
          clash b p q = ground (arith, p, q)

      by_test :
          (b : Bool)
          → is_waiting (Dict.get futures other) ≡ b
          → Dict.get (if b then Dict.put futures other result else futures) id ≡ some outcome
      by_test false w = h
      by_test true w = get-put futures other id result ∙ apart (other == id) refl w

  pop-IsDone :
      (state : Interactions) (other : Text) (result : Future)
      → IsDone id outcome state
      → IsDone id outcome (pop_and_settle state other result)
  pop-IsDone state other result (h, k) = (by_test (was_open state other), k)
    where
      by_test :
          (b : Bool)
          → Dict.get (if b then settle state.futures other result else state.futures) id
            ≡ some outcome
      by_test true = settle-done state.futures other result h k
      by_test false = h

  cancel_all-IsDone :
      (state : Interactions) (ids : List Text) (reason : Text)
      → IsDone id outcome state
      → IsDone id outcome (cancel_all state ids reason)
  cancel_all-IsDone state [] reason h = h
  cancel_all-IsDone state (i ∷ ids) reason h =
      cancel_all-IsDone (pop_and_settle state i (failed reason)) ids reason
        (pop-IsDone state i (failed reason) h)

  step-IsDone :
      (state : Interactions) (s : Step) → IsDone id outcome state → IsDone id outcome (step state s)
  unfolding step resolve cancel cancel_run end_wait
  step-IsDone state (resolves other body) h = pop-IsDone state other (answered body) h
  step-IsDone state (cancels other reason) h = pop-IsDone state other (failed reason) h
  step-IsDone state (run_ends run_id reason) h = by_test (is_empty run_id)
    where
      by_test :
          (b : Bool)
          → IsDone id outcome
              (if b then state else cancel_all state (ids_of_run run_id state.pending) reason)
      by_test true = h
      by_test false = cancel_all-IsDone state (ids_of_run run_id state.pending) reason h
  step-IsDone state (wait_ends other true) h = pop-IsDone state other (failed (text "timeout")) h
  step-IsDone state (wait_ends other false) h = h

  pub settled_forever :
      (state : Interactions) (later : List Step)
      → Dict.get state.futures id ≡ some outcome
      → is_waiting (some outcome) ≡ false
      → Dict.get (steps state later).futures id ≡ some outcome
  settled_forever state [] h k = h
  settled_forever state (s ∷ rest) h k =
      let (h', k') = step-IsDone state s (h, k) in settled_forever (step state s) rest h' k'
