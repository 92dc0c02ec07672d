-- ===== src/Automations/EventTriggers/Secrets.antt =====
-- What the secret of a trigger guards.
use koraku.Prelude.{
  Bool, true, false, ◌≡◌, refl, ap, ◌∙◌, sym, Option, List, [], ◌∷◌, ◌++◌, all, all-append,
  text_equality, arith,
}
use mathlib.Core.List.{append-nil, append_assoc}
use koraku.Prelude.Text.{Text, text, strip, or_empty}
use koraku.Prelude.Json.{Value}
use koraku.Automations.EventTriggers.{
  find_automations_for_event, secret_fits, refused, Trigger, run_matches, run_found, trigger_event,
}

module _ (repr : Value → Text) (queue : Value → Value) where
  by_test :
      (P : Trigger → Type 0) {x y : Trigger} (b : Bool)
      → (b ≡ true → P x)
      → (b ≡ false → P y)
      → P (elim b [ true ↦ x | false ↦ y ])
  by_test P true h k = h refl
  by_test P false h k = k refl

  all-one :
      (p : Value → Bool) (xs : List Value) (x : Value)
      → all p xs ≡ true
      → p x ≡ true
      → all p (xs ++ x ∷ []) ≡ true
  all-one p xs x h k = ground (arith, all-append p xs (x ∷ []), h, k)

  run_matches-fit :
      (given : Text) (queued results rows : List Value)
      → all (secret_fits repr given) queued ≡ true
      → all (secret_fits repr given) ((run_matches repr queue given queued results rows).queued)
        ≡ true
  unfolding run_matches
  run_matches-fit given queued results [] h = h
  run_matches-fit given queued results (row ∷ rest) h =
      by_test (λ t. all (secret_fits repr given) (t.queued) ≡ true) (secret_fits repr given row)
        (λ fits.
          run_matches-fit given (queued ++ row ∷ []) (results ++ queue row ∷ []) rest
            (all-one (secret_fits repr given) queued row h fits))
        (λ other. h)

  -- Every automation that a trigger queues has no secret, or the secret that came with the trigger.
  pub queued_fit :
      (event_key : Text) (secret : Option Text) (rows : List Value)
      → all
          (secret_fits repr (strip (or_empty secret)))
          ((trigger_event repr queue event_key secret rows).queued)
        ≡ true
  unfolding trigger_event
  queued_fit event_key secret rows = by_found (find_automations_for_event repr event_key rows)
    where
      by_found :
          (found : List Value)
          → all
              (secret_fits repr (strip (or_empty secret)))
              ((run_found repr queue (strip (or_empty secret)) found).queued)
            ≡ true
      by_found [] = refl
      by_found (row ∷ rest) = run_matches-fit (strip (or_empty secret)) [] [] (row ∷ rest) refl

  run_matches-until :
      (given : Text) (queued results before : List Value) (row : Value) (rest : List Value)
      → all (secret_fits repr given) before ≡ true
      → secret_fits repr given row ≡ false
      → run_matches repr queue given queued results (before ++ row ∷ rest)
        ≡ record { answer = refused (text "invalid_secret"); queued = queued ++ before }
  unfolding run_matches
  run_matches-until given queued results [] row rest h wrong =
      by_test (λ t. t ≡ record { answer = refused (text "invalid_secret"); queued = queued ++ [] })
        (secret_fits repr given row) (λ fits. absurd (ground (arith, fits, wrong)))
        (λ other.
          ap (λ q. record { answer = refused (text "invalid_secret"); queued = q })
            (sym (append-nil queued)))
  run_matches-until given queued results (b ∷ before) row rest h wrong =
      by_test
        (λ t.
          t ≡ record { answer = refused (text "invalid_secret"); queued = queued ++ b ∷ before })
        (secret_fits repr given b)
        (λ fits.
          run_matches-until given (queued ++ b ∷ []) (results ++ queue b ∷ []) before row rest
            (ground (arith, h)) wrong
          ∙ ap (λ q. record { answer = refused (text "invalid_secret"); queued = q })
              (append_assoc queued (b ∷ []) before))
        (λ other. absurd (ground (arith, h, other)))

  -- When the automations that match are some whose secrets fit and then one whose secret does not,
  -- the trigger is refused, and those before that one have been queued already.
  pub refused_after_runs :
      (event_key : Text) (secret : Option Text) (rows before : List Value) (row : Value)
      (rest : List Value)
      → find_automations_for_event repr event_key rows ≡ before ++ row ∷ rest
      → all (secret_fits repr (strip (or_empty secret))) before ≡ true
      → secret_fits repr (strip (or_empty secret)) row ≡ false
      → trigger_event repr queue event_key secret rows
        ≡ record { answer = refused (text "invalid_secret"); queued = before }
  unfolding trigger_event
  refused_after_runs event_key secret rows before row rest found h wrong =
      ap (run_found repr queue given) found
      ∙ (found_some before ∙ run_matches-until given [] [] before row rest h wrong)
    where
      given : Text
      given = strip (or_empty secret)

      found_some :
          (xs : List Value)
          → run_found repr queue given (xs ++ row ∷ rest)
            ≡ run_matches repr queue given [] [] (xs ++ row ∷ rest)
      found_some [] = refl
      found_some (x ∷ xs) = refl
