-- ===== src/Agent/Interactions.antt =====
-- koraku/agent/pending_interactions.py: the questions and approvals that a run waits for. A future is
-- an object of its own, found by the id of its interaction; an id is made by `uuid4` and taken to be
-- new.
pub mod Settled
pub mod Tests
use koraku.Prelude.{
  Bool, true, false, not, ◌&&◌, ◌||◌, Option, none, some, List, [], ◌∷◌, if◌then◌else◌,
  text_equality, ◌==◌,
}
use koraku.Prelude.Text.{Text, text, is_empty}
use koraku.Prelude.Dict
use koraku.Prelude.Dict.{Dict}
use koraku.Prelude.Json.{Value}

pub record PendingEntry : Type 0 where
  pub kind : Text
  pub run_id : Option Text
  pub payload : Value

-- A future that has a result, or the exception of a timeout with its reason, is done.
pub data Future : Type 0 where
  waiting : Future
  answered : Value → Future
  failed : Text → Future

pub record Interactions : Type 0 where
  pub pending : Dict Text PendingEntry
  pub futures : Dict Text Future

abbrev pub is_waiting : Option Future → Bool
is_waiting (some waiting) = true
is_waiting _ = false

-- A future that is done keeps its result.
unfoldable pub settle : Dict Text Future → Text → Future → Dict Text Future
settle futures id outcome =
    if is_waiting (Dict.get futures id) then Dict.put futures id outcome else futures

unfoldable pub register_interaction :
    Text → Interactions → Text → Option Text → Value → Interactions
register_interaction new_id state kind run_id payload = record {
  pending =
      Dict.put state.pending new_id (record { kind = kind; run_id = run_id; payload = payload });
  futures = Dict.put state.futures new_id waiting;
}

abbrev pub was_open : Interactions → Text → Bool
was_open state id = elim (Dict.get state.pending id) [
  | none ↦ false
  | some _ ↦ is_waiting (Dict.get state.futures id)
]

-- What `resolve` and `cancel` do with the entry that they pop.
abbrev pub pop_and_settle : Interactions → Text → Future → Interactions
pop_and_settle state id outcome = record {
  pending = Dict.remove state.pending id;
  futures = if was_open state id then settle state.futures id outcome else state.futures;
}

-- It answers whether the body has reached the run.
unfoldable pub resolve : Interactions → Text → Value → Interactions × Bool
resolve state id body = (pop_and_settle state id (answered body), was_open state id)

unfoldable pub cancel : Interactions → Text → Text → Interactions
cancel state id reason = pop_and_settle state id (failed reason)

abbrev pub is_of_run : Text → PendingEntry → Bool
is_of_run run_id entry = elim entry.run_id [ some r ↦ r == run_id | none ↦ false ]

abbrev pub ids_of_run : Text → Dict Text PendingEntry → List Text
ids_of_run run_id [] = []
ids_of_run run_id ((id, entry) ∷ rest) =
    let others = ids_of_run run_id rest in
    elim (is_of_run run_id entry) [ true ↦ id ∷ others | false ↦ others ]

abbrev pub cancel_all : Interactions → List Text → Text → Interactions
cancel_all state [] reason = state
cancel_all state (id ∷ ids) reason = cancel_all (pop_and_settle state id (failed reason)) ids reason

unfoldable pub cancel_run : Interactions → Text → Text → Interactions
cancel_run state run_id reason =
    if is_empty run_id then state else cancel_all state (ids_of_run run_id state.pending) reason

-- The wait is over: on a timeout it cancels, and in any case it drops the entry.
unfoldable pub end_wait : Interactions → Text → Bool → Interactions
end_wait state id timed_out =
    let ended = if timed_out then pop_and_settle state id (failed (text "timeout")) else state in
    record ended { pending = Dict.remove ended.pending id }
