-- ===== src/Agent/Interactions/Tests.antt =====
-- An approval that is answered in time and whose run ends afterwards.
use koraku.Prelude.{true, false, ◌≡◌, refl, some, List, [], ◌∷◌, text_equality}
use koraku.Prelude.Text.{text}
use koraku.Prelude.Dict
use koraku.Prelude.Dict.{Dict}
use koraku.Prelude.Json.{bool}
use koraku.Agent.Interactions.{answered, Interactions, register_interaction, resolve, settle}
use koraku.Agent.Interactions.Settled.{Step, resolves, run_ends, wait_ends, steps, settled_forever}

abbrev none_yet : Interactions
none_yet = record { pending = []; futures = [] }

abbrev approved : Interactions
approved =
    (resolve
      (register_interaction (text "i") none_yet (text "approval") (some (text "r")) (bool true))
      (text "i") (bool true)).0

is_answered : Dict.get approved.futures (text "i") ≡ some (answered (bool true))
unfolding register_interaction resolve settle Dict.get Dict.put
is_answered = refl

abbrev later_steps : List Step
later_steps =
    resolves (text "i") (bool false)
    ∷ run_ends (text "r") (text "run_ended")
    ∷ wait_ends (text "i") true
    ∷ []

settled_forever_example :
    Dict.get (steps approved later_steps).futures (text "i") ≡ some (answered (bool true))
settled_forever_example =
    settled_forever (text "i") (answered (bool true)) approved later_steps is_answered refl
