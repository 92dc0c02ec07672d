-- ===== src/Core/SessionStore/Tests.antt =====
-- The memory store on concrete sessions.
use koraku.Prelude.{text_equality, true, ℕ, ◌+◌, ◌≤◌, ◌≡◌, refl, none, some, [], ◌∷◌, length, ◌⊎◌}
use koraku.Prelude.Text.{Text, text, strip}
use koraku.Prelude.Dict
use koraku.Prelude.Dict.{Dict, IsUnique}
use koraku.Agent.Message.{message, user, plain}
use koraku.Core.SessionStore.{
  Session, Sessions, Owner, StoreSettings, prune, evict, drop_idle, create_session, resume_session,
  requested_id, save, get_or_create,
}
use koraku.Core.SessionStore.Bounds.{get_or_create_bounded}
use koraku.Core.SessionStore.Owners.{get_or_create_owned}

abbrev small : StoreSettings
small = record { session_ttl = 100; session_store_max = 2 }

abbrev alice : Owner
alice = record { sub = some (text "alice"); org_id = none }

abbrev session_of : Text → Owner → Session
session_of id owner = record {
  session_id = id;
  owner_sub = owner.sub;
  owner_org_id = owner.org_id;
  messages = message user (plain (text "hello")) ∷ [];
}

abbrev two : Sessions
two =
    (text "a", (10, session_of (text "a") alice))
    ∷ (text "b", (20, session_of (text "b") (record { sub = none; org_id = none })))
    ∷ []

two-IsUnique : IsUnique two
unfolding Dict.get
two-IsUnique = (refl, (refl, tt))

-- The session of another owner is dropped, and an empty one takes its id.
foreign_is_replaced :
    (get_or_create (λ s. true) small (text "u") 30 (some (text "b")) alice two).1.messages ≡ []
unfolding get_or_create prune evict drop_idle create_session resume_session save strip Dict.get
foreign_is_replaced = refl

get_or_create_bounded_example :
    let after : Sessions =
      (get_or_create (λ s. true) small (text "u") 30 (some (text "c")) alice two).0 in
    (length after ≤ 2 + 1) × IsUnique after
get_or_create_bounded_example =
    get_or_create_bounded (λ s. true) small (text "u") 30 (some (text "c")) alice two two-IsUnique

get_or_create_owned_example :
    let session : Session =
      (get_or_create (λ s. true) small (text "u") 30 (some (text "a")) alice two).1 in
    (session.owner_sub ≡ some (text "alice"))
    × (session.owner_org_id ≡ none)
    × ((session.messages ≡ [])
        ⊎ ((updated_at : ℕ) × (Dict.get
                (prune small 30 two)
                (requested_id (λ s. true) (some (text "a")))
              ≡ some (updated_at, session))))
get_or_create_owned_example =
    get_or_create_owned (λ s. true) small (text "u") 30 (some (text "a")) alice two
