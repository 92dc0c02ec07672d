-- ===== src/Core/SessionStore/Bounds.antt =====
-- How many sessions the memory store keeps.
use mathlib.Core.Path.{subst}
use koraku.Prelude.{
  refl, ap, sym, ◌∙◌, Bool, true, false, ◌&&◌, ℕ, zero, suc, ◌+◌, ◌≤◌, ◌<◌, ◌≡◌, Option, none, some,
  [], ◌∷◌, ltb, leb, ltb→lt, ltb-false→le, length, text_equality, arith, inl, inr, Bool-cases,
}
use koraku.Prelude.Text.{Text, is_empty}
use koraku.Prelude.Dict
use koraku.Prelude.Dict.{
  Dict, IsUnique, length-put-le, length-remove-le, length-remove-lt, put-IsUnique, remove-IsUnique,
}
use koraku.Core.TtlCache.{oldest}
use koraku.Core.TtlCache.Oldest.{oldest_least, oldest-ne_none}
use koraku.Core.SessionStore.{
  Session, Sessions, Owner, StoreSettings, is_owned_by, save, drop_oldest, evict, drop_idle, prune,
  create_session, resume_session, requested_id, get_or_create,
}

-- To prove what holds on both sides of a test, each with the outcome of the test.
by_test :
    {A : Type 0} (P : A → Type 0) {x y : A} (b : Bool)
    → (b ≡ true → P x)
    → (b ≡ false → P y)
    → P (elim b [ true ↦ x | false ↦ y ])
by_test P true h k = h refl
by_test P false h k = k refl

abbrev without : Sessions → Option Text → Sessions
without sessions none = sessions
without sessions (some k) = Dict.remove sessions k

drop_oldest-eq : (sessions : Sessions) → drop_oldest sessions ≡ without sessions (oldest sessions)
drop_oldest-eq sessions = by_oldest (oldest sessions)
  where
    by_oldest :
        (o : Option Text)
        → (elim o as (λ _. Sessions) [ none ↦ sessions | some k ↦ Dict.remove sessions k ])
          ≡ without sessions o
    by_oldest none = refl
    by_oldest (some k) = refl

drop_oldest-lt :
    (sessions : Sessions)
    → IsUnique sessions
    → 0 < length sessions
    → length (drop_oldest sessions) < length sessions
drop_oldest-lt sessions h some_left =
    let (k, e) = oldest-ne_none sessions some_left in
    let (m, v, found, _) = oldest_least sessions k h e in
    subst (λ d. length d < length sessions)
      (sym (drop_oldest-eq sessions ∙ ap (without sessions) e))
      (length-remove-lt sessions k (m, v) found)

drop_oldest-IsUnique : (sessions : Sessions) → IsUnique sessions → IsUnique (drop_oldest sessions)
drop_oldest-IsUnique sessions h =
    subst IsUnique (sym (drop_oldest-eq sessions)) (by_oldest (oldest sessions))
  where
    by_oldest : (o : Option Text) → IsUnique (without sessions o)
    by_oldest none = h
    by_oldest (some k) = remove-IsUnique sessions k h

-- The fuel of the eviction is enough.
evict-bounded :
    (fuel max_n : ℕ) (sessions : Sessions)
    → IsUnique sessions
    → length sessions ≤ max_n + fuel
    → (length (evict fuel max_n sessions) ≤ max_n) × IsUnique (evict fuel max_n sessions)
unfolding evict
evict-bounded zero max_n sessions h few = (omega (arith, few), h)
evict-bounded (suc fuel) max_n sessions h few =
    by_test {A = Sessions} (λ d. (length d ≤ max_n) × IsUnique d) (ltb max_n (length sessions))
      (λ many. evict-bounded fuel max_n (drop_oldest sessions) (drop_oldest-IsUnique sessions h) (
        omega (
          arith,
          few,
          drop_oldest-lt sessions h (omega (arith, ltb→lt max_n (length sessions) many)),
        )))
      (λ fits. (ltb-false→le max_n (length sessions) fits, h))

get-drop_idle-none :
    (settings : StoreSettings) (now : ℕ) (sessions : Sessions) (k : Text)
    → Dict.get sessions k ≡ none
    → Dict.get (drop_idle settings now sessions) k ≡ none
unfolding Dict.get drop_idle
get-drop_idle-none settings now [] k h = h
get-drop_idle-none settings now ((sid, (updated_at, s)) ∷ rest) k h =
    ground (arith, get-drop_idle-none settings now rest k, h)

drop_idle-IsUnique :
    (settings : StoreSettings) (now : ℕ) (sessions : Sessions)
    → IsUnique sessions
    → IsUnique (drop_idle settings now sessions)
unfolding drop_idle
drop_idle-IsUnique settings now [] h = h
drop_idle-IsUnique settings now ((sid, (updated_at, s)) ∷ rest) h =
    by_test {A = Sessions} (λ d. IsUnique d) (ltb (updated_at + settings.session_ttl) now)
      (λ idle. drop_idle-IsUnique settings now rest h.1)
      (λ live.
        (get-drop_idle-none settings now rest sid h.0, drop_idle-IsUnique settings now rest h.1))

pub prune-bounded :
    (settings : StoreSettings) (now : ℕ) (sessions : Sessions)
    → IsUnique sessions
    → (length (prune settings now sessions) ≤ settings.session_store_max)
      × IsUnique (prune settings now sessions)
unfolding prune
prune-bounded settings now sessions h =
    let live : Sessions = drop_idle settings now sessions in
    evict-bounded (length live) settings.session_store_max live
      (drop_idle-IsUnique settings now sessions h) (omega arith)

-- A store that has no id twice, whatever it holds, holds `session_store_max` sessions and one more
-- at most after any `get_or_create`, and again no id twice.
pub get_or_create_bounded :
    (is_uuid : Text → Bool) (settings : StoreSettings) (fresh : Text) (now : ℕ)
    (raw_session_id : Option Text) (owner : Owner) (sessions : Sessions)
    → IsUnique sessions
    → let after : Sessions =
        (get_or_create is_uuid settings fresh now raw_session_id owner sessions).0 in
      (length after ≤ settings.session_store_max + 1) × IsUnique after
unfolding get_or_create create_session resume_session save
get_or_create_bounded is_uuid settings fresh now raw_session_id owner sessions h =
    elim (Bool-cases (is_empty rs)) [
      | inl blank ↦ rw blank (
          saved pruned (create_session fresh now [] owner pruned).1
            (prune-bounded settings now sessions h))
      | inr asked ↦ rw asked (resumed (Dict.get pruned rs) (prune-bounded settings now sessions h))
    ]
  where
    pruned : Sessions
    pruned = prune settings now sessions

    rs : Text
    rs = requested_id is_uuid raw_session_id

    Small : Sessions → Type 0
    Small d = (length d ≤ settings.session_store_max + 1) × IsUnique d

    saved :
        (d : Sessions) (s : Session)
        → (length d ≤ settings.session_store_max) × IsUnique d
        → Small (save d s now)
    saved d s (few, unique) = (
      omega (arith, few, length-put-le d s.session_id (now, s)),
      put-IsUnique d s.session_id (now, s) unique,
    )

    resumed :
        (found : Option (ℕ × Session))
        → (length pruned ≤ settings.session_store_max) × IsUnique pruned
        → Small ((resume_session settings fresh now rs owner pruned found).0)
    resumed none small = saved pruned _ small
    resumed (some (updated_at, existing)) (few, unique) =
        elim (Bool-cases
          (is_owned_by existing owner && leb now (updated_at + settings.session_ttl))) [
            | inl same ↦ rw same (saved pruned existing (few, unique))
            | inr other ↦ rw other (
                saved (Dict.remove pruned rs) _ (
                  omega (arith, few, length-remove-le pruned rs),
                  remove-IsUnique pruned rs unique,
                ))
          ]
