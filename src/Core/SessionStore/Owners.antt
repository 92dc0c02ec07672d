-- ===== src/Core/SessionStore/Owners.antt =====
-- Whose sessions a caller gets.
use koraku.Prelude.{
  Bool, true, false, ◌&&◌, ℕ, ◌+◌, ◌≡◌, refl, ap, Option, none, some, [], leb, text_equality, arith,
  ◌⊎◌, inl, inr, Bool-cases,
}
use koraku.Prelude.Text.{Text, is_empty}
use koraku.Prelude.Dict
use koraku.Prelude.Dict.{Dict}
use koraku.Core.SessionStore.{
  Session, Sessions, Owner, StoreSettings, option_beq, is_owned_by, prune, create_session,
  resume_session, requested_id, get_or_create,
}

option_beq→eq : (a b : Option Text) → option_beq a b ≡ true → a ≡ b
option_beq→eq none none h = refl
option_beq→eq none (some b) h = absurd (ground arith)
option_beq→eq (some a) none h = absurd (ground arith)
option_beq→eq (some a) (some b) h = ap some ((text_equality.equal_iff a b).0 h)

and_true : (a b : Bool) → (a && b) ≡ true → (a ≡ true) × (b ≡ true)
and_true true b h = (refl, h)
and_true false b h = absurd (ground arith)

-- The session that `get_or_create` returns belongs to the caller; it is empty, or else it is the
-- session that the pruned store holds under the requested id.
pub get_or_create_owned :
    (is_uuid : Text → Bool) (settings : StoreSettings) (fresh : Text) (now : ℕ)
    (raw_session_id : Option Text) (owner : Owner) (sessions : Sessions)
    → let session : Session =
        (get_or_create is_uuid settings fresh now raw_session_id owner sessions).1 in
      (session.owner_sub ≡ owner.sub)
      × (session.owner_org_id ≡ owner.org_id)
      × ((session.messages ≡ [])
          ⊎ ((updated_at : ℕ) × (Dict.get
                  (prune settings now sessions)
                  (requested_id is_uuid raw_session_id)
                ≡ some (updated_at, session))))
unfolding get_or_create create_session resume_session
get_or_create_owned is_uuid settings fresh now raw_session_id owner sessions =
    elim (Bool-cases (is_empty rs)) [
      | inl blank ↦ rw blank (refl, refl, inl refl)
      | inr asked ↦ rw asked (resumed (Dict.get pruned rs) refl)
    ]
  where
    pruned : Sessions
    pruned = prune settings now sessions

    rs : Text
    rs = requested_id is_uuid raw_session_id

    Owned : Option (ℕ × Session) → Session → Type 0
    Owned found session =
        (session.owner_sub ≡ owner.sub)
        × (session.owner_org_id ≡ owner.org_id)
        × ((session.messages ≡ []) ⊎ ((updated_at : ℕ) × (found ≡ some (updated_at, session))))

    resumed :
        (found : Option (ℕ × Session))
        → Dict.get pruned rs ≡ found
        → Owned (Dict.get pruned rs) ((resume_session settings fresh now rs owner pruned found).1)
    resumed none e = (refl, refl, inl refl)
    resumed (some (updated_at, existing)) e =
        elim (Bool-cases
          (is_owned_by existing owner && leb now (updated_at + settings.session_ttl))) [
            | inl same ↦
                let owned : is_owned_by existing owner ≡ true =
                  (and_true (is_owned_by existing owner) _ same).0 in
                let (sub, org) =
                  and_true (option_beq existing.owner_sub owner.sub)
                    (option_beq existing.owner_org_id owner.org_id) owned in
                rw same (option_beq→eq _ _ sub, option_beq→eq _ _ org, inr (updated_at, e))
            | inr other ↦ rw other (refl, refl, inl refl)
          ]
