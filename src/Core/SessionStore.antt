-- ===== src/Core/SessionStore.antt =====
-- koraku/core/session_store.py: `MemorySessionStore`, with `get_or_create` and `_create` of
-- `SessionStore`. Times are numbers of ticks. A row is a session
-- with its last change; one call reads the clock once.
pub mod Bounds
pub mod Owners
pub mod Tests
use koraku.Prelude.{
  Bool, true, false, not, ◌&&◌, ℕ, zero, suc, ◌+◌, Option, none, some, List, [], ◌∷◌, keep, take,
  ltb, leb, if◌then◌else◌, length, text_equality, ◌==◌,
}
use koraku.Prelude.Text.{Text, strip, is_empty, or_text, or_empty}
use koraku.Prelude.Dict
use koraku.Prelude.Dict.{Dict}
use koraku.Agent.Message.{AgentMessage}
use koraku.Core.TtlCache.{oldest}

pub record Session : Type 0 where
  pub session_id : Text
  pub owner_sub : Option Text
  pub owner_org_id : Option Text
  pub messages : List AgentMessage

-- Each session by its id, with its `updated_at`.
abbrev pub Sessions : Type 0
Sessions = Dict Text (ℕ × Session)

pub record Owner : Type 0 where
  pub sub : Option Text
  pub org_id : Option Text

-- `session_ttl_hours` in ticks, and `session_store_max`.
pub record StoreSettings : Type 0 where
  pub session_ttl : ℕ
  pub session_store_max : ℕ

abbrev pub option_beq : Option Text → Option Text → Bool
option_beq none none = true
option_beq (some a) (some b) = a == b
option_beq _ _ = false

abbrev pub is_owned_by : Session → Owner → Bool
is_owned_by session owner =
    option_beq session.owner_sub owner.sub && option_beq session.owner_org_id owner.org_id

abbrev pub get_session : Sessions → Text → Option Session
get_session sessions id = elim (Dict.get sessions id) [ none ↦ none | some (_, s) ↦ some s ]

unfoldable pub save : Sessions → Session → ℕ → Sessions
save sessions session now = Dict.put sessions session.session_id (now, session)

abbrev pub drop_oldest : Sessions → Sessions
drop_oldest sessions = elim (oldest sessions) [ none ↦ sessions | some k ↦ Dict.remove sessions k ]

-- `while len(self.sessions) > max_n`, on as much fuel as there are sessions.
unfoldable pub evict : ℕ → ℕ → Sessions → Sessions
evict zero max_n sessions = sessions
evict (suc fuel) max_n sessions =
    let fewer = evict fuel max_n (drop_oldest sessions) in
    elim (ltb max_n (length sessions)) [ true ↦ fewer | false ↦ sessions ]

-- The sessions that are not past their time.
unfoldable pub drop_idle : StoreSettings → ℕ → Sessions → Sessions
drop_idle settings now [] = []
drop_idle settings now ((sid, (updated_at, s)) ∷ rest) =
    let others = drop_idle settings now rest in
    elim (ltb (updated_at + settings.session_ttl) now) [
      | true ↦ others
      | false ↦ (sid, (updated_at, s)) ∷ others
    ]

unfoldable pub prune : StoreSettings → ℕ → Sessions → Sessions
prune settings now sessions =
    let live = drop_idle settings now sessions in
    evict (length live) settings.session_store_max live

-- `fresh` is the id that `uuid4` makes.
unfoldable pub create_session : Text → ℕ → Text → Owner → Sessions → Sessions × Session
create_session fresh now session_id owner sessions =
    let sid = or_text (take 255 (strip session_id)) fresh in
    let session : Session = record {
      session_id = sid;
      owner_sub = owner.sub;
      owner_org_id = owner.org_id;
      messages = [];
    } in
    (save sessions session now, session)

-- What becomes of the row that is found under the id.
unfoldable pub resume_session :
    StoreSettings → Text → ℕ → Text → Owner → Sessions → Option (ℕ × Session) → Sessions × Session
resume_session settings fresh now rs owner sessions none =
    create_session fresh now rs owner sessions
resume_session settings fresh now rs owner sessions (some (updated_at, existing)) =
    if is_owned_by existing owner && leb now (updated_at + settings.session_ttl)
    then (save sessions existing now, existing)
    else create_session fresh now rs owner (Dict.remove sessions rs)

-- `is_uuid` says that `uuid.UUID` takes the text.
abbrev pub requested_id : (Text → Bool) → Option Text → Text
requested_id is_uuid raw_session_id =
    let rs = take 255 (strip (or_empty raw_session_id)) in if is_uuid rs then rs else []

unfoldable pub get_or_create :
    (Text → Bool) → StoreSettings → Text → ℕ → Option Text → Owner → Sessions → Sessions × Session
get_or_create is_uuid settings fresh now raw_session_id owner sessions =
    let pruned = prune settings now sessions in
    let rs = requested_id is_uuid raw_session_id in
    if is_empty rs
    then create_session fresh now [] owner pruned
    else resume_session settings fresh now rs owner pruned (Dict.get pruned rs)
