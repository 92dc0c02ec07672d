-- ===== src/Core/TtlCache.antt =====
-- koraku/core/ttl_cache.py: `TtlCache` and `cache_get_or_set`. A reading of the monotonic clock and
-- a span of seconds are numbers of ticks; a method takes the reading that it makes as `now`.
pub mod Bounds
pub mod Oldest
pub mod Reads
pub mod Tests
use koraku.Prelude.{
  Bool, ℕ, ◌+◌, Option, none, some, List, [], ◌∷◌, leb, ltb, if◌then◌else◌, max, length,
  text_equality,
}
use koraku.Prelude.Text.{Text, strip, is_empty}
use koraku.Prelude.Dict
use koraku.Prelude.Dict.{Dict}

pub record TtlCache (A : Type 0) : Type 0 where
  pub rows : Dict Text (ℕ × A)
  pub max_size : ℕ

-- A row is stale when `now - ts >= ttl_seconds`.
pub is_stale : ℕ → ℕ → ℕ → Bool
is_stale ts ttl_seconds now = leb (ts + ttl_seconds) now

module _ {A : Type 0} where
  pub init : ℕ → TtlCache A
  init max_size = record { rows = []; max_size = max 16 max_size }

  pub get : TtlCache A → Text → ℕ → ℕ → TtlCache A × Option A
  unfolding is_stale
  get cache key ttl_seconds now =
      let k = strip key in
      if is_empty k then (cache, none) else elim (Dict.get cache.rows k) [
        | none ↦ (cache, none)
        | some (ts, value) ↦
            if is_stale ts ttl_seconds now
            then (record cache { rows = Dict.remove cache.rows k }, none)
            else (cache, some value)
      ]

  -- `min(items, key=...)`: the first of the rows with the least time stamp, after the row (k, ts).
  pub oldest_from : Text → ℕ → Dict Text (ℕ × A) → Text
  oldest_from k ts [] = k
  oldest_from k ts ((j, (tj, _)) ∷ rows) =
      oldest_from (if ltb tj ts then j else k) (if ltb tj ts then tj else ts) rows

  pub oldest : Dict Text (ℕ × A) → Option Text
  oldest [] = none
  oldest ((k, (ts, _)) ∷ rows) = some (oldest_from k ts rows)

  -- The rows once `set` has made room. (`min` of no rows would raise; `max_size` is at least 16.)
  pub make_room : TtlCache A → Dict Text (ℕ × A)
  make_room cache =
      if leb cache.max_size (length cache.rows)
      then (elim (oldest cache.rows) [ none ↦ cache.rows | some k ↦ Dict.remove cache.rows k ])
      else cache.rows

  pub set : TtlCache A → Text → A → ℕ → TtlCache A
  set cache key value now =
      let k = strip key in
      if is_empty k
      then cache
      else record cache { rows = Dict.put (make_room cache) k (now, value) }

  pub invalidate : TtlCache A → Text → TtlCache A
  invalidate cache key =
      let k = strip key in
      if is_empty k then cache else record cache { rows = Dict.remove cache.rows k }

  pub clear : TtlCache A → TtlCache A
  clear cache = record cache { rows = [] }

  -- The loader is a parameter; it is called when the cache has no fresh value.
  pub cache_get_or_set : TtlCache A → Text → ℕ → (Unit {0} → A) → ℕ → TtlCache A × A
  cache_get_or_set cache key ttl_seconds loader now =
      let (cache', hit) = get cache key ttl_seconds now in
      elim hit [
        | some value ↦ (cache', value)
        | none ↦ let value = loader tt in (set cache' key value now, value)
      ]
