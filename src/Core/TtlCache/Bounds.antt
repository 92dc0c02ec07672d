-- ===== src/Core/TtlCache/Bounds.antt =====
-- The invariant of a cache, over every sequence of calls.
use koraku.Prelude.{
  ℕ, ◌≤◌, ◌<◌, ◌≡◌, inl, inr, List, [], ◌∷◌, arith, leb, length, Bool-cases, Option-cases, ◌∙◌,
  refl, text_equality, max, leb→le,
}
use koraku.Prelude.Text.{Text, strip, is_empty}
use koraku.Prelude.Dict
use koraku.Prelude.Dict.{
  Dict, IsUnique, length-put-le, length-remove-le, length-remove-lt, put-IsUnique, remove-IsUnique,
}
use koraku.Core.TtlCache
use koraku.Core.TtlCache.{TtlCache, init, is_stale, oldest, make_room}
use koraku.Core.TtlCache.Oldest.{oldest_least, oldest-ne_none}

pub data Call (A : Type 0) : Type 0 where
  get : Text → ℕ → ℕ → Call A
  set : Text → A → ℕ → Call A
  invalidate : Text → Call A
  clear : Call A

pub record IsValid {A : Type 0} (cache : TtlCache A) : Type 0 where
  pub room : 16 ≤ cache.max_size
  pub bounded : length cache.rows ≤ cache.max_size
  pub unique : IsUnique cache.rows

max_size-init : (A : Type 0) (max_size : ℕ) → (init {A = A} max_size).max_size ≡ max 16 max_size
unfolding init
max_size-init A max_size = refl

module _ {A : Type 0} where
  pub step : TtlCache A → Call A → TtlCache A
  step cache (get key ttl_seconds now) = (TtlCache.get cache key ttl_seconds now).0
  step cache (set key value now) = TtlCache.set cache key value now
  step cache (invalidate key) = TtlCache.invalidate cache key
  step cache clear = TtlCache.clear cache

  pub run : TtlCache A → List (Call A) → TtlCache A
  run cache [] = cache
  run cache (call ∷ calls) = run (step cache call) calls

  pub make_room-lt :
      (cache : TtlCache A) → IsValid cache → length (make_room cache) < cache.max_size
  unfolding make_room
  make_room-lt cache h = elim (Bool-cases (leb cache.max_size (length cache.rows))) [
    | inl full ↦
        let positive : 0 < length cache.rows = omega (arith, leb→le _ _ full, h.room) in
        let (k, e) = oldest-ne_none cache.rows positive in
        let (m, v, found, _) = oldest_least cache.rows k h.unique e in
        ground (arith, full, e, h.bounded, length-remove-lt cache.rows k (m, v) found)
    | inr free ↦ ground arith
  ]

  make_room-IsUnique : (cache : TtlCache A) → IsUnique cache.rows → IsUnique (make_room cache)
  unfolding make_room
  make_room-IsUnique cache h = elim (Bool-cases (leb cache.max_size (length cache.rows))) [
    | inl full ↦ elim (Option-cases (oldest cache.rows)) [
      | inl e ↦ rw (full, e) h
      | inr (k, e) ↦ rw (full, e) (remove-IsUnique cache.rows k h)
    ]
    | inr free ↦ rw free h
  ]

  remove-IsValid :
      (cache : TtlCache A) (k : Text)
      → IsValid cache
      → IsValid (record cache { rows = Dict.remove cache.rows k })
  remove-IsValid cache k h = record {
    room = h.room;
    bounded = omega (arith, h.bounded, length-remove-le cache.rows k);
    unique = remove-IsUnique cache.rows k h.unique;
  }

  get-IsValid :
      (cache : TtlCache A) (key : Text) (ttl_seconds now : ℕ)
      → IsValid cache
      → IsValid (TtlCache.get cache key ttl_seconds now).0
  unfolding TtlCache.get
  get-IsValid cache key ttl_seconds now h = ground (arith, remove-IsValid cache (strip key) h)

  set-IsValid :
      (cache : TtlCache A) (key : Text) (value : A) (now : ℕ)
      → IsValid cache
      → IsValid (TtlCache.set cache key value now)
  unfolding TtlCache.set
  set-IsValid cache key value now h = elim (Bool-cases (is_empty (strip key))) [
    | inl blank ↦ rw blank h
    | inr named ↦ rw named (record {
      room = h.room;
      bounded =
          omega
            (arith, make_room-lt cache h, length-put-le (make_room cache) (strip key) (now, value));
      unique =
          put-IsUnique (make_room cache) (strip key) (now, value)
            (make_room-IsUnique cache h.unique);
    })
  ]

  step-IsValid : (cache : TtlCache A) (call : Call A) → IsValid cache → IsValid (step cache call)
  unfolding step TtlCache.invalidate TtlCache.clear
  step-IsValid cache (get key ttl_seconds now) h = get-IsValid cache key ttl_seconds now h
  step-IsValid cache (set key value now) h = set-IsValid cache key value now h
  step-IsValid cache (invalidate key) h = ground (arith, remove-IsValid cache (strip key) h)
  step-IsValid cache clear h = record { room = h.room; bounded = omega arith; unique = tt }

  run-IsValid :
      (cache : TtlCache A) (calls : List (Call A)) → IsValid cache → IsValid (run cache calls)
  unfolding run
  run-IsValid cache [] h = h
  run-IsValid cache (call ∷ calls) h =
      run-IsValid (step cache call) calls (step-IsValid cache call h)

  pub init-IsValid : (max_size : ℕ) → IsValid (init {A = A} max_size)
  unfolding init
  init-IsValid max_size = record { room = omega arith; bounded = omega arith; unique = tt }

  max_size-step : (cache : TtlCache A) (call : Call A) → (step cache call).max_size ≡ cache.max_size
  unfolding step TtlCache.get TtlCache.set TtlCache.invalidate TtlCache.clear
  max_size-step cache (get key ttl_seconds now) = ground arith
  max_size-step cache (set key value now) = ground arith
  max_size-step cache (invalidate key) = ground arith
  max_size-step cache clear = refl

  max_size-run :
      (cache : TtlCache A) (calls : List (Call A)) → (run cache calls).max_size ≡ cache.max_size
  unfolding run
  max_size-run cache [] = refl
  max_size-run cache (call ∷ calls) =
      max_size-run (step cache call) calls ∙ max_size-step cache call

  -- Whatever calls are made on a new cache, it holds at most `max(16, max_size)` rows, and no key
  -- twice.
  pub run_bounded :
      (max_size : ℕ) (calls : List (Call A))
      → (length (run (init max_size) calls).rows ≤ max 16 max_size)
        × IsUnique (run (init max_size) calls).rows
  run_bounded max_size calls =
      let h = run-IsValid (init max_size) calls (init-IsValid max_size) in
      (
        omega (arith, h.bounded, max_size-run (init max_size) calls, max_size-init A max_size),
        h.unique,
      )
