-- ===== src/Core/TtlCache/Reads.antt =====
-- What a `get` returns after a `set`, and what a `set` in a full cache drops.
use koraku.Prelude.{
  refl, ℕ, ◌≤◌, ◌<◌, ◌≡◌, ◌≢◌, inl, inr, none, some, arith, length, false, Option-cases,
  text_equality, ==_refl, ◌+◌, ap, ◌∙◌, Bool-cases, le→leb, ◌==◌, ==_sym-false,
}
use koraku.Prelude.Text.{Text, strip, is_empty}
use koraku.Prelude.Dict
use koraku.Prelude.Dict.{
  Dict, IsUnique, get-put, get-remove, get-put_self, get-put_ne, get-remove_ne, length-put-le,
  length-remove-lt, length-put_there, length-remove_there, get-remove_self,
}
use koraku.Core.TtlCache.Oldest.{oldest_least, oldest-ne_none}
use koraku.Core.TtlCache.{TtlCache, is_stale, get, oldest, make_room, set}

module _ {A : Type 0} (cache : TtlCache A) (key : Text) where
  -- A read that finds a stale row drops it: no later read finds it, whatever its `ttl_seconds`.
  pub get-get_stale :
      (ttl_seconds now ttl' later : ℕ)
      → (get cache key ttl_seconds now).1 ≡ none
      → (get (get cache key ttl_seconds now).0 key ttl' later).1 ≡ none
  unfolding get is_stale
  get-get_stale ttl_seconds now ttl' later h =
      ground (arith, get-remove cache.rows (strip key) (strip key), ==_refl (strip key))

  -- While the cache is not full, to set one key changes no other.
  pub get-set_ne :
      (value : A) (other : Text) (ttl_seconds now later : ℕ)
      → length cache.rows < cache.max_size
      → strip key ≢ strip other
      → (get (set cache key value now) other ttl_seconds later).1
        ≡ (get cache other ttl_seconds later).1
  unfolding get set make_room
  get-set_ne value other ttl_seconds now later room apart = ground (
    arith,
    get-put cache.rows (strip key) (strip other) (now, value),
    text_equality.equal_iff (strip key) (strip other),
  )

  evicted-oldest :
      (value : A) (now : ℕ) (other : Text) (r : ℕ × A)
      → Dict.get cache.rows other ≡ some r
      → strip key ≢ other
      → Dict.get (set cache key value now).rows other ≡ none
      → (cache.max_size ≤ length cache.rows) × (oldest cache.rows ≡ some other)
  unfolding set make_room
  evicted-oldest value now other r there apart gone = elim (Option-cases (oldest cache.rows)) [
    | inl e ↦ ground (
      arith,
      e,
      get-put cache.rows (strip key) other (now, value),
      text_equality.equal_iff (strip key) other,
    )
    | inr (k, e) ↦ ground (
      arith,
      e,
      get-put cache.rows (strip key) other (now, value),
      get-put (Dict.remove cache.rows k) (strip key) other (now, value),
      get-remove cache.rows k other,
      text_equality.equal_iff (strip key) other,
      text_equality.equal_iff k other,
    )
  ]

  rows-set_full :
      (value : A) (now : ℕ) (k : Text)
      → is_empty (strip key) ≡ false
      → cache.max_size ≤ length cache.rows
      → oldest cache.rows ≡ some k
      → (set cache key value now).rows
        ≡ Dict.put (Dict.remove cache.rows k) (strip key) (now, value)
  unfolding set make_room
  rows-set_full value now k named full picked =
      rw (set, named, make_room, le→leb _ _ full, picked) refl

  -- A `set` of a key that is present in a full cache leaves one row fewer, unless the key's own row
  -- is the oldest: another row is gone, though the key needed no room. The rows hold no key twice.
  pub set_present_shrinks :
      (value : A) (now : ℕ) (r : ℕ × A)
      → is_empty (strip key) ≡ false
      → IsUnique cache.rows
      → cache.max_size ≤ length cache.rows
      → Dict.get cache.rows (strip key) ≡ some r
      → oldest cache.rows ≢ some (strip key)
      → (length (set cache key value now).rows + 1 ≡ length cache.rows)
        × ((other : Text) × (s : ℕ × A) × (Dict.get cache.rows other ≡ some s)
            × (Dict.get (set cache key value now).rows other ≡ none))
  set_present_shrinks value now r named unique full there not_oldest =
      let rows = cache.rows in
      let smaller = length-remove-lt rows (strip key) r there in
      let (k, picked) = oldest-ne_none rows (omega (arith, smaller)) in
      let (m, v, found, _) = oldest_least rows k unique picked in
      let apart : (k == strip key) ≡ false = elim (Bool-cases (k == strip key)) [
        | inl same ↦
            absurd (not_oldest (picked ∙ ap some ((text_equality.equal_iff k (strip key)).0 same)))
        | inr other ↦ other
      ] in
      let left = get-remove_ne rows k (strip key) apart ∙ there in
      let same_length = length-put_there (Dict.remove rows k) (strip key) (now, value) r left in
      let one_fewer = length-remove_there rows k (m, v) unique found in
      rw (rows-set_full value now k named full picked) (
        omega (arith, same_length, one_fewer),
        (
          k,
          (m, v),
          found,
          get-put_ne (Dict.remove rows k) (strip key) k (now, value)
                (==_sym-false k (strip key) apart)
              ∙ get-remove_self rows k,
        ),
      )

module _ {A : Type 0} (cache : TtlCache A) (key : Text) where
  get_hit :
      (ttl_seconds now : ℕ) (value : A)
      → (get cache key ttl_seconds now).1 ≡ some value
      → (get cache key ttl_seconds now).0 ≡ cache
  unfolding get
  get_hit ttl_seconds now value h = ground arith
