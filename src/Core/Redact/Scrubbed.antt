-- ===== src/Core/Redact/Scrubbed.antt =====
-- No value under a sensitive key is left, at any depth, and what is left is not deep.
use koraku.Prelude.{
  ℕ, zero, suc, ◌+◌, ◌-◌, ◌≤◌, ◌≡◌, refl, Bool, true, false, ◌&&◌, if◌then◌else◌, max, some,
  contains, ltb, text_equality, arith, Bool-cases, inl, inr,
}
use koraku.Prelude.Text.{Text, lower}
use koraku.Prelude.Json.{
  Value, null, bool, num, str, arr, obj, Items, nil, cons, Fields, end, field, is_text,
}
use koraku.Core.Redact.{
  placeholder, sensitive_key, Pattern, redact_secrets, unless_deep, redact_mapping, redact_items,
  redact_fields,
}

-- Every value under a sensitive key is the placeholder.
unfoldable mutual
  pub is_scrubbed : Value → Bool
  is_scrubbed (arr vs) = items_scrubbed vs
  is_scrubbed (obj fs) = fields_scrubbed fs
  is_scrubbed _ = true

  pub items_scrubbed : Items → Bool
  items_scrubbed nil = true
  items_scrubbed (cons v vs) = is_scrubbed v && items_scrubbed vs

  pub fields_scrubbed : Fields → Bool
  fields_scrubbed end = true
  fields_scrubbed (field k v fs) =
      let below = is_scrubbed v in
      let later = fields_scrubbed fs in
      (if contains sensitive_key (lower k) then is_text (some v) placeholder else below) && later

-- How deep lists and dicts are nested.
unfoldable mutual
  pub height : Value → ℕ
  height (arr vs) = suc (items_height vs)
  height (obj fs) = suc (fields_height fs)
  height _ = 0

  pub items_height : Items → ℕ
  items_height nil = 0
  items_height (cons v vs) = max (height v) (items_height vs)

  pub fields_height : Fields → ℕ
  fields_height end = 0
  fields_height (field k v fs) = max (height v) (fields_height fs)

module _ (sub : Pattern → Text → Text → Text) (max_depth : ℕ) where
  mutual
    unfolding is_scrubbed redact_mapping

    scrubs : (depth : ℕ) (v : Value) → is_scrubbed (redact_mapping sub max_depth depth v) ≡ true
    scrubs depth null = ground arith
    scrubs depth (bool b) = ground arith
    scrubs depth (num n) = ground arith
    scrubs depth (str s) = ground arith
    scrubs depth (arr vs) = ground (arith, scrubs_items (depth + 1) 200 vs)
    scrubs depth (obj fs) = ground (arith, scrubs_fields (depth + 1) 200 fs)

    scrubs_items :
        (depth n : ℕ) (vs : Items) → items_scrubbed (redact_items sub max_depth depth n vs) ≡ true
    scrubs_items depth n nil = refl
    scrubs_items depth zero (cons v vs) = refl
    scrubs_items depth (suc n) (cons v vs) = ground (arith, scrubs depth v, scrubs_items depth n vs)

    scrubs_fields :
        (depth n : ℕ) (fs : Fields)
        → fields_scrubbed (redact_fields sub max_depth depth n fs) ≡ true
    scrubs_fields depth n end = refl
    scrubs_fields depth zero (field k v fs) = refl
    scrubs_fields depth (suc n) (field k v fs) =
        let here = scrubs depth v in
        let later = scrubs_fields depth n fs in
        elim (Bool-cases (contains sensitive_key (lower k))) [
          | inl secret ↦ rw secret later
          | inr plain ↦ rw plain (ground (arith, here, later))
        ]

  one_more :
      (depth n : ℕ)
      → ltb max_depth depth ≡ false
      → n ≤ max_depth + 1 - (depth + 1)
      → suc n ≤ max_depth + 1 - depth
  one_more depth n reached h = ground (arith, reached, h)

  height-unless_deep :
      (depth : ℕ) (v : Value)
      → (ltb max_depth depth ≡ false → height v ≤ max_depth + 1 - depth)
      → height (unless_deep sub max_depth depth v) ≤ max_depth + 1 - depth
  unfolding height
  height-unless_deep depth v h = elim (Bool-cases (ltb max_depth depth)) [
    | inl deep ↦ rw (unless_deep, deep) (omega arith)
    | inr reached ↦ rw (unless_deep, reached) (h reached)
  ]

  mutual
    unfolding height redact_mapping

    shallow :
        (depth : ℕ) (v : Value)
        → height (redact_mapping sub max_depth depth v) ≤ max_depth + 1 - depth
    shallow depth null = height-unless_deep depth null (λ _. omega arith)
    shallow depth (bool b) = height-unless_deep depth (bool b) (λ _. omega arith)
    shallow depth (num n) = height-unless_deep depth (num n) (λ _. omega arith)
    shallow depth (str s) = height-unless_deep depth (str (redact_secrets sub s)) (λ _. omega arith)
    shallow depth (arr vs) =
        height-unless_deep depth (arr (redact_items sub max_depth (depth + 1) 200 vs))
          (λ reached. one_more depth _ reached (shallow_items (depth + 1) 200 vs))
    shallow depth (obj fs) =
        height-unless_deep depth (obj (redact_fields sub max_depth (depth + 1) 200 fs))
          (λ reached. one_more depth _ reached (shallow_fields (depth + 1) 200 fs))

    shallow_items :
        (depth n : ℕ) (vs : Items)
        → items_height (redact_items sub max_depth depth n vs) ≤ max_depth + 1 - depth
    shallow_items depth n nil = omega arith
    shallow_items depth zero (cons v vs) = omega arith
    shallow_items depth (suc n) (cons v vs) =
        ground (arith, shallow depth v, shallow_items depth n vs)

    shallow_fields :
        (depth n : ℕ) (fs : Fields)
        → fields_height (redact_fields sub max_depth depth n fs) ≤ max_depth + 1 - depth
    shallow_fields depth n end = omega arith
    shallow_fields depth zero (field k v fs) = omega arith
    shallow_fields depth (suc n) (field k v fs) =
        let here = shallow depth v in
        let later = shallow_fields depth n fs in
        elim (Bool-cases (contains sensitive_key (lower k))) [
          | inl secret ↦ rw secret (ground (arith, later))
          | inr plain ↦ rw plain (ground (arith, here, later))
        ]

  -- Whatever the regular expressions do, what `redact_mapping` makes of a value has the placeholder
  -- under every sensitive key, at any depth, and lists and dicts stand in it no deeper than one more
  -- than `max_depth`.
  pub redact_mapping_scrubs :
      (v : Value)
      → (is_scrubbed (redact_mapping sub max_depth 0 v) ≡ true)
        × (height (redact_mapping sub max_depth 0 v) ≤ max_depth + 1)
  redact_mapping_scrubs v = let low = shallow 0 v in (scrubs 0 v, omega (arith, low))
