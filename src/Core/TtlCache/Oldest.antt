-- ===== src/Core/TtlCache/Oldest.antt =====
-- The row that `set` evicts: a key of the rows, whose time stamp is the least.
use koraku.Prelude.{
  ℕ, ◌≤◌, ◌<◌, ◌≡◌, refl, ◌⊎◌, inl, inr, none, some, [], ◌∷◌, arith, ltb, length, Bool-cases,
  text_equality, true, false,
}
use koraku.Prelude.Text.{Text}
use koraku.Prelude.Dict
use koraku.Prelude.Dict.{Dict, IsUnique}
use koraku.Core.TtlCache.{oldest_from, oldest}

-- `key` is the key of a row with the least time stamp, `m`, among (k, ts) and the rows.
record IsLeast {A : Type 0} (key k : Text) (ts : ℕ) (rows : Dict Text (ℕ × A)) (m : ℕ)
    : Type 0 where
  place : ((key ≡ k) × (m ≡ ts)) ⊎ ((value : A) × (Dict.get rows key ≡ some (m, value)))
  below : m ≤ ts
  least : (i : Text) (r : ℕ × A) → Dict.get rows i ≡ some r → m ≤ r.0

module _ {A : Type 0} (key k : Text) (ts : ℕ) (j : Text) (tj : ℕ) (w : A)
    (rows : Dict Text (ℕ × A)) where
  least-cons :
      (m : ℕ)
      → m ≤ tj
      → ((i : Text) (r : ℕ × A) → Dict.get rows i ≡ some r → m ≤ r.0)
      → (i : Text) (r : ℕ × A) → Dict.get ((j, (tj, w)) ∷ rows) i ≡ some r
      → m ≤ r.0
  least-cons m h all i r g = ground (arith, Dict.get-cons j i (tj, w) rows, all i r)

  -- The row (j, tj) has taken the place of (k, ts).
  newer-IsLeast :
      {m : ℕ}
      → ltb tj ts ≡ true
      → Dict.get rows j ≡ none
      → IsLeast key j tj rows m
      → IsLeast key k ts ((j, (tj, w)) ∷ rows) m
  newer-IsLeast {m} lower absent h = record {
    place = elim h.place [
      | inl (e, f) ↦
          inr (w, ground (arith, Dict.get-cons j key (tj, w) rows, text_equality.equal_iff j key))
      | inr (v, g) ↦
          inr
            (v, ground (arith, Dict.get-cons j key (tj, w) rows, Dict.==_of_get rows j key (m, v)))
    ];
    below = ground (arith, h.below);
    least = least-cons m h.below h.least;
  }

  -- (k, ts) stays.
  older-IsLeast :
      {m : ℕ}
      → ltb tj ts ≡ false
      → Dict.get rows j ≡ none
      → IsLeast key k ts rows m
      → IsLeast key k ts ((j, (tj, w)) ∷ rows) m
  older-IsLeast {m} same absent h = record {
    place = elim h.place [
      | inl e ↦ inl e
      | inr (v, g) ↦
          inr
            (v, ground (arith, Dict.get-cons j key (tj, w) rows, Dict.==_of_get rows j key (m, v)))
    ];
    below = h.below;
    least = least-cons m (ground (arith, h.below)) h.least;
  }

module _ {A : Type 0} where
  oldest_from-IsLeast :
      (k : Text) (ts : ℕ) (rows : Dict Text (ℕ × A))
      → IsUnique rows
      → (m : ℕ) × IsLeast (oldest_from k ts rows) k ts rows m
  unfolding oldest_from
  oldest_from-IsLeast k ts [] h = (
    ts,
    record {
      place = inl (refl, refl);
      below = omega arith;
      least = λ j r g. unfold Dict.get in absurd (ground arith);
    },
  )
  oldest_from-IsLeast k ts ((j, (tj, w)) ∷ rows) h = elim (Bool-cases (ltb tj ts)) [
    | inl lower ↦
        let (m, least) = oldest_from-IsLeast j tj rows h.1 in
        rw lower (m, newer-IsLeast _ k ts j tj w rows lower h.0 least)
    | inr same ↦
        let (m, least) = oldest_from-IsLeast k ts rows h.1 in
        rw same (m, older-IsLeast _ k ts j tj w rows same h.0 least)
  ]

  -- The row that `min` picks is there, and no row of the cache is older.
  pub oldest_least :
      (rows : Dict Text (ℕ × A)) (k : Text)
      → IsUnique rows
      → oldest rows ≡ some k
      → (m : ℕ) × (v : A) × (Dict.get rows k ≡ some (m, v))
        × ((i : Text) (r : ℕ × A) → Dict.get rows i ≡ some r → m ≤ r.0)
  unfolding oldest
  oldest_least [] k h e = absurd (ground arith)
  oldest_least ((j, (tj, w)) ∷ rows) k h e =
      let (m, least) = oldest_from-IsLeast j tj rows h.1 in
      let bound : (i : Text) (r : ℕ × A) → Dict.get ((j, (tj, w)) ∷ rows) i ≡ some r → m ≤ r.0 =
        least-cons k j tj j tj w rows m least.below least.least in
      elim least.place [
        | inl (p, q) ↦ (
          m,
          w,
          ground (arith, p, q, Dict.get-cons j k (tj, w) rows, text_equality.equal_iff j k),
          bound,
        )
        | inr (v, g) ↦ (
          m,
          v,
          ground (arith, g, h.0, Dict.get-cons j k (tj, w) rows, text_equality.equal_iff j k),
          bound,
        )
      ]

  pub oldest-ne_none :
      (rows : Dict Text (ℕ × A)) → 0 < length rows → (k : Text) × (oldest rows ≡ some k)
  unfolding oldest
  oldest-ne_none [] h = absurd (omega arith)
  oldest-ne_none ((k, (ts, _)) ∷ rows) h = (oldest_from k ts rows, refl)
