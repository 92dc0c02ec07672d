-- ===== src/Prelude/Dict.antt =====
-- Python's `dict` as an association list in insertion order: a new key goes to the end, a key that
-- is there keeps its place. Keys are compared by `==`.
use mathlib.Core.Path.{◌≡◌, refl, ◌∙◌, subst}
use mathlib.Core.List.{List, [], ◌∷◌, map}
use mathlib.Core.Option.{Option, none, some}
use Prim.Native.Nat.{◌+◌, ◌≤◌, ◌<◌}
use native.Mathlib.Omega.{arith}
use koraku.Prelude.Tests.{if◌then◌else◌, Bool-cases}
use mathlib.Core.Logic.{inl, inr}
use mathlib.Core.Bool.{false}
use koraku.Prelude.Lists.{length}
use koraku.Prelude.Eq.{Equality, ◌==◌, ==_sym-false}

abbrev pub Dict {ℓ κ} : Type ℓ → Type κ → Type (ℓ ⊔ κ)
Dict K V = List (K × V)

module _ {ℓ κ} {K : Type ℓ} {V : Type κ} ⦃e : Equality K⦄ where
  -- d.get(k)
  unfoldable pub get : Dict K V → K → Option V
  get [] k = none
  get ((j, v) ∷ d) k = if j == k then some v else get d k

  -- d[k] = v
  unfoldable pub put : Dict K V → K → V → Dict K V
  put [] k v = (k, v) ∷ []
  put ((j, w) ∷ d) k v = if j == k then (j, v) ∷ d else (j, w) ∷ put d k v

  -- d.pop(k, None)
  unfoldable pub remove : Dict K V → K → Dict K V
  remove [] k = []
  remove ((j, v) ∷ d) k = let rest = remove d k in if j == k then rest else (j, v) ∷ rest

  abbrev pub keys : Dict K V → List K
  keys = map (λ entry. entry.0)

  pub get-cons :
      (j k : K) (v : V) (d : Dict K V) → get ((j, v) ∷ d) k ≡ (if j == k then some v else get d k)
  unfolding get
  get-cons j k v d = refl

  -- A key that is there is not one that is missing.
  pub ==_of_get :
      (d : Dict K V) (k j : K) (v : V) → get d k ≡ none → get d j ≡ some v → (k == j) ≡ false
  ==_of_get d k j v h g = ground (arith, e.equal_iff k j)

  pub get-put :
      (d : Dict K V) (k j : K) (v : V) → get (put d k v) j ≡ (if k == j then some v else get d j)
  unfolding get put
  get-put [] k j v = refl
  get-put ((i, w) ∷ d) k j v =
      ground (arith, e.equal_iff k j, e.equal_iff i k, e.equal_iff i j, get-put d k j v)

  pub get-remove :
      (d : Dict K V) (k j : K) → get (remove d k) j ≡ (if k == j then none else get d j)
  unfolding get remove
  get-remove [] k j = ground arith
  get-remove ((i, w) ∷ d) k j =
      ground (arith, e.equal_iff k j, e.equal_iff i k, e.equal_iff i j, get-remove d k j)

  pub length-put-le : (d : Dict K V) (k : K) (v : V) → length (put d k v) ≤ length d + 1
  unfolding put
  length-put-le [] k v = omega arith
  length-put-le ((i, w) ∷ d) k v = ground (arith, length-put-le d k v)

  pub length-remove-le : (d : Dict K V) (k : K) → length (remove d k) ≤ length d
  unfolding remove
  length-remove-le [] k = omega arith
  length-remove-le ((i, w) ∷ d) k = ground (arith, length-remove-le d k)

  -- To drop a key that is there makes the dictionary smaller.
  pub length-remove-lt :
      (d : Dict K V) (k : K) (v : V) → get d k ≡ some v → length (remove d k) < length d
  unfolding get remove
  length-remove-lt [] k v h = absurd (ground arith)
  length-remove-lt ((i, w) ∷ d) k v h = ground (arith, length-remove-lt d k v, length-remove-le d k)

  -- No key stands twice.
  abbrev pub IsUnique : Dict K V → Type κ
  IsUnique [] = Unit
  IsUnique ((k, v) ∷ d) = (get d k ≡ none) × IsUnique d

  pub get-put_self : (d : Dict K V) (k : K) (v : V) → get (put d k v) k ≡ some v
  get-put_self d k v = ground (arith, get-put d k k v, e.equal_iff k k)

  pub get-put_ne : (d : Dict K V) (k j : K) (v : V) → (k == j) ≡ false → get (put d k v) j ≡ get d j
  get-put_ne d k j v h = rw (get-put, h)

  pub get-remove_self : (d : Dict K V) (k : K) → get (remove d k) k ≡ none
  get-remove_self d k = ground (arith, get-remove d k k, e.equal_iff k k)

  pub get-remove_ne : (d : Dict K V) (k j : K) → (k == j) ≡ false → get (remove d k) j ≡ get d j
  get-remove_ne d k j h = rw (get-remove, h)

  pub put-IsUnique : (d : Dict K V) (k : K) (v : V) → IsUnique d → IsUnique (put d k v)
  unfolding put
  put-IsUnique [] k v h = (unfold get in refl, tt)
  put-IsUnique ((i, w) ∷ d) k v h = elim (Bool-cases (i == k)) [
    | inl same ↦ rw same h
    | inr other ↦
        rw other (get-put_ne d k i v (==_sym-false i k other) ∙ h.0, put-IsUnique d k v h.1)
  ]

  pub remove-IsUnique : (d : Dict K V) (k : K) → IsUnique d → IsUnique (remove d k)
  unfolding remove
  remove-IsUnique [] k h = tt
  remove-IsUnique ((i, w) ∷ d) k h = elim (Bool-cases (i == k)) [
    | inl same ↦ rw same (remove-IsUnique d k h.1)
    | inr other ↦
        rw other (get-remove_ne d k i (==_sym-false i k other) ∙ h.0, remove-IsUnique d k h.1)
  ]

  -- To write a key that is there adds no row.
  pub length-put_there :
      (d : Dict K V) (k : K) (v w : V) → get d k ≡ some w → length (put d k v) ≡ length d
  unfolding get put
  length-put_there [] k v w h = absurd (ground arith)
  length-put_there ((i, u) ∷ d) k v w h = ground (arith, length-put_there d k v w)

  remove_absent : (d : Dict K V) (k : K) → get d k ≡ none → length (remove d k) ≡ length d
  unfolding get remove
  remove_absent [] k h = refl
  remove_absent ((i, u) ∷ d) k h = ground (arith, remove_absent d k)

  -- To drop a key that is there once takes one row.
  pub length-remove_there :
      (d : Dict K V) (k : K) (w : V)
      → IsUnique d
      → get d k ≡ some w
      → length (remove d k) + 1 ≡ length d
  unfolding get remove
  length-remove_there [] k w u h = absurd (ground arith)
  length-remove_there ((i, v) ∷ d) k w u h = elim (Bool-cases (i == k)) [
    | inl same ↦
        let gone = remove_absent d k (subst (λ j. get d j ≡ none) ((e.equal_iff i k).0 same) u.0) in
        rw same (ground (arith, gone))
    | inr other ↦ ground (arith, length-remove_there d k w u.1)
  ]
