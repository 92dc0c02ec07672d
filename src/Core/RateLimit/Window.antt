-- ===== src/Core/RateLimit/Window.antt =====
-- The buckets of `_enforce_in_memory` against a limiter that forgets nothing.
use koraku.Prelude.{
  Bool, true, false, ℕ, ◌+◌, ◌≤◌, ◌<◌, ◌≡◌, refl, sym, inl, inr, ◌∙◌, ap, List, [], ◌∷◌, ◌++◌, leb,
  ltb, if◌then◌else◌, length, arith, All, Bool-cases, ltb→lt,
}
use mathlib.Core.List.{append_assoc}
use koraku.Core.RateLimit.{Verdict, admitted, too_many, pop_expired, enforce_bucket}

-- The admitted requests of a history in the window that ends at `now`, both ends included.
pub count_in : ℕ → ℕ → List ℕ → ℕ
count_in window now [] = 0
count_in window now (hit ∷ hits) =
    (if leb now (hit + window) then 1 else 0) + count_in window now hits

-- The limiter that is meant: a request is admitted when the window that ends with it holds fewer
-- than `max_hits` admitted requests. It keeps the whole history.
pub ideal : ℕ → ℕ → List ℕ → List ℕ → List Bool
ideal max_hits window history [] = []
ideal max_hits window history (now ∷ times) = elim (ltb (count_in window now history) max_hits) [
  | true ↦ true ∷ ideal max_hits window (history ++ now ∷ []) times
  | false ↦ false ∷ ideal max_hits window history times
]

abbrev pub is_admitted : Verdict → Bool
is_admitted admitted = true
is_admitted (too_many _) = false

-- The requests of one key, in order, each at its reading of the clock.
unfoldable pub serve : ℕ → ℕ → ℕ → List ℕ → List ℕ → List Bool
serve second max_hits window bucket [] = []
serve second max_hits window bucket (now ∷ times) =
    let (bucket', verdict) = enforce_bucket second max_hits window now bucket in
    is_admitted verdict ∷ serve second max_hits window bucket' times

-- The monotonic clock never goes back: every reading is at least the one before.
abbrev pub IsMonotone : ℕ → List ℕ → Type 0
IsMonotone start [] = Unit
IsMonotone start (now ∷ times) = (start ≤ now) × IsMonotone now times

-- The hits of a bucket stand in the order of the clock, up to its last reading.
abbrev IsOrdered : ℕ → List ℕ → Type 0
IsOrdered last [] = Unit
IsOrdered last (hit ∷ hits) = (hit ≤ last) × All (λ later. hit ≤ later) hits × IsOrdered last hits

abbrev IsExpired : ℕ → ℕ → List ℕ → Type 0
IsExpired window now = All (λ hit. hit + window < now)

module _ (window now : ℕ) where
  count_in-append :
      (xs ys : List ℕ)
      → count_in window now (xs ++ ys) ≡ count_in window now xs + count_in window now ys
  unfolding count_in
  count_in-append [] ys = omega arith
  count_in-append (x ∷ xs) ys = omega (arith, count_in-append xs ys)

  count_in_expired : (hits : List ℕ) → IsExpired window now hits → count_in window now hits ≡ 0
  unfolding count_in
  count_in_expired [] h = refl
  count_in_expired (x ∷ xs) h = ground (arith, count_in_expired xs h.1)

  count_in_live :
      (x : ℕ) (hits : List ℕ)
      → now ≤ x + window
      → All (λ later. x ≤ later) hits
      → count_in window now hits ≡ length hits
  unfolding count_in
  count_in_live x [] le h = refl
  count_in_live x (y ∷ ys) le h = ground (arith, count_in_live x ys le h.1)

  -- What the loop leaves is what the window counts.
  count_in-pop_expired :
      (last : ℕ) (hits : List ℕ)
      → IsOrdered last hits
      → count_in window now hits ≡ length (pop_expired window now hits)
  unfolding count_in pop_expired
  count_in-pop_expired last [] h = refl
  count_in-pop_expired last (x ∷ xs) h = ground (
    arith,
    count_in-pop_expired last xs h.2,
    λ (le : now ≤ x + window). count_in_live x xs le h.1,
  )

  pop_expired-split :
      (hits : List ℕ)
      → (popped : List ℕ) × (hits ≡ popped ++ pop_expired window now hits)
        × IsExpired window now popped
  unfolding pop_expired
  pop_expired-split [] = ([], refl, tt)
  pop_expired-split (x ∷ xs) = elim (Bool-cases (ltb (x + window) now)) [
    | inl gone ↦
        let (popped, e, h) = pop_expired-split xs in
        rw gone (x ∷ popped, ap (◌∷◌ x) e, (ltb→lt _ _ gone, h))
    | inr live ↦ rw live ([], refl, tt)
  ]

  IsOrdered-pop_expired :
      (last : ℕ) (hits : List ℕ)
      → IsOrdered last hits
      → IsOrdered last (pop_expired window now hits)
  unfolding pop_expired
  IsOrdered-pop_expired last [] h = tt
  IsOrdered-pop_expired last (x ∷ xs) h = elim (Bool-cases (ltb (x + window) now)) [
    | inl gone ↦ rw gone (IsOrdered-pop_expired last xs h.2)
    | inr live ↦ rw live h
  ]

  IsExpired-later :
      (last : ℕ) (xs : List ℕ) → last ≤ now → IsExpired window last xs → IsExpired window now xs
  IsExpired-later last [] le h = tt
  IsExpired-later last (x ∷ xs) le h = (omega arith, IsExpired-later last xs le h.1)

  IsExpired-append :
      (last : ℕ) (xs ys : List ℕ)
      → last ≤ now
      → IsExpired window last xs
      → IsExpired window now ys
      → IsExpired window now (xs ++ ys)
  IsExpired-append last [] ys le h k = k
  IsExpired-append last (x ∷ xs) ys le h k = (omega arith, IsExpired-append last xs ys le h.1 k)

module _ (now : ℕ) where
  All-snoc :
      (x : ℕ) (xs : List ℕ)
      → All (λ later. x ≤ later) xs
      → x ≤ now
      → All (λ later. x ≤ later) (xs ++ now ∷ [])
  All-snoc x [] h le = (le, tt)
  All-snoc x (y ∷ ys) h le = (h.0, All-snoc x ys h.1 le)

  IsOrdered-snoc :
      (last : ℕ) (xs : List ℕ) → last ≤ now → IsOrdered last xs → IsOrdered now (xs ++ now ∷ [])
  IsOrdered-snoc last [] le h = (omega arith, tt, tt)
  IsOrdered-snoc last (x ∷ xs) le h =
      (omega arith, All-snoc x xs h.1 (omega arith), IsOrdered-snoc last xs le h.2)

  IsOrdered-later : (last : ℕ) (xs : List ℕ) → last ≤ now → IsOrdered last xs → IsOrdered now xs
  IsOrdered-later last [] le h = tt
  IsOrdered-later last (x ∷ xs) le h = (omega arith, h.1, IsOrdered-later last xs le h.2)

module _ (second max_hits window : ℕ) where
  serve-ideal :
      (old bucket : List ℕ) (last : ℕ) (times : List ℕ)
      → IsExpired window last old
      → IsOrdered last bucket
      → IsMonotone last times
      → serve second max_hits window bucket times ≡ ideal max_hits window (old ++ bucket) times
  unfolding serve ideal enforce_bucket
  serve-ideal old bucket last [] expired ordered m = refl
  serve-ideal old bucket last (now ∷ times) expired ordered m =
      let (popped, split, gone) = pop_expired-split window now bucket in
      let live : List ℕ = pop_expired window now bucket in
      let old' : List ℕ = old ++ popped in
      let expired' : IsExpired window now old' =
        IsExpired-append window now last old popped m.0 expired gone in
      let history : old ++ bucket ≡ old' ++ live =
        ap (λ b. old ++ b) split ∙ sym (append_assoc old popped live) in
      let counted : count_in window now (old ++ bucket) ≡ length live = omega (
        arith,
        count_in-append window now old bucket,
        count_in_expired window now old (IsExpired-later window now last old m.0 expired),
        count_in-pop_expired window now last bucket ordered,
      ) in
      let live-IsOrdered : IsOrdered last live =
        IsOrdered-pop_expired window now last bucket ordered in
      elim (Bool-cases (leb max_hits (length live))) [
        | inl full ↦
            let rest : serve second max_hits window live times
                ≡ ideal max_hits window (old' ++ live) times =
              serve-ideal old' live now times expired'
                (IsOrdered-later now last live m.0 live-IsOrdered) m.1 in
            ground (arith, full, counted, rest, history)
        | inr free ↦
            let rest : serve second max_hits window (live ++ now ∷ []) times
                ≡ ideal max_hits window (old' ++ (live ++ now ∷ [])) times =
              serve-ideal old' (live ++ now ∷ []) now times expired'
                (IsOrdered-snoc now last live m.0 live-IsOrdered) m.1 in
            ground (arith, free, counted, rest, history, append_assoc old' live (now ∷ []))
      ]

  -- On any sequence of requests of one key whose clock never goes back, `_enforce_in_memory`
  -- answers as the limiter that keeps the whole history: a request is admitted exactly when fewer
  -- than `max_hits` requests were admitted in the window that ends with it.
  pub serve-eq-ideal :
      (start : ℕ) (times : List ℕ)
      → IsMonotone start times
      → serve second max_hits window [] times ≡ ideal max_hits window [] times
  serve-eq-ideal start times m = serve-ideal [] [] start times tt tt m
