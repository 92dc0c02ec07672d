-- ===== src/Agent/Budget/Repeat.antt =====
-- `LoopTracker` against the whole sequence of the calls of a run.
use koraku.Prelude.{
  ℕ, zero, suc, ◌+◌, ◌-◌, ◌≤◌, ◌≡◌, refl, ap, ◌∙◌, sym, List, [], ◌∷◌, ◌++◌, ltb, if◌then◌else◌,
  map, length, drop, take_last, length-append, length-drop, arith, inl, inr, Bool-cases,
  ltb-false→le,
}
use mathlib.Core.List.{append-nil, append_assoc}
use koraku.Prelude.Text.{Text}
use koraku.Prelude.Json.{Value}
use koraku.Agent.ToolExecutor.{ToolUse}
use koraku.Agent.Budget.{LoopTracker, new_tracker, call_key, record_calls, has_repeat, equal_pair}

module _ {ℓ} {A : Type ℓ} where
  drop_nil : (n : ℕ) → drop {A = A} n [] ≡ []
  drop_nil zero = refl
  drop_nil (suc n) = refl

  drop-drop : (m n : ℕ) (xs : List A) → drop m (drop n xs) ≡ drop (n + m) xs
  drop-drop m zero xs = ap (λ i. drop i xs) {x = m} {y = 0 + m} (omega arith)
  drop-drop m (suc n) [] = drop_nil m ∙ sym (drop_nil (suc n + m))
  drop-drop m (suc n) (x ∷ xs) =
      drop-drop m n xs ∙ ap (λ i. drop i (x ∷ xs)) {x = suc (n + m)} {y = suc n + m} (omega arith)

  drop-append : (n : ℕ) (xs ys : List A) → n ≤ length xs → drop n (xs ++ ys) ≡ drop n xs ++ ys
  drop-append zero xs ys h = refl
  drop-append (suc n) [] ys h = absurd (omega (arith, h))
  drop-append (suc n) (x ∷ xs) ys h = drop-append n xs ys (omega (arith, h))

  -- The end of a list that grows, from its old end.
  take_last-append :
      (k : ℕ) (xs ys : List A) → take_last k (take_last k xs ++ ys) ≡ take_last k (xs ++ ys)
  take_last-append k xs ys =
      let n : ℕ = length xs - k in
      let same : drop n xs ++ ys ≡ drop n (xs ++ ys) = sym (drop-append n xs ys (omega arith)) in
      let count : n + (length (drop n (xs ++ ys)) - k) ≡ length (xs ++ ys) - k =
        omega (arith, length-drop n (xs ++ ys), length-append xs ys) in
      ap (take_last k) same
      ∙ (drop-drop (length (drop n (xs ++ ys)) - k) n (xs ++ ys)
          ∙ ap (λ i. drop i (xs ++ ys)) count)

  take_last_twice : (j k : ℕ) (xs : List A) → j ≤ k → take_last j (take_last k xs) ≡ take_last j xs
  take_last_twice j k xs h =
      let n : ℕ = length xs - k in
      let count : n + (length (drop n xs) - j) ≡ length xs - j =
        omega (arith, length-drop n xs, h) in
      drop-drop (length (drop n xs) - j) n xs ∙ ap (λ i. drop i xs) count

  -- A list that is short is its own end, so the test of the length changes nothing.
  if_long :
      (k : ℕ) (xs : List A) → (if ltb k (length xs) then take_last k xs else xs) ≡ take_last k xs
  if_long k xs = elim (Bool-cases (ltb k (length xs))) [
    | inl long ↦ rw long refl
    | inr short ↦
        rw short
          (ap (λ i. drop i xs) (sym (zero_sub (length xs) k (ltb-false→le k (length xs) short))))
  ]
    where
      zero_sub : (a b : ℕ) → a ≤ b → a - b ≡ 0
      zero_sub a b h = omega (arith, h)

module _ (repr digest : Value → Text) where
  -- The tracker after the batches of calls of a run, and the calls that they hold.
  abbrev pub tracker_after : LoopTracker → List (List ToolUse) → LoopTracker
  tracker_after tracker [] = tracker
  tracker_after tracker (batch ∷ batches) =
      tracker_after (record_calls repr digest tracker batch) batches

  abbrev pub all_calls : List (List ToolUse) → List (Text × Text)
  all_calls [] = []
  all_calls (batch ∷ batches) = map (call_key repr digest) batch ++ all_calls batches

  record_calls-recent :
      (tracker : LoopTracker) (batch : List ToolUse) (seen : List (Text × Text))
      → tracker.recent ≡ take_last 16 seen
      → (record_calls repr digest tracker batch).recent
        ≡ take_last 16 (seen ++ map (call_key repr digest) batch)
  unfolding record_calls
  record_calls-recent tracker batch seen h =
      if_long 16 (tracker.recent ++ map (call_key repr digest) batch)
      ∙ (ap (λ r. take_last 16 (r ++ map (call_key repr digest) batch)) h
          ∙ take_last-append 16 seen (map (call_key repr digest) batch))

  tracker_after-recent :
      (tracker : LoopTracker) (batches : List (List ToolUse)) (seen : List (Text × Text))
      → tracker.recent ≡ take_last 16 seen
      → (tracker_after tracker batches).recent ≡ take_last 16 (seen ++ all_calls batches)
  tracker_after-recent tracker [] seen h = h ∙ ap (take_last 16) (sym (append-nil seen))
  tracker_after-recent tracker (batch ∷ batches) seen h =
      tracker_after-recent (record_calls repr digest tracker batch) batches
        (seen ++ map (call_key repr digest) batch) (record_calls-recent tracker batch seen h)
      ∙ ap (take_last 16) (append_assoc seen (map (call_key repr digest) batch) (all_calls batches))

  -- A tracker that keeps 16 calls answers as one that keeps them all: it reports a repeat exactly
  -- when the last two calls of the run so far are equal in name and in the digest of the input.
  pub has_repeat-eq-last_two :
      (batches : List (List ToolUse))
      → has_repeat (tracker_after new_tracker batches)
        ≡ equal_pair (take_last 2 (all_calls batches))
  unfolding has_repeat
  has_repeat-eq-last_two batches =
      ap (λ r. equal_pair (take_last 2 r)) (tracker_after-recent new_tracker batches [] refl)
      ∙ ap equal_pair (take_last_twice 2 16 (all_calls batches) (omega arith))

  -- After every batch of calls the tracker keeps 16 at most.
  pub length-record_calls-le :
      (tracker : LoopTracker) (batch : List ToolUse)
      → length ((record_calls repr digest tracker batch).recent) ≤ 16
  unfolding record_calls
  length-record_calls-le tracker batch =
      let all : List (Text × Text) = tracker.recent ++ map (call_key repr digest) batch in
      rw (if_long 16 all) (omega (arith, length-drop (length all - 16) all))
