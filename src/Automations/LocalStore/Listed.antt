-- ===== src/Automations/LocalStore/Listed.antt =====
-- An automation that is inserted stands in the list of the scheduler.
use koraku.Prelude.{
  ◌≡◌, refl, ap, sym, ◌∙◌, inl, inr, Bool, Bool-cases, Option-cases, true, Option, some, List, [],
  ◌∷◌, keep, ◌==◌, text_equality,
}
use mathlib.Core.Option.{none-ne-some}
use mathlib.Core.List.{Memᴰ}
use mathlib.Core.List.Memᴰ
use mathlib.Core.List.Memᴰ.{head, tail}
use koraku.Prelude.Text.{Text, text, strip}
use koraku.Prelude.Dict
use koraku.Prelude.Json.{truthy, Value, str}
use koraku.Automations.LocalStore.{
  insert_sorted, sort_by, newer, path_leb, Files, path_for_id, NewAutomation, new_row, dict_or_none,
  row_has_id, rows_read, list_automations, list_scheduled_active, insert_automation,
}

put_has : (d : Files) (k raw : Text) → Memᴰ (k, raw) (Dict.put d k raw)
unfolding Dict.put
put_has [] k raw = head refl
put_has ((j, old) ∷ d) k raw = elim (Bool-cases (j == k)) [
  | inl same ↦
      rw (Dict.put, same) (head (ap (λ i. (i, raw)) (sym ((text_equality.equal_iff j k).0 same))))
  | inr other ↦ rw (Dict.put, other) (tail (put_has d k raw))
]

keep_has :
    {A : Type 0} (p : A → Bool) (x : A) (xs : List A) → p x ≡ true → Memᴰ x xs → Memᴰ x (keep p xs)
keep_has p x [] h m = absurd (Memᴰ.not-nil m)
keep_has p x (y ∷ ys) h (head e) = rw (keep, ap p (sym e) ∙ h) (head e)
keep_has p x (y ∷ ys) h (tail m) = elim (Bool-cases (p y)) [
  | inl kept ↦ rw (keep, kept) (tail (keep_has p x ys h m))
  | inr left ↦ rw (keep, left) (keep_has p x ys h m)
]

module _ {A : Type 0} (may_precede : A → A → Bool) where
  inserted_has : (a : A) (xs : List A) → Memᴰ a (insert_sorted may_precede a xs)
  inserted_has a [] = head refl
  inserted_has a (y ∷ ys) = elim (Bool-cases (may_precede a y)) [
    | inl before ↦ rw (insert_sorted, before) (head refl)
    | inr after ↦ rw (insert_sorted, after) (tail (inserted_has a ys))
  ]

  others_have : (a x : A) (xs : List A) → Memᴰ x xs → Memᴰ x (insert_sorted may_precede a xs)
  others_have a x [] m = absurd (Memᴰ.not-nil m)
  others_have a x (y ∷ ys) (head e) = elim (Bool-cases (may_precede a y)) [
    | inl before ↦ rw (insert_sorted, before) (tail (head e))
    | inr after ↦ rw (insert_sorted, after) (head e)
  ]
  others_have a x (y ∷ ys) (tail m) = elim (Bool-cases (may_precede a y)) [
    | inl before ↦ rw (insert_sorted, before) (tail (tail m))
    | inr after ↦ rw (insert_sorted, after) (tail (others_have a x ys m))
  ]

  sort_has : (x : A) (xs : List A) → Memᴰ x xs → Memᴰ x (sort_by may_precede xs)
  sort_has x [] m = absurd (Memᴰ.not-nil m)
  sort_has x (y ∷ ys) (head e) = Memᴰ.cast e (inserted_has y (sort_by may_precede ys))
  sort_has x (y ∷ ys) (tail m) = others_have y x _ (sort_has x ys m)

id_is_text : (aid : Text) → path_for_id aid ≡ some aid → truthy (str aid) ≡ true
unfolding path_for_id strip
id_is_text [] h = absurd (none-ne-some _ h)
id_is_text (c ∷ s) h = refl

module _ (repr : Value → Text) (loads : Text → Option Value) (dumps : Value → Text) where
  rows_have :
      (row : Value) (aid raw : Text) (files : List (Text × Text))
      → dict_or_none repr loads dumps (loads raw) ≡ some row
      → row_has_id repr loads dumps row ≡ true
      → Memᴰ (aid, raw) files
      → Memᴰ row (rows_read repr loads dumps files)
  rows_have row aid raw [] h named m = absurd (Memᴰ.not-nil m)
  rows_have row aid raw ((a, r) ∷ rest) h named (head e) =
      rw (rows_read, ap (λ file. dict_or_none repr loads dumps (loads file.1)) (sym e) ∙ h, named)
        (head refl)
  rows_have row aid raw ((a, r) ∷ rest) h named (tail m) =
      let later = rows_have row aid raw rest h named m in
      elim (Option-cases (dict_or_none repr loads dumps (loads r))) [
        | inl unread ↦ rw (rows_read, unread) later
        | inr (other, read) ↦ elim (Bool-cases (row_has_id repr loads dumps other)) [
          | inl listed ↦ rw (rows_read, read, listed) (tail later)
          | inr left ↦ rw (rows_read, read, left) later
        ]
      ]

  -- An automation that is inserted as active and scheduled is in the list of those that the
  -- scheduler runs. The new id names a file, and `json.loads` reads what `json.dumps` writes.
  pub insert_automation_scheduled :
      (fresh now : Text) (a : NewAutomation) (files : Files)
      → path_for_id fresh ≡ some fresh
      → loads (dumps (new_row fresh now a)) ≡ some (new_row fresh now a)
      → a.trigger_mode ≡ text "scheduled"
      → a.status ≡ text "active"
      → Memᴰ (new_row fresh now a) (
          list_scheduled_active repr loads dumps
            ((insert_automation repr loads dumps fresh now a files).0))
  unfolding insert_automation list_scheduled_active list_automations new_row
  insert_automation_scheduled fresh now a files named reads scheduled active =
      let row = new_row fresh now a in
      rw (insert_automation, named)
        (keep_has _ row _ (rw (scheduled, active) refl) (
          sort_has (newer repr loads dumps) row _ (
            rows_have row fresh (dumps row) _ (ap (dict_or_none repr loads dumps) reads)
              (id_is_text fresh named)
              (sort_has (path_leb repr loads dumps) (fresh, dumps row) _
                (put_has files fresh (dumps row))))))
