-- ===== src/Automations/LocalStore/Kept.antt =====
-- What is inserted, changed or deleted is what is read afterwards.
use koraku.Prelude.{
  inl, inr, Option-cases, ◌≡◌, refl, ap, sym, ◌∙◌, false, Option, none, some, List, [], ◌∷◌, ◌==◌,
  text_equality,
}
use koraku.Prelude.Text.{Text, text}
use koraku.Prelude.Dict
use koraku.Prelude.Dict.{
  get-put, get-put_self, get-put_ne, get-remove, get-remove_ne, get-remove_self,
}
use koraku.Prelude.Fields.{field_of-set_field}
use koraku.Prelude.Json.{Value, obj, Fields, field, field_of, get, str}
use koraku.Automations.LocalStore.{
  Files, ok, path_for_id, NewAutomation, Changes, new_row, set_given, changed_row, read_file,
  dict_or_none, get_automation, insert_automation, update_automation, delete_automation,
}

-- A key that a change leaves alone.
field_of-set_given :
    {A : Type 0} (value : A → Value) (given : Option A) (key j : Text) (fs : Fields)
    → (key == j) ≡ false
    → field_of (set_given value given key fs) j ≡ field_of fs j
field_of-set_given value none key j fs apart = refl
field_of-set_given value (some a) key j fs apart = field_of-set_field fs key j (value a) apart

-- A change keeps every key but those it may set.
abbrev changed_keys : List Text
changed_keys =
    text "title"
    ∷ text "headline"
    ∷ text "natural_language_spec"
    ∷ text "status"
    ∷ text "timezone"
    ∷ text "cron_expression"
    ∷ text "event_key"
    ∷ text "event_secret"
    ∷ text "toolkits"
    ∷ text "updated_at"
    ∷ []

abbrev AreApart : List Text → Text → Type 0
AreApart [] j = Unit
AreApart (key ∷ keys) j = ((key == j) ≡ false) × AreApart keys j

field_of-changed_row :
    (now : Text) (c : Changes) (fs : Fields) (j : Text)
    → AreApart changed_keys j
    → field_of (changed_row now c fs) j ≡ field_of fs j
unfolding changed_row
field_of-changed_row now c fs j (h1, (h2, (h3, (h4, (h5, (h6, (h7, (h8, (h9, (h10, _)))))))))) =
    field_of-set_field _ (text "updated_at") j (str now) h10
    ∙ (field_of-set_given _ c.toolkits (text "toolkits") j _ h9
        ∙ (field_of-set_given _ c.event_secret (text "event_secret") j _ h8
            ∙ (field_of-set_given _ c.event_key (text "event_key") j _ h7
                ∙ (field_of-set_given _ c.cron_expression (text "cron_expression") j _ h6
                    ∙ (field_of-set_given _ c.timezone (text "timezone") j _ h5
                        ∙ (field_of-set_given _ c.status (text "status") j _ h4
                            ∙ (field_of-set_given _ c.natural_language_spec
                                  (text "natural_language_spec") j _ h3
                                ∙ (field_of-set_given _ c.headline (text "headline") j _ h2
                                    ∙ field_of-set_given _ c.title (text "title") j fs h1))))))))

some_of_ok : {A : Type 0} {a b : A} → ok a ≡ ok b → a ≡ b
some_of_ok h = cc h

module _ (repr : Value → Text) (loads : Text → Option Value) (dumps : Value → Text) where
  get-path :
      (files : Files) (id aid : Text)
      → path_for_id id ≡ some aid
      → get_automation repr loads dumps files id
        ≡ ok (read_file repr loads dumps (Dict.get files aid))
  unfolding get_automation
  get-path files id aid h = rw (get_automation, h) refl

  -- An automation that is inserted under a new id is read as it was made, and a file with another
  -- name is read as before. The new id names a file, and `json.loads` reads what `json.dumps` writes.
  pub get-insert_automation :
      (fresh now : Text) (a : NewAutomation) (files : Files) (other name : Text)
      → path_for_id fresh ≡ some fresh
      → loads (dumps (new_row fresh now a)) ≡ some (new_row fresh now a)
      → path_for_id other ≡ some name
      → (fresh == name) ≡ false
      → let (after, answer) = insert_automation repr loads dumps fresh now a files in
        (answer ≡ ok (new_row fresh now a))
        × (get_automation repr loads dumps after fresh ≡ ok (some (new_row fresh now a)))
        × (get_automation repr loads dumps after other
            ≡ get_automation repr loads dumps files other)
  unfolding insert_automation new_row
  get-insert_automation fresh now a files other name named reads other_named apart =
      rw (insert_automation, named)
        (
          refl,
          get-path (Dict.put files fresh (dumps (new_row fresh now a))) fresh fresh named
              ∙ ap (λ raw. ok (read_file repr loads dumps raw))
                  (get-put_self files fresh (dumps (new_row fresh now a)))
              ∙ ap (λ read. ok (dict_or_none repr loads dumps read)) reads,
          get-path (Dict.put files fresh (dumps (new_row fresh now a))) other name other_named
              ∙ ap (λ raw. ok (read_file repr loads dumps raw))
                  (get-put_ne files fresh name (dumps (new_row fresh now a)) apart)
              ∙ sym (get-path files other name other_named),
        )

  update-found :
      (now : Text) (c : Changes) (id aid : Text) (files : Files) (k : Text) (v : Value)
      (fs : Fields)
      → path_for_id id ≡ some aid
      → read_file repr loads dumps (Dict.get files aid) ≡ some (obj (field k v fs))
      → update_automation repr loads dumps now c id files ≡ (
        Dict.put files aid (dumps (obj (changed_row now c (field k v fs)))),
        ok (some (obj (changed_row now c (field k v fs)))),
      )
  unfolding update_automation
  update-found now c id aid files k v fs named read = rw (update_automation, named, read) refl

  -- A change of an automation that is there is read afterwards, and it keeps the id and the time of
  -- creation. `json.loads` reads what `json.dumps` writes of the changed row.
  pub get-update_automation :
      (now : Text) (c : Changes) (id aid : Text) (files : Files) (k : Text) (v : Value)
      (fs : Fields)
      → path_for_id id ≡ some aid
      → get_automation repr loads dumps files id ≡ ok (some (obj (field k v fs)))
      → let row : Value = obj (changed_row now c (field k v fs)) in
        loads (dumps row) ≡ some row
        → let (after, answer) = update_automation repr loads dumps now c id files in
          (answer ≡ ok (some row))
          × (get_automation repr loads dumps after id ≡ ok (some row))
          × (get row (text "id") ≡ get (obj (field k v fs)) (text "id"))
          × (get row (text "created_at") ≡ get (obj (field k v fs)) (text "created_at"))
  get-update_automation now c id aid files k v fs named found reads =
      let row : Value = obj (changed_row now c (field k v fs)) in
      let read : read_file repr loads dumps (Dict.get files aid) ≡ some (obj (field k v fs)) =
        some_of_ok (sym (get-path files id aid named) ∙ found) in
      rw (update-found now c id aid files k v fs named read) (
        refl,
        get-path (Dict.put files aid (dumps row)) id aid named
            ∙ ap (λ raw. ok (read_file repr loads dumps raw)) (get-put_self files aid (dumps row))
            ∙ ap (λ found. ok (dict_or_none repr loads dumps found)) reads,
        field_of-changed_row now c (field k v fs) (text "id")
            (refl, (refl, (refl, (refl, (refl, (refl, (refl, (refl, (refl, (refl, tt)))))))))),
        field_of-changed_row now c (field k v fs) (text "created_at")
            (refl, (refl, (refl, (refl, (refl, (refl, (refl, (refl, (refl, (refl, tt)))))))))),
      )

  -- An automation that is deleted is not found any more, and a file with another name is read as
  -- before.
  get-delete_automation :
      (id aid other name : Text) (files : Files)
      → path_for_id id ≡ some aid
      → path_for_id other ≡ some name
      → (aid == name) ≡ false
      → let (after, answer) = delete_automation repr loads dumps id files in
        (get_automation repr loads dumps after id ≡ ok none)
        × (get_automation repr loads dumps after other
            ≡ get_automation repr loads dumps files other)
  unfolding delete_automation
  get-delete_automation id aid other name files named other_named apart =
      elim (Option-cases (Dict.get files aid)) [
        | inl missing ↦
            rw (delete_automation, named, missing)
              (
                get-path files id aid named
                    ∙ ap (λ raw. ok (read_file repr loads dumps raw)) missing,
                refl,
              )
        | inr (raw, found) ↦
            rw (delete_automation, named, found)
              (
                get-path (Dict.remove files aid) id aid named
                    ∙ ap (λ read. ok (read_file repr loads dumps read)) (get-remove_self files aid),
                get-path (Dict.remove files aid) other name other_named
                    ∙ ap (λ read. ok (read_file repr loads dumps read))
                        (get-remove_ne files aid name apart)
                    ∙ sym (get-path files other name other_named),
              )
      ]
