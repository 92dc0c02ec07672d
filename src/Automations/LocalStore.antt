-- ===== src/Automations/LocalStore.antt =====
-- koraku/automations/local_store.py: the automations of a workspace, a JSON file for each. The
-- directory is a dict from the id of an automation to the text of its file.
pub mod Kept
pub mod Listed
pub mod Tests
use koraku.Prelude.{
  ℕ, Bool, true, false, not, ◌&&◌, ◌||◌, Option, none, some, List, [], ◌∷◌, ◌++◌, map, keep, ltb,
  nat_beq, if◌then◌else◌, text_equality, ◌==◌,
}
use koraku.Prelude.Text.{Text, text, strip, is_empty, contains_text}
use koraku.Prelude.Dict
use koraku.Prelude.Dict.{Dict}
use koraku.Prelude.Json.{
  Value, null, str, arr, obj, Fields, field, items, dict, get, set_field, is_text, truthy, as_text,
}

abbrev pub Files : Type 0
Files = Dict Text Text

-- What a call gives, or the ValueError of an id that names no file of the directory.
pub data Result (A : Type 0) : Type 0 where
  ok : A → Result A
  invalid_id : Result A

-- The id as the name of a file.
unfoldable pub path_for_id : Text → Option Text
path_for_id automation_id =
    let aid = strip automation_id in
    if is_empty aid
      || contains_text aid (text "/")
      || contains_text aid (text "\\")
      || contains_text aid (text "..")
    then none
    else some aid

abbrev pub text_or_nothing : Text → Value
text_or_nothing [] = null
text_or_nothing (c ∷ s) = str (c ∷ s)

abbrev pub optional_text : Option Text → Value
optional_text none = null
optional_text (some s) = str s

-- (value or "").strip() or None
abbrev pub stripped_or_nothing : Option Text → Value
stripped_or_nothing none = null
stripped_or_nothing (some s) = text_or_nothing (strip s)

-- A text is at most another, by code points.
abbrev pub text_leb : Text → Text → Bool
text_leb [] t = true
text_leb (c ∷ s) [] = false
text_leb (c ∷ s) (d ∷ t) = ltb c d || nat_beq c d && text_leb s t

-- sorted: an entry comes before the others that it may precede, so entries that are equal keep
-- their order.
module _ {A : Type 0} (may_precede : A → A → Bool) where
  abbrev pub insert_sorted : A → List A → List A
  insert_sorted a [] = a ∷ []
  insert_sorted a (b ∷ bs) =
      let later = insert_sorted a bs in
      elim (may_precede a b) [ true ↦ a ∷ b ∷ bs | false ↦ b ∷ later ]

  abbrev pub sort_by : List A → List A
  sort_by [] = []
  sort_by (a ∷ others) = insert_sorted a (sort_by others)

-- What `insert_automation` is given.
pub record NewAutomation : Type 0 where
  pub title : Text
  pub headline : Text
  pub natural_language_spec : Text
  pub trigger_mode : Text
  pub status : Text
  pub timezone : Option Text
  pub cron_expression : Option Text
  pub event_key : Option Text
  pub event_secret : Option Text
  pub toolkits : List Text

-- What `update_automation` changes: the fields that are given.
pub record Changes : Type 0 where
  pub title : Option Text
  pub headline : Option Text
  pub natural_language_spec : Option Text
  pub status : Option Text
  pub timezone : Option Text
  pub cron_expression : Option Text
  pub event_key : Option Text
  pub event_secret : Option Text
  pub toolkits : Option (List Text)

abbrev pub texts_value : List Text → Value
texts_value ts = arr (items (map str ts))

unfoldable pub new_row : Text → Text → NewAutomation → Value
new_row aid now a = dict (
    (text "id", str aid)
    ∷ (text "title", str (strip a.title))
    ∷ (text "headline", str (strip a.headline))
    ∷ (text "natural_language_spec", str (strip a.natural_language_spec))
    ∷ (text "trigger_mode", str a.trigger_mode)
    ∷ (text "status", str a.status)
    ∷ (text "timezone", optional_text a.timezone)
    ∷ (text "cron_expression", optional_text a.cron_expression)
    ∷ (text "event_key", stripped_or_nothing a.event_key)
    ∷ (text "event_secret", stripped_or_nothing a.event_secret)
    ∷ (text "toolkits", texts_value a.toolkits)
    ∷ (text "created_at", str now)
    ∷ (text "updated_at", str now)
    ∷ [])

-- row[key] = value(given) where it is not None
abbrev pub set_given : {A : Type 0} → (A → Value) → Option A → Text → Fields → Fields
set_given value none key fs = fs
set_given value (some a) key fs = set_field fs key (value a)

unfoldable pub changed_row : Text → Changes → Fields → Fields
changed_row now c fs =
    let titled = set_given (λ s. str (strip s)) c.title (text "title") fs in
    let headed = set_given (λ s. str (strip s)) c.headline (text "headline") titled in
    let described =
      set_given (λ s. str (strip s)) c.natural_language_spec (text "natural_language_spec")
        headed in
    let switched = set_given str c.status (text "status") described in
    let zoned = set_given str c.timezone (text "timezone") switched in
    let timed = set_given str c.cron_expression (text "cron_expression") zoned in
    let keyed = set_given (λ s. text_or_nothing (strip s)) c.event_key (text "event_key") timed in
    let locked =
      set_given (λ s. text_or_nothing (strip s)) c.event_secret (text "event_secret") keyed in
    let equipped = set_given texts_value c.toolkits (text "toolkits") locked in
    set_field equipped (text "updated_at") (str now)

-- `loads` is `json.loads`, `none` where it raises; `dumps` is `json.dumps`.
module _ (repr : Value → Text) (loads : Text → Option Value) (dumps : Value → Text) where
  abbrev pub dict_or_none : Option Value → Option Value
  dict_or_none (some (obj fs)) = some (obj fs)
  dict_or_none _ = none

  abbrev pub read_file : Option Text → Option Value
  read_file none = none
  read_file (some raw) = dict_or_none (loads raw)

  unfoldable pub get_automation : Files → Text → Result (Option Value)
  get_automation files automation_id = elim (path_for_id automation_id) [
    | none ↦ invalid_id
    | some aid ↦ ok (read_file (Dict.get files aid))
  ]

  abbrev pub row_has_id : Value → Bool
  row_has_id row = elim (get row (text "id")) [ none ↦ false | some v ↦ truthy v ]

  abbrev pub rows_read : List (Text × Text) → List Value
  rows_read [] = []
  rows_read ((aid, raw) ∷ rest) =
      let others = rows_read rest in
      elim (dict_or_none (loads raw)) [
        | none ↦ others
        | some row ↦ if row_has_id row then row ∷ others else others
      ]

  -- str(r.get("updated_at") or r.get("created_at") or "")
  abbrev pub truthy_text : Option Value → Text → Text
  truthy_text none other = other
  truthy_text (some v) other = if truthy v then as_text repr v else other

  abbrev pub changed_at : Value → Text
  changed_at row =
      truthy_text (get row (text "updated_at")) (truthy_text (get row (text "created_at")) [])

  -- with reverse=True, where rows that are equal keep their order too
  abbrev pub newer : Value → Value → Bool
  newer r s = text_leb (changed_at s) (changed_at r)

  abbrev pub path_leb : Text × Text → Text × Text → Bool
  path_leb file other = text_leb (file.0 ++ text ".json") (other.0 ++ text ".json")

  unfoldable pub list_automations : Files → List Value
  list_automations files = sort_by newer (rows_read (sort_by path_leb files))

  unfoldable pub list_scheduled_active : Files → List Value
  list_scheduled_active files =
      keep
        (λ row.
          is_text (get row (text "trigger_mode")) (text "scheduled")
          && is_text (get row (text "status")) (text "active"))
        (list_automations files)

  -- `fresh` is the id that `uuid4` makes.
  unfoldable pub insert_automation : Text → Text → NewAutomation → Files → Files × Result Value
  insert_automation fresh now a files = elim (path_for_id fresh) [
    | none ↦ (files, invalid_id)
    | some aid ↦ (Dict.put files aid (dumps (new_row fresh now a)), ok (new_row fresh now a))
  ]

  -- What becomes of the row that is found; one that is empty counts as missing.
  abbrev pub update_row :
      Text → Changes → Files → Text → Option Value → Files × Result (Option Value)
  update_row now c files aid (some (obj (field k v fs))) =
      let row = obj (changed_row now c (field k v fs)) in
      (Dict.put files aid (dumps row), ok (some row))
  update_row now c files aid _ = (files, ok none)

  unfoldable pub update_automation : Text → Changes → Text → Files → Files × Result (Option Value)
  update_automation now c automation_id files = elim (path_for_id automation_id) [
    | none ↦ (files, invalid_id)
    | some aid ↦ update_row now c files aid (read_file (Dict.get files aid))
  ]

  abbrev pub delete_file : Files → Text → Option Text → Files × Result Bool
  delete_file files aid none = (files, ok false)
  delete_file files aid (some raw) = (Dict.remove files aid, ok true)

  unfoldable pub delete_automation : Text → Files → Files × Result Bool
  delete_automation automation_id files = elim (path_for_id automation_id) [
    | none ↦ (files, invalid_id)
    | some aid ↦ delete_file files aid (Dict.get files aid)
  ]
