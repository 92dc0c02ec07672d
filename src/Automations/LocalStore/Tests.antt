-- ===== src/Automations/LocalStore/Tests.antt =====
-- A store with one automation, to which a second is added.
use koraku.Prelude.{◌≡◌, refl, Option, none, some, [], ◌∷◌, if◌then◌else◌, ◌==◌, text_equality}
use mathlib.Core.List.{Memᴰ}
use koraku.Prelude.Text.{Text, text, strip}
use koraku.Prelude.Dict
use koraku.Prelude.Json.{Value, obj, field, Fields, end, get, str}
use koraku.Automations.LocalStore.{
  Files, ok, path_for_id, NewAutomation, Changes, new_row, changed_row, get_automation,
  list_scheduled_active, insert_automation, update_automation,
}
use koraku.Automations.LocalStore.Kept.{get-insert_automation, get-update_automation}
use koraku.Automations.LocalStore.Listed.{insert_automation_scheduled}

abbrev report : NewAutomation
report = record {
  title = text " Report ";
  headline = [];
  natural_language_spec = text "Send the report";
  trigger_mode = text "scheduled";
  status = text "active";
  timezone = none;
  cron_expression = some (text "0 9 * * *");
  event_key = none;
  event_secret = none;
  toolkits = [];
}

abbrev paused : Changes
paused = record {
  title = none;
  headline = none;
  natural_language_spec = none;
  status = some (text "paused");
  timezone = none;
  cron_expression = none;
  event_key = none;
  event_secret = some (text " ");
  toolkits = none;
}

abbrev now : Text
now = text "2026-01-01"

abbrev report_row : Value
report_row = new_row (text "b") now report

abbrev old_fields : Fields
old_fields = field (text "created_at") (str now) end

abbrev paused_row : Value
paused_row = obj (changed_row now paused (field (text "id") (str (text "a")) old_fields))

-- What stands in the files.
abbrev loads : Text → Option Value
loads raw =
    if raw == text "old"
    then some (obj (field (text "id") (str (text "a")) old_fields))
    else if raw == text "changed"
    then some paused_row
    else some report_row

abbrev dumps : Value → Text
dumps _ = text "new"

abbrev dumps_changed : Value → Text
dumps_changed _ = text "changed"

abbrev no_repr : Value → Text
no_repr _ = []

abbrev two_files : Files
two_files = (text "a", text "old") ∷ (text "c", text "new") ∷ []

names_a : path_for_id (text " a ") ≡ some (text "a")
unfolding path_for_id strip
names_a = refl

names_plain_a : path_for_id (text "a") ≡ some (text "a")
unfolding path_for_id strip
names_plain_a = refl

names_b : path_for_id (text "b") ≡ some (text "b")
unfolding path_for_id strip
names_b = refl

outside_is_refused : path_for_id (text "../a") ≡ none
unfolding path_for_id strip
outside_is_refused = refl

get-insert_automation_example :
    let (after, answer) = insert_automation no_repr loads dumps (text "b") now report two_files in
    (answer ≡ ok report_row)
    × (get_automation no_repr loads dumps after (text "b") ≡ ok (some report_row))
    × (get_automation no_repr loads dumps after (text " a ")
        ≡ get_automation no_repr loads dumps two_files (text " a "))
get-insert_automation_example =
    get-insert_automation no_repr loads dumps (text "b") now report two_files (text " a ")
      (text "a") names_b refl names_a refl

insert_automation_scheduled_example : Memᴰ report_row (
    list_scheduled_active no_repr loads dumps
      ((insert_automation no_repr loads dumps (text "b") now report two_files).0))
insert_automation_scheduled_example =
    insert_automation_scheduled no_repr loads dumps (text "b") now report two_files names_b refl
      refl refl

reads_old :
    get_automation no_repr loads dumps_changed two_files (text "a")
    ≡ ok (some (obj (field (text "id") (str (text "a")) old_fields)))
unfolding get_automation path_for_id strip Dict.get
reads_old = refl

get-update_automation_example :
    let (after, answer) =
      update_automation no_repr loads dumps_changed now paused (text "a") two_files in
    (answer ≡ ok (some paused_row))
    × (get_automation no_repr loads dumps_changed after (text "a") ≡ ok (some paused_row))
    × (get paused_row (text "id") ≡ some (str (text "a")))
    × (get paused_row (text "created_at") ≡ some (str now))
get-update_automation_example =
    get-update_automation no_repr loads dumps_changed now paused (text "a") (text "a") two_files
      (text "id") (str (text "a")) old_fields names_plain_a reads_old refl
