-- ===== src/Overview/Shown.antt =====
-- The tasks that the form of a record sends are tasks that the page of the record shows.
use hdns.Prelude.{◌≡◌, refl, String, Bool, true, Option, some, List, [], ◌∷◌, ◌++◌, arith, filter}
use hdns.Model.Enums.{RecordPurpose, TaskTrigger}
use hdns.Model.Messages.{Record, Task}
use hdns.RecordsTable.Purpose.{purpose_of}
use hdns.TaskForm.Triggers.{trigger_options_for, normalize_trigger}
use hdns.TaskForm.Form.{TaskForm, FormValue, open_for_record, build_payload}
use hdns.Overview.Tasks.{task_matches_record_purpose, matches}
use hdns.Overview.Page.{shown_tasks}

-- The form, opened for a record or for a task of it, and then filled in.
abbrev pub filled : Record → Option Task → FormValue → TaskForm → TaskForm
filled r task value s = record (open_for_record r.id (purpose_of r) task s) { form = value }

-- A trigger that is offered for a purpose is one of the purpose.
normalize_trigger-matches :
    (p : RecordPurpose) (t : TaskTrigger)
    → matches (some (normalize_trigger (trigger_options_for p) t)) p ≡ true
unfolding normalize_trigger trigger_options_for
normalize_trigger-matches RecordPurpose.ddns t = ground arith
normalize_trigger-matches RecordPurpose.cert t = ground arith
normalize_trigger-matches RecordPurpose.both t = refl
normalize_trigger-matches RecordPurpose.unspecified t = refl
normalize_trigger-matches RecordPurpose.unrecognized t = refl

filled-IsShown :
    (stringify : List (String × String) → String) (r : Record) (task : Option Task) (v : FormValue)
    (s : TaskForm)
    → task_matches_record_purpose (build_payload stringify (filled r task v s)) r ≡ true
unfolding build_payload open_for_record task_matches_record_purpose
filled-IsShown stringify r task v s = normalize_trigger-matches (purpose_of r) _

filter-concat :
    (p : Task → Bool) (before after : List Task) (t : Task)
    → p t ≡ true
    → filter p (before ++ t ∷ after) ≡ filter p before ++ t ∷ filter p after
filter-concat p [] after t e = rw e
filter-concat p (x ∷ before) after t e = ground (arith, filter-concat p before after t e)

-- Whatever was put into the form for a record, the task that it sends is among the tasks that the
-- page of the record shows, wherever the service lists it.
pub form-shown :
    (stringify : List (String × String) → String) (r : Record) (task : Option Task) (v : FormValue)
    (s : TaskForm) (before after : List Task)
    → shown_tasks r (before ++ build_payload stringify (filled r task v s) ∷ after)
      ≡ shown_tasks r before ++ build_payload stringify (filled r task v s) ∷ shown_tasks r after
unfolding shown_tasks build_payload open_for_record
form-shown stringify r task v s before after =
    filter-concat _ before after _ (ground (arith, filled-IsShown stringify r task v s))
