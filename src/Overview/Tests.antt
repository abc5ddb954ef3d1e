-- ===== src/Overview/Tests.antt =====
-- The theorems on the page at concrete inputs.
use hdns.Prelude.{◌≡◌, refl, String, true, false, none, some, List, [], ◌∷◌, ◌++◌}
use hdns.Model.Enums.{RecordPurpose, TaskTrigger}
use hdns.Model.Messages.{Resolution}
use hdns.Model.Samples.{home_record, hook_task}
use hdns.RecordsTable.State.{success}
use hdns.TaskForm.Form.{TaskForm, FormValue, build_payload}
use hdns.Overview.Resolve.{latest, row_of, add_resolutions, row_of-add_resolutions}
use hdns.Overview.Page.{Overview, new_page, shown_tasks, await_address, on_init, load_record}
use hdns.Overview.Runs.{
  act, init, destroy, handle, record_list, hear, resolution, Run, here, next, user, answer,
}
use hdns.Overview.Streams.{IsHeld, Run-IsHeld, destroy-closes}
use hdns.Overview.Shown.{filled, form-shown}

abbrev answer_of : String → String → Resolution
answer_of server address = record {
  server = server;
  addresses = some (address ∷ []);
  response_time = 12;
  error = "";
}

abbrev reports : List Resolution
reports =
    answer_of "1.1.1.1" "192.0.2.1"
    ∷ answer_of "8.8.8.8" "192.0.2.1"
    ∷ answer_of "1.1.1.1" "192.0.2.9"
    ∷ []

row_of-add_resolutions_example :
    row_of "1.1.1.1" (add_resolutions [] reports) ≡ some (answer_of "1.1.1.1" "192.0.2.9")
unfolding latest
row_of-add_resolutions_example = row_of-add_resolutions "1.1.1.1" [] reports

abbrev opened : Overview
opened = act (init (some 7)) new_page

abbrev resolving : Overview
resolving =
    handle (record_list 7 (success (some (home_record ∷ []))))
      (record opened { pending = (await_address ∷ []) ++ [] })

abbrev resolving_run : Run new_page resolving
unfolding act on_init load_record
resolving_run =
    next (next here (user (init (some 7))))
      (answer (await_address ∷ []) (record_list 7 (success (some (home_record ∷ [])))) [] refl)

Run-IsHeld_example : IsHeld resolving
Run-IsHeld_example = Run-IsHeld resolving_run

destroy-closes_example :
    ((act destroy resolving).open_streams ≡ [])
    × (hear (resolution (answer_of "1.1.1.1" "192.0.2.1")) (act destroy resolving)
        ≡ act destroy resolving)
destroy-closes_example = destroy-closes (resolution (answer_of "1.1.1.1" "192.0.2.1")) resolving_run

abbrev values : FormValue
values = record {
  name = "hook";
  trigger_on = some TaskTrigger.both;
  method = "POST";
  url = "https://example.org/hook";
  headers = [];
  body = some "";
  include_certificate = some true;
  certificate_format = some "pem";
  enabled = some true;
}

abbrev closed_form : TaskForm
closed_form = record {
  task = none;
  record_id = 0;
  record_purpose = RecordPurpose.unspecified;
  trigger_options = [];
  saving = false;
  form = values;
  effects = [];
}

abbrev stringify : List (String × String) → String
stringify hs = "{}"

form-shown_example :
    shown_tasks home_record (
      (hook_task ∷ []) ++ build_payload stringify (filled home_record none values closed_form) ∷ [])
    ≡ shown_tasks home_record (hook_task ∷ [])
      ++ build_payload stringify (filled home_record none values closed_form)
        ∷ shown_tasks home_record []
form-shown_example = form-shown stringify home_record none values closed_form (hook_task ∷ []) []
