-- ===== src/TaskForm/Tests.antt =====
-- The theorems on the form at concrete inputs.
use hdns.Prelude.{
  ◌≡◌, refl, String, true, false, not, ◌&&◌, none, some, get_or, List, [], ◌∷◌, In, any, inl, trim,
  is_space, is_blank,
}
use hdns.Model.Enums.{RecordPurpose, TaskTrigger}
use hdns.Model.Samples.{hook_task}
use hdns.TaskForm.Triggers.{trigger_options_for, trigger_supports_certificate}
use hdns.TaskForm.Headers.{HeaderRow, validate_header_rows, scan, collect}
use hdns.TaskForm.Headers.Distinct.{filled, half_filled}
use hdns.TaskForm.Headers.Order.{in_property_order}
use hdns.Prelude.Objects.{array_index}
use hdns.TaskForm.Headers.Complete.{valid-collect, incomplete_exact}
use hdns.TaskForm.Form.{TaskForm, open_for_record, build_payload}
use hdns.TaskForm.Form.Payload.{trigger_of, build_payload-IsOffered, edit_unchanged}

abbrev rows : List HeaderRow
rows =
    (record { key = some " X-Key "; value = some "1" })
    ∷ (record { key = some ""; value = none })
    ∷ (record { key = some "12"; value = some "twelve" })
    ∷ (record { key = some "7"; value = some "seven " })
    ∷ []

abbrev half_rows : List HeaderRow
half_rows = (record { key = some "X-Key"; value = none }) ∷ []

-- Both examples take the texts as they are for their lower case.
abbrev same : String → String
same s = s

valid-collect_example : collect rows [] ≡ ("7", "seven") ∷ ("12", "twelve") ∷ ("X-Key", "1") ∷ []
unfolding filled in_property_order array_index trim is_space is_blank
valid-collect_example =
    valid-collect same rows (unfold validate_header_rows scan trim is_space is_blank in refl)

incomplete_exact_example :
    (elim (validate_header_rows same half_rows) [ none ↦ false | some e ↦ e.incomplete ])
    ≡ any (half_filled same) half_rows
incomplete_exact_example = incomplete_exact same half_rows

abbrev stringify : List (String × String) → String
stringify hs = "{}"

abbrev closed_form : TaskForm
closed_form = record {
  task = none;
  record_id = 0;
  record_purpose = RecordPurpose.unspecified;
  trigger_options = trigger_options_for RecordPurpose.unspecified;
  saving = false;
  form = record {
    name = "";
    trigger_on = some TaskTrigger.both;
    method = "POST";
    url = "";
    headers = [];
    body = some "";
    include_certificate = some true;
    certificate_format = some "pem";
    enabled = some true;
  };
  effects = [];
}

build_payload-IsOffered_example :
    In
      (trigger_of (build_payload stringify closed_form))
      (trigger_options_for RecordPurpose.unspecified)
    × ((get_or (build_payload stringify closed_form).include_certificate false
          && not (trigger_supports_certificate (trigger_of (build_payload stringify closed_form))))
        ≡ false)
build_payload-IsOffered_example = build_payload-IsOffered stringify closed_form refl

edit_unchanged_example :
    build_payload stringify (open_for_record 7 RecordPurpose.ddns (some hook_task) closed_form)
    ≡ record hook_task { headers = "" }
edit_unchanged_example =
    edit_unchanged stringify closed_form RecordPurpose.ddns hook_task TaskTrigger.ip false "{}" refl
      (unfold trigger_options_for in inl refl) refl refl refl (λ e. cc) (λ e. cc)
