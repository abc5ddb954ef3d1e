-- ===== src/RecordForm/Tests.antt =====
-- The theorems on the form of a record at concrete inputs.
use hdns.Prelude.{
  ◌≡◌, refl, String, Bool, true, false, not, none, some, [], ◌∷◌, str_eq, trim, is_space, is_blank,
}
use hdns.Model.Enums.{RecordPurpose}
use hdns.Model.Messages.{Record, Zone}
use hdns.Model.Samples.{home_record}
use hdns.RecordsTable.State.{success}
use hdns.RecordForm.Form.{
  RecordForm, open_drawer, get_zones, on_token, load_zones, prepare_form, payload, on_zones,
  on_prepared, open_form, save,
}
use hdns.RecordForm.Saving.{all_fit, open_zones_payload}
use hdns.RecordForm.Runs.{Run, start, opens, types, edits, saves, new_form, Run-all_fit}

abbrev zone : Zone
zone = record { id = 3; name = some " example.org"; record_count = 5 }

abbrev form : RecordForm
form = record {
  record' = none;
  zones = zone ∷ [];
  zones_loading = false;
  saving = false;
  auto_advance_suspended = false;
  step = 2;
  token_required = true;
  token = "secret";
  zone_id = 3;
  name = "home";
  ttl = some 60;
  purpose = some RecordPurpose.both;
  include_wildcard = some true;
  acme_email = some "a@example.org";
  deferred = [];
  effects = [];
}

-- A validator that rejects only the empty text.
abbrev not_empty : String → Bool
not_empty s = not (str_eq s "")

-- The form is opened and filled, the token is typed, and the form is saved twice.
abbrev filled : RecordForm
filled = record form { effects = open_drawer ∷ get_zones 0 "secret" ∷ [] }

opened : Run not_empty (on_token "secret" (open_form none new_form))
unfolding open_form
opened = types "secret" (opens none start)

abbrev twice : Run not_empty (save not_empty (save not_empty filled))
unfolding on_token load_zones open_form prepare_form
twice = saves (saves (edits filled opened refl))

Run-all_fit_example : all_fit (save not_empty (save not_empty filled)).effects ≡ true
Run-all_fit_example = Run-all_fit not_empty refl (save not_empty (save not_empty filled)) twice

abbrev mail_record : Record
mail_record = record home_record {
  purpose = some RecordPurpose.both;
  acme_email = some " a@example.org";
}

open_zones_payload_example :
    payload (
      on_zones
        (success (some (zone ∷ [])))
        (on_prepared (some mail_record) (open_form (some mail_record) form)))
    ≡ record mail_record {
      token = "";
      domain = some "example.org";
      include_wildcard = some false;
      acme_email = some "a@example.org";
    }
unfolding trim is_space is_blank
open_zones_payload_example =
    open_zones_payload mail_record form (zone ∷ []) zone RecordPurpose.both false " a@example.org"
      " example.org" refl refl refl refl refl
