-- ===== src/RecordForm/Form.antt =====
-- The state of the form, and its operations.
use hdns.Prelude.{
  ℕ, String, Bool, true, false, not, ◌&&◌, ◌||◌, Option, none, some, List, [], ◌∷◌, ◌++◌, get_or,
  ◌==◌, leb, str_eq, if◌then◌else◌, find, any, trim,
}
use hdns.Model.Enums.{RecordPurpose}
use hdns.Model.Messages.{Record, Zone}
use hdns.RecordsTable.State.{Answer, success, failure}

pub data Effect : Type 0 where
  open_drawer close_drawer saved : Effect
  get_zones : ℕ → String → Effect
  upsert : Record → Effect
  message : String → Effect
  error : Option String → String → Effect

-- `token_required` says whether the control of the token has the validator. `deferred` has the
-- record that each pending `setTimeout(…)` of `prepareForm` keeps.
pub record RecordForm : Type 0 where
  pub record' : Option Record
  pub zones : List Zone
  pub zones_loading : Bool
  pub saving : Bool
  pub auto_advance_suspended : Bool
  pub step : ℕ
  pub token_required : Bool
  pub token : String
  pub zone_id : ℕ
  pub name : String
  pub ttl : Option ℕ
  pub purpose : Option RecordPurpose
  pub include_wildcard : Option Bool
  pub acme_email : Option String
  pub deferred : List (Option Record)
  pub effects : List Effect

abbrev pub emit : Effect → RecordForm → RecordForm
emit e s = record s { effects = s.effects ++ e ∷ [] }

-- `this.record?.id ?? 0`
abbrev pub id_of : Option Record → ℕ
id_of none = 0
id_of (some r) = r.id

unfoldable pub load_zones : String → RecordForm → RecordForm
load_zones token s = emit (get_zones (id_of s.record') token) (record s { zones_loading = true })

unfoldable pub on_zones : Answer (Option (List Zone)) → RecordForm → RecordForm
on_zones (success res) s =
    let zones = get_or res [] in
    record s {
      zones = zones;
      zone_id = if any (λ z. z.id == s.zone_id) zones then s.zone_id else 0;
      zones_loading = false;
    }
on_zones (failure e) s =
    emit (error e "Failed to load zones")
      (record s { zones = []; zone_id = 0; zones_loading = false })

-- What the subscription to the token does with a value, when typing has paused; the timer that
-- it clears is one of those in Steps.
unfoldable pub on_token : String → RecordForm → RecordForm
unfolding load_zones
on_token token s =
    if not (id_of s.record' == 0) || not (str_eq token "")
    then load_zones token s
    else record s { zones = []; zone_id = 0 }

unfoldable pub prepare_form : Option Record → RecordForm → RecordForm
prepare_form (some r) s = record s {
  auto_advance_suspended = true;
  token_required = false;
  token = "";
  zone_id = r.zone_id;
  name = r.name;
  ttl = some r.ttl;
  purpose = some (get_or r.purpose RecordPurpose.ddns);
  include_wildcard = some (get_or r.include_wildcard false);
  acme_email = some (get_or r.acme_email "");
  deferred = s.deferred ++ some r ∷ [];
}
prepare_form none s = record s {
  auto_advance_suspended = true;
  token = "";
  zone_id = 0;
  name = "";
  ttl = some 60;
  purpose = some RecordPurpose.ddns;
  include_wildcard = some false;
  acme_email = some "";
  zones = [];
  deferred = s.deferred ++ none ∷ [];
}

-- The callback that `prepareForm` defers, for the record that it keeps.
unfoldable pub on_prepared : Option Record → RecordForm → RecordForm
unfolding load_zones
on_prepared (some r) s =
    let t = if not (r.id == 0) || not (str_eq r.token "") then load_zones r.token s else s in
    record t { step = 2; auto_advance_suspended = false }
on_prepared none s = record s { step = 0; auto_advance_suspended = false }

unfoldable pub open_form : Option Record → RecordForm → RecordForm
unfolding prepare_form
open_form r s = emit open_drawer (prepare_form r (record s { record' = r }))

abbrev pub is_unspecified : RecordPurpose → Bool
is_unspecified RecordPurpose.unspecified = true
is_unspecified _ = false

abbrev pub is_ddns : RecordPurpose → Bool
is_ddns RecordPurpose.ddns = true
is_ddns _ = false

abbrev pub map_trim : Option String → Option String
map_trim none = none
map_trim (some t) = some (trim t)

abbrev name_of : Option Zone → Option String
name_of none = none
name_of (some z) = z.name

abbrev domain_of : Option Record → Option String
domain_of none = none
domain_of (some r) = r.domain

abbrev or_else : Option String → Option String → Option String
or_else none b = b
or_else (some a) b = some a

-- `zones.find(…)?.name?.trim() ?? record?.domain?.trim() ?? ''`
unfoldable pub domain : RecordForm → String
domain s =
    get_or
      (or_else (map_trim (name_of (find (λ z. z.id == s.zone_id) s.zones)))
        (map_trim (domain_of s.record')))
      ""

-- The fields of `this.record ?? { id: 0, … }`; those that the payload overwrites are empty here.
abbrev pub base_record : Option Record → Record
base_record (some r) = r
base_record none = record {
  id = 0;
  created_at = 0;
  updated_at = 0;
  token = "";
  zone_id = 0;
  domain = some "";
  name = "";
  ttl = 0;
  address_id = 0;
  address = none;
  purpose = some RecordPurpose.unspecified;
  include_wildcard = some false;
  certificate = none;
  acme_email = none;
}

unfoldable pub payload : RecordForm → Record
unfolding domain
payload s =
    let purpose = get_or s.purpose RecordPurpose.unspecified in
    let base = base_record s.record' in
    record base {
      token = s.token;
      zone_id = s.zone_id;
      domain = some (domain s);
      name = s.name;
      ttl = get_or s.ttl 0;
      purpose = some purpose;
      include_wildcard =
          some (if is_unspecified purpose then false else get_or s.include_wildcard false);
      acme_email = some (if is_ddns purpose then "" else trim (get_or s.acme_email ""));
    }

abbrev at_least_one : Option ℕ → Bool
at_least_one none = false
at_least_one (some n) = leb 1 n

abbrev is_some : Option RecordPurpose → Bool
is_some none = false
is_some (some p) = true

-- Angular's `Validators.required` for texts is the parameter `required`.
module _ (required : String → Bool) where
  unfoldable pub is_valid : RecordForm → Bool
  is_valid s =
      (not s.token_required || required s.token)
      && leb 1 s.zone_id
      && (required s.name && at_least_one s.ttl && is_some s.purpose)

  unfoldable pub save : RecordForm → RecordForm
  unfolding is_valid domain payload
  save s =
      if not (is_valid s)
      then s
      else if str_eq (domain s) ""
      then emit (error (some "Select a valid zone before saving.") "Save failed") s
      else emit (upsert (payload s)) (record s { saving = true })

unfoldable pub on_saved : Answer (Unit {0}) → RecordForm → RecordForm
on_saved (success _) s =
    emit close_drawer (emit (message "Record saved.") (emit saved (record s { saving = false })))
on_saved (failure e) s = emit (error e "Save failed") (record s { saving = false })
