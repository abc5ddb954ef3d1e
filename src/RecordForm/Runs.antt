-- ===== src/RecordForm/Runs.antt =====
-- The form in all runs.
use hdns.Prelude.{
  ◌≡◌, refl, String, Bool, true, false, not, ◌||◌, Option, none, some, List, [], ◌∷◌, ◌==◌, str_eq,
  if_cases, arith,
}
use hdns.Model.Enums.{RecordPurpose}
use hdns.Model.Messages.{Record, Zone}
use hdns.RecordsTable.State.{Answer, success, failure}
use hdns.RecordForm.Form.{
  RecordForm, Effect, emit, id_of, open_drawer, close_drawer, saved, get_zones, message, error,
  load_zones, on_token, on_zones, prepare_form, on_prepared, open_form, save, on_saved,
}
use hdns.RecordForm.Saving.{all_fit, all_fit-concat, save-fit}

abbrev pub new_form : RecordForm
new_form = record {
  record' = none;
  zones = [];
  zones_loading = false;
  saving = false;
  auto_advance_suspended = false;
  step = 0;
  token_required = true;
  token = "";
  zone_id = 0;
  name = "";
  ttl = some 60;
  purpose = some RecordPurpose.ddns;
  include_wildcard = some false;
  acme_email = some "";
  deferred = [];
  effects = [];
}

-- An effect that sends no record.
abbrev IsQuiet : Effect → Type 0
IsQuiet e = all_fit (e ∷ []) ≡ true

emit-all_fit :
    (e : Effect) (s : RecordForm)
    → IsQuiet e
    → all_fit s.effects ≡ true
    → all_fit (emit e s).effects ≡ true
emit-all_fit e s q h = rw (all_fit-concat s.effects e) (ground (arith, h, q))

load_zones-all_fit :
    (token : String) (s : RecordForm)
    → all_fit s.effects ≡ true
    → all_fit (load_zones token s).effects ≡ true
unfolding load_zones
load_zones-all_fit token s h = emit-all_fit (get_zones (id_of s.record') token) s refl h

on_token-all_fit :
    (token : String) (s : RecordForm)
    → all_fit s.effects ≡ true
    → all_fit (on_token token s).effects ≡ true
unfolding on_token
on_token-all_fit token s h =
    if_cases (λ t. all_fit t.effects ≡ true) (not (id_of s.record' == 0) || not (str_eq token ""))
      (load_zones token s) (record s { zones = []; zone_id = 0 })
      (λ e. load_zones-all_fit token s h) (λ e. h)

on_zones-all_fit :
    (answer : Answer (Option (List Zone))) (s : RecordForm)
    → all_fit s.effects ≡ true
    → all_fit (on_zones answer s).effects ≡ true
unfolding on_zones
on_zones-all_fit (success res) s h = h
on_zones-all_fit (failure e) s h = emit-all_fit (error e "Failed to load zones") s refl h

open_form-all_fit :
    (r : Option Record) (s : RecordForm)
    → all_fit s.effects ≡ true
    → all_fit (open_form r s).effects ≡ true
unfolding open_form prepare_form
open_form-all_fit none s h = emit-all_fit open_drawer s refl h
open_form-all_fit (some r) s h = emit-all_fit open_drawer s refl h

on_prepared-all_fit :
    (r : Option Record) (s : RecordForm)
    → all_fit s.effects ≡ true
    → all_fit (on_prepared r s).effects ≡ true
unfolding on_prepared
on_prepared-all_fit none s h = h
on_prepared-all_fit (some r) s h =
    if_cases (λ t. all_fit t.effects ≡ true) (not (r.id == 0) || not (str_eq r.token ""))
      (load_zones r.token s) s (λ e. load_zones-all_fit r.token s h) (λ e. h)

on_saved-all_fit :
    (answer : Answer (Unit {0})) (s : RecordForm)
    → all_fit s.effects ≡ true
    → all_fit (on_saved answer s).effects ≡ true
unfolding on_saved
on_saved-all_fit (success _) s h =
    let t = emit saved s in
    let u = emit (message "Record saved.") t in
    emit-all_fit close_drawer u refl
      (emit-all_fit (message "Record saved.") t refl (emit-all_fit saved s refl h))
on_saved-all_fit (failure e) s h = emit-all_fit (error e "Save failed") s refl h

module _ (required : String → Bool) where
  -- The form is opened for a record or for a new one, what was deferred runs, the token is typed,
  -- answers arrive, the user changes the controls and steps in any way, and saves.
  pub data Run : RecordForm → Type 0 where
    start : Run new_form
    opens : {s : RecordForm} (r : Option Record) → Run s → Run (open_form r s)
    prepared : {s : RecordForm} (r : Option Record) → Run s → Run (on_prepared r s)
    types : {s : RecordForm} (token : String) → Run s → Run (on_token token s)
    zones_arrive :
        {s : RecordForm} (answer : Answer (Option (List Zone))) → Run s → Run (on_zones answer s)
    edits : {s : RecordForm} (t : RecordForm) → Run s → t.effects ≡ s.effects → Run t
    saves : {s : RecordForm} → Run s → Run (save required s)
    saved_arrives : {s : RecordForm} (answer : Answer (Unit {0})) → Run s → Run (on_saved answer s)

module _ (required : String → Bool) (required-empty : required "" ≡ false) where
  -- In every run of the form, all records that it has sent have a zone, a name, a time to live of
  -- at least 1 and a domain, provided that the library's validator rejects the empty text.
  pub Run-all_fit : (s : RecordForm) → Run required s → all_fit s.effects ≡ true
  Run-all_fit s start = refl
  Run-all_fit s (opens {s = t} r p) = open_form-all_fit r t (Run-all_fit t p)
  Run-all_fit s (prepared {s = t} r p) = on_prepared-all_fit r t (Run-all_fit t p)
  Run-all_fit s (types {s = t} token p) = on_token-all_fit token t (Run-all_fit t p)
  Run-all_fit s (zones_arrive {s = t} answer p) = on_zones-all_fit answer t (Run-all_fit t p)
  Run-all_fit s (edits {s = t} _ p e) = rw e (Run-all_fit t p)
  Run-all_fit s (saves {s = t} p) = save-fit required required-empty t (Run-all_fit t p)
  Run-all_fit s (saved_arrives {s = t} answer p) = on_saved-all_fit answer t (Run-all_fit t p)
