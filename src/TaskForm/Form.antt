-- ===== src/TaskForm/Form.antt =====
-- The state of the form and its operations. The parameters are of the libraries: `required` is
-- Angular's validator for texts, `lower` is `toLowerCase`, and `stringify` is `JSON.stringify` of
-- an object of texts.
pub mod Payload
use Prim.Native.Char.{code}
use Prim.Native.String.{[], ◌∷◌}
use hdns.Prelude.{
  ℕ, zero, suc, ◌+◌, String, Bool, true, false, not, ◌&&◌, ◌||◌, Option, none, some, get_or, ◌==◌,
  leb, if◌then◌else◌, str_eq,
}
use mathlib.Core.List
use mathlib.Core.List.{List, ◌++◌}
use hdns.Model.Enums.{RecordPurpose, TaskTrigger}
use hdns.Model.Messages.{Task}
use hdns.TaskForm.Triggers.{
  trigger_options, trigger_options_for, normalize_trigger, trigger_supports_certificate,
  same_trigger,
}
use hdns.TaskForm.Headers.{HeaderRow, empty_row, validate_header_rows, serialize_headers}

-- The values of the controls.
pub record FormValue : Type 0 where
  pub name : String
  pub trigger_on : Option TaskTrigger
  pub method : String
  pub url : String
  pub headers : List HeaderRow
  pub body : Option String
  pub include_certificate : Option Bool
  pub certificate_format : Option String
  pub enabled : Option Bool

-- What the form does to the rest of the program.
pub data Effect : Type 0 where
  open_drawer close_drawer saved mark_touched : Effect
  upsert : Task → Effect
  message : String → Effect
  error : Option String → String → Effect

pub record TaskForm : Type 0 where
  pub task : Option Task
  pub record_id : ℕ
  pub record_purpose : RecordPurpose
  pub trigger_options : List TaskTrigger
  pub saving : Bool
  pub form : FormValue
  pub effects : List Effect

abbrev emit : Effect → TaskForm → TaskForm
emit e s = record s { effects = s.effects ++ List.◌∷◌ e List.[] }

unfoldable pub add_header_row : Option String → Option String → TaskForm → TaskForm
add_header_row key value s = record s {
  form = record s.form {
    headers = s.form.headers ++ List.◌∷◌ (record { key = key; value = value }) List.[];
  };
}

-- `removeAt(index)`
unfoldable pub remove_at {ℓ} : {A : Type ℓ} → ℕ → List A → List A
remove_at i List.[] = List.[]
remove_at zero (List.◌∷◌ x xs) = xs
remove_at (suc i) (List.◌∷◌ x xs) = List.◌∷◌ x (remove_at i xs)

abbrev if_none : List HeaderRow → List HeaderRow
if_none List.[] = List.◌∷◌ empty_row List.[]
if_none (List.◌∷◌ r rs) = List.◌∷◌ r rs

unfoldable pub remove_header_row : ℕ → TaskForm → TaskForm
unfolding remove_at
remove_header_row i s = record s {
  form = record s.form { headers = if_none (remove_at i s.form.headers) };
}

-- `a || b` on texts
abbrev or_text : String → String → String
or_text a b = if str_eq a "" then b else a

-- The values that `openForRecord` resets the form to.
unfoldable pub reset_value : List TaskTrigger → Option Task → FormValue
unfolding normalize_trigger trigger_supports_certificate
reset_value options (some task) =
    let trigger = normalize_trigger options (get_or task.trigger_on TaskTrigger.ip) in
    record {
      name = task.name;
      trigger_on = some trigger;
      method = or_text task.method "POST";
      url = task.url;
      headers = List.[];
      body = some (get_or task.body "");
      include_certificate = some (
          if trigger_supports_certificate trigger
          then get_or task.include_certificate false
          else false);
      certificate_format = some (or_text task.certificate_format "pem");
      enabled = some task.enabled;
    }
reset_value options none =
    let trigger = normalize_trigger options TaskTrigger.ip in
    record {
      name = "";
      trigger_on = some trigger;
      method = "POST";
      url = "";
      headers = List.[];
      body = some "";
      include_certificate = some false;
      certificate_format = some "pem";
      enabled = some true;
    }

-- `applyTriggerConstraints`
unfoldable pub constrain : List TaskTrigger → FormValue → FormValue
unfolding normalize_trigger trigger_supports_certificate
constrain options v =
    let trigger = normalize_trigger options (get_or v.trigger_on TaskTrigger.ip) in
    record v {
      trigger_on = some trigger;
      include_certificate =
          if trigger_supports_certificate trigger then v.include_certificate else some false;
    }

-- `openForRecord`; `resetHeaderRows` leaves one empty row.
unfoldable pub open_for_record : ℕ → RecordPurpose → Option Task → TaskForm → TaskForm
unfolding trigger_options_for reset_value constrain
open_for_record record_id purpose task s =
    let options = trigger_options_for purpose in
    let value = constrain options (reset_value options task) in
    emit open_drawer (record s {
      task = task;
      record_id = record_id;
      record_purpose = purpose;
      trigger_options = options;
      form = record value { headers = List.◌∷◌ empty_row List.[] };
    })

-- `open`
unfoldable pub open_unspecified : ℕ → Option Task → TaskForm → TaskForm
unfolding open_for_record
open_unspecified record_id task s = open_for_record record_id RecordPurpose.unspecified task s

unfoldable pub supports_certificate_payload : TaskForm → Bool
unfolding trigger_supports_certificate
supports_certificate_payload s =
    trigger_supports_certificate (get_or s.form.trigger_on TaskTrigger.unspecified)

-- The fields of `this.task ?? { id: 0, … }`.
abbrev pub base_task : Option Task → Task
base_task (some t) = t
base_task none = record {
  id = 0;
  created_at = 0;
  updated_at = 0;
  record_id = 0;
  name = "";
  trigger_on = none;
  method = "";
  url = "";
  headers = "";
  body = none;
  enabled = false;
  last_run = 0;
  last_status = "";
  last_error = "";
  include_certificate = none;
  certificate_format = "";
}

unfoldable pub build_payload : (List (String × String) → String) → TaskForm → Task
unfolding normalize_trigger trigger_supports_certificate serialize_headers
build_payload stringify s =
    let v = s.form in
    let trigger = normalize_trigger s.trigger_options (get_or v.trigger_on TaskTrigger.ip) in
    let base = base_task s.task in
    record base {
      record_id = s.record_id;
      name = v.name;
      trigger_on = some trigger;
      method = v.method;
      url = v.url;
      headers = serialize_headers stringify v.headers;
      body = some (get_or v.body "");
      include_certificate = some (
          if trigger_supports_certificate trigger
          then get_or v.include_certificate false
          else false);
      certificate_format = get_or v.certificate_format "pem";
      enabled = get_or v.enabled true;
    }

-- The letters of a pattern with the flag `i`.
abbrev letter : ℕ → ℕ → Bool
letter c low = c == low || c + 32 == low

-- `.+`, after which anything may follow
some_character : String → Bool
some_character [] = false
some_character (c ∷ s) = not (code c == 10 || code c == 13 || code c == 0x2028 || code c == 0x2029)

after_http : String → Bool
unfolding some_character
after_http (a ∷ (b ∷ (c ∷ s))) =
    code a == b':' && code b == b'/' && code c == b'/' && some_character s
after_http _ = false

optional_s : String → Bool
unfolding after_http
optional_s (c ∷ s) = (letter (code c) b's' && after_http s) || after_http (c ∷ s)
optional_s [] = false

-- `/^https?:\/\/.+/i`
unfoldable pub is_web_url : String → Bool
unfolding optional_s
is_web_url (a ∷ (b ∷ (c ∷ (d ∷ s)))) =
    letter (code a) b'h'
    && letter (code b) b't'
    && letter (code c) b't'
    && letter (code d) b'p'
    && optional_s s
is_web_url _ = false

abbrev is_none {ℓ} : {A : Type ℓ} → Option A → Bool
is_none none = true
is_none (some a) = false

module _ (required : String → Bool) (lower : String → String) where
  -- `!this.form.invalid`
  unfoldable pub is_valid : FormValue → Bool
  unfolding is_web_url validate_header_rows
  is_valid v =
      required v.name
      && not (is_none v.trigger_on)
      && required v.method
      && required v.url
      && is_web_url v.url
      && is_none (validate_header_rows lower v.headers)

  unfoldable pub save : (List (String × String) → String) → TaskForm → TaskForm
  unfolding is_valid build_payload
  save stringify s =
      if is_valid s.form
      then emit (upsert (build_payload stringify s)) (record s { saving = true })
      else emit mark_touched s

-- The answer to `upsertTask`: done, or `err?.error`.
unfoldable pub on_saved : Option (Option String) → TaskForm → TaskForm
on_saved none s =
    emit close_drawer (emit saved (emit (message "Task saved.") (record s { saving = false })))
on_saved (some e) s = emit (error e "Save failed") (record s { saving = false })
