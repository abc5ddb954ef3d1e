-- ===== src/TaskForm/Form/Payload.antt =====
-- What the form sends.
use hdns.Prelude.{
  ◌≡◌, ◌≢◌, refl, String, Bool, false, not, ◌&&◌, some, List, [], ◌∷◌, get_or, eq_iff, arith, In,
  trim, is_blank,
}
use hdns.Model.Enums.{RecordPurpose, TaskTrigger}
use hdns.Model.Messages.{Task}
use hdns.TaskForm.Triggers.{
  trigger_options_for, trigger_supports_certificate, normalize_trigger-In, normalize_trigger_fix,
}
use hdns.TaskForm.Headers.{empty_row, collect, serialize_headers}
use hdns.TaskForm.Form.{TaskForm, open_for_record, build_payload}

-- The trigger and the flag of a payload.
abbrev pub trigger_of : Task → TaskTrigger
trigger_of t = get_or t.trigger_on TaskTrigger.unspecified

-- Whatever was put into the form for a record, the task that it sends has one of the triggers that
-- are offered for the record, and asks for the certificate only with a trigger that supports it.
pub build_payload-IsOffered :
    (stringify : List (String × String) → String) (s : TaskForm)
    → s.trigger_options ≡ trigger_options_for s.record_purpose
    → In (trigger_of (build_payload stringify s)) (trigger_options_for s.record_purpose)
      × ((get_or (build_payload stringify s).include_certificate false
            && not (trigger_supports_certificate (trigger_of (build_payload stringify s))))
          ≡ false)
unfolding build_payload
build_payload-IsOffered stringify s e = rw e (normalize_trigger-In s.record_purpose _, ground arith)

-- One empty row makes no headers.
serialize-empty :
    (stringify : List (String × String) → String)
    → serialize_headers stringify (empty_row ∷ []) ≡ ""
unfolding serialize_headers collect trim is_blank
serialize-empty stringify = refl

-- Opening the form for a task and sending it with nothing changed sends the task as it was, but for
-- the headers, which are sent empty: the task is one of the record, its trigger is offered for the
-- record, it has a body, a method and a format, and it asks for the certificate only with a trigger
-- that supports it.
pub edit_unchanged :
    (stringify : List (String × String) → String) (s : TaskForm) (p : RecordPurpose) (t : Task)
    (trigger : TaskTrigger) (include : Bool) (body : String)
    → t.trigger_on ≡ some trigger
    → In trigger (trigger_options_for p)
    → t.include_certificate ≡ some include
    → (include && not (trigger_supports_certificate trigger)) ≡ false
    → t.body ≡ some body
    → t.method ≢ ""
    → t.certificate_format ≢ ""
    → build_payload stringify (open_for_record t.record_id p (some t) s) ≡ record t { headers = "" }
unfolding build_payload open_for_record
edit_unchanged stringify s p t trigger include body et offered ei supported eb em ef =
    let fix = normalize_trigger_fix p trigger offered in
    ground
      (arith, fix, serialize-empty stringify, eq_iff t.method "", eq_iff t.certificate_format "")
