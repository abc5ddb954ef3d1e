-- ===== src/TaskForm/Triggers.antt =====
-- Which triggers the form offers for a record, and how it puts a trigger among them.
use hdns.Prelude.{
  ◌≡◌, refl, inl, Bool, true, false, ◌&&◌, ◌||◌, List, [], ◌∷◌, arith, filter, any, In,
  if◌then◌else◌,
}
use hdns.Model.Enums.{RecordPurpose, TaskTrigger}

abbrev pub same_trigger : TaskTrigger → TaskTrigger → Bool
same_trigger TaskTrigger.unspecified TaskTrigger.unspecified = true
same_trigger TaskTrigger.ip TaskTrigger.ip = true
same_trigger TaskTrigger.cert TaskTrigger.cert = true
same_trigger TaskTrigger.both TaskTrigger.both = true
same_trigger TaskTrigger.unrecognized TaskTrigger.unrecognized = true
same_trigger _ _ = false

-- `TRIGGER_OPTIONS`, by their values
abbrev pub trigger_options : List TaskTrigger
trigger_options = TaskTrigger.ip ∷ TaskTrigger.cert ∷ TaskTrigger.both ∷ []

unfoldable pub trigger_options_for : RecordPurpose → List TaskTrigger
trigger_options_for RecordPurpose.ddns = filter (same_trigger TaskTrigger.ip) trigger_options
trigger_options_for RecordPurpose.cert = filter (same_trigger TaskTrigger.cert) trigger_options
trigger_options_for _ = trigger_options

unfoldable pub is_allowed_trigger : TaskTrigger → Bool
is_allowed_trigger t =
    same_trigger t TaskTrigger.ip
    || same_trigger t TaskTrigger.cert
    || same_trigger t TaskTrigger.both

abbrev pub first_or_ip : List TaskTrigger → TaskTrigger
first_or_ip [] = TaskTrigger.ip
first_or_ip (t ∷ ts) = t

unfoldable pub normalize_trigger : List TaskTrigger → TaskTrigger → TaskTrigger
unfolding is_allowed_trigger
normalize_trigger allowed trigger =
    if is_allowed_trigger trigger && any (same_trigger trigger) allowed
    then trigger
    else first_or_ip allowed

unfoldable pub trigger_supports_certificate : TaskTrigger → Bool
trigger_supports_certificate t = same_trigger t TaskTrigger.cert || same_trigger t TaskTrigger.both

-- Whatever the trigger, the normalised one is among the options that the form offers for the
-- record.
pub normalize_trigger-In :
    (p : RecordPurpose) (t : TaskTrigger)
    → In (normalize_trigger (trigger_options_for p) t) (trigger_options_for p)
unfolding normalize_trigger trigger_options_for
normalize_trigger-In RecordPurpose.unspecified TaskTrigger.unspecified = inl refl
normalize_trigger-In RecordPurpose.unspecified TaskTrigger.ip = inl refl
normalize_trigger-In p t = ground arith

-- A trigger that is among the options that the form offers for the record stays as it is.
pub normalize_trigger_fix :
    (p : RecordPurpose) (t : TaskTrigger)
    → In t (trigger_options_for p)
    → normalize_trigger (trigger_options_for p) t ≡ t
unfolding normalize_trigger trigger_options_for
normalize_trigger_fix p t h = ground arith
