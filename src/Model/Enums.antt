-- ===== src/Model/Enums.antt =====
-- frontend/src/app/global/model/api.ts: the enumerations `RecordPurpose` and `TaskTrigger` with
-- their JSON codecs.
use hdns.Prelude.{ℕ, zero, suc, String, ◌≡◌, refl, str_eq, if◌then◌else◌}

-- A value of type `any`, as far as the codecs tell values apart.
pub data AnyValue : Type 0 where
  number : ℕ → AnyValue
  text : String → AnyValue
  other : AnyValue

-- `unrecognized` is -1 in the source.
pub data RecordPurpose : Type 0 where
  unspecified ddns cert both unrecognized : RecordPurpose

pub data TaskTrigger : Type 0 where
  unspecified ip cert both unrecognized : TaskTrigger

pub RecordPurpose-discrete : Discrete RecordPurpose
RecordPurpose-discrete = hlevel

unfoldable pub record_purpose_from_json : AnyValue → RecordPurpose
record_purpose_from_json (number zero) = RecordPurpose.unspecified
record_purpose_from_json (number (suc zero)) = RecordPurpose.ddns
record_purpose_from_json (number (suc (suc zero))) = RecordPurpose.cert
record_purpose_from_json (number (suc (suc (suc zero)))) = RecordPurpose.both
record_purpose_from_json (number n) = RecordPurpose.unrecognized
record_purpose_from_json (text s) =
    if str_eq s "RECORD_PURPOSE_UNSPECIFIED"
    then RecordPurpose.unspecified
    else if str_eq s "RECORD_PURPOSE_DDNS"
    then RecordPurpose.ddns
    else if str_eq s "RECORD_PURPOSE_CERT"
    then RecordPurpose.cert
    else if str_eq s "RECORD_PURPOSE_BOTH"
    then RecordPurpose.both
    else RecordPurpose.unrecognized
record_purpose_from_json other = RecordPurpose.unrecognized

unfoldable pub record_purpose_to_json : RecordPurpose → String
record_purpose_to_json RecordPurpose.unspecified = "RECORD_PURPOSE_UNSPECIFIED"
record_purpose_to_json RecordPurpose.ddns = "RECORD_PURPOSE_DDNS"
record_purpose_to_json RecordPurpose.cert = "RECORD_PURPOSE_CERT"
record_purpose_to_json RecordPurpose.both = "RECORD_PURPOSE_BOTH"
record_purpose_to_json RecordPurpose.unrecognized = "UNRECOGNIZED"

unfoldable pub task_trigger_from_json : AnyValue → TaskTrigger
task_trigger_from_json (number zero) = TaskTrigger.unspecified
task_trigger_from_json (number (suc zero)) = TaskTrigger.ip
task_trigger_from_json (number (suc (suc zero))) = TaskTrigger.cert
task_trigger_from_json (number (suc (suc (suc zero)))) = TaskTrigger.both
task_trigger_from_json (number n) = TaskTrigger.unrecognized
task_trigger_from_json (text s) =
    if str_eq s "TASK_TRIGGER_UNSPECIFIED"
    then TaskTrigger.unspecified
    else if str_eq s "TASK_TRIGGER_IP"
    then TaskTrigger.ip
    else if str_eq s "TASK_TRIGGER_CERT"
    then TaskTrigger.cert
    else if str_eq s "TASK_TRIGGER_BOTH"
    then TaskTrigger.both
    else TaskTrigger.unrecognized
task_trigger_from_json other = TaskTrigger.unrecognized

unfoldable pub task_trigger_to_json : TaskTrigger → String
task_trigger_to_json TaskTrigger.unspecified = "TASK_TRIGGER_UNSPECIFIED"
task_trigger_to_json TaskTrigger.ip = "TASK_TRIGGER_IP"
task_trigger_to_json TaskTrigger.cert = "TASK_TRIGGER_CERT"
task_trigger_to_json TaskTrigger.both = "TASK_TRIGGER_BOTH"
task_trigger_to_json TaskTrigger.unrecognized = "UNRECOGNIZED"

-- Both codecs round-trip: reading the JSON name that is written for a purpose, or for a trigger,
-- gives it back, for each of the five values of either enumeration.
pub enums_round_trip :
    ((p : RecordPurpose) → record_purpose_from_json (text (record_purpose_to_json p)) ≡ p)
    × ((t : TaskTrigger) → task_trigger_from_json (text (task_trigger_to_json t)) ≡ t)
unfolding record_purpose_from_json record_purpose_to_json task_trigger_from_json
    task_trigger_to_json
enums_round_trip = (
  elim [
    | RecordPurpose.unspecified ↦ refl
    | RecordPurpose.ddns ↦ refl
    | RecordPurpose.cert ↦ refl
    | RecordPurpose.both ↦ refl
    | RecordPurpose.unrecognized ↦ refl
  ],
  elim [
    | TaskTrigger.unspecified ↦ refl
    | TaskTrigger.ip ↦ refl
    | TaskTrigger.cert ↦ refl
    | TaskTrigger.both ↦ refl
    | TaskTrigger.unrecognized ↦ refl
  ],
)
