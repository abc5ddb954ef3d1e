-- ===== src/Codec/Kinds/Json.antt =====
-- `fromJSON` and `toJSON` of all messages.
use hdns.Prelude.{◌≡◌, refl, Bool, true, false, Option, none, some, if◌then◌else◌}
use hdns.Codec.Json.{Json, undefined, null, object, end, Host, HostLaws}
use hdns.Codec.Json.Read.{
  get, get_optional, lookup, first_set, number_in, decimal_in, text_in, boolean_in, purpose_in,
  trigger_in, message_in, messages_in, first_array, read_items,
}
use hdns.Codec.Kinds.{Kind, Message, base}
use hdns.Codec.Addresses.Json.{
  to_json_empty, from_json_empty, to_json_line, from_json_line, to_json_request, from_json_request,
  to_json_address, from_json_address, to_json_address_history, from_json_address_history,
}
use hdns.Codec.Addresses.Json.Back.{
  IsKnownEmpty, from_json-to_json_empty, IsKnownLine, from_json-to_json_line, IsKnownRequest,
  from_json-to_json_request, IsKnownAddress, from_json-to_json_address, IsKnownAddressHistory,
  from_json-to_json_address_history,
}
use hdns.Codec.Zones.Json.{
  to_json_zone, from_json_zone, to_json_zone_list, from_json_zone_list, to_json_resolution,
  from_json_resolution, to_json_resolution_result, from_json_resolution_result, to_json_log_entry,
  from_json_log_entry,
}
use hdns.Codec.Zones.Json.Back.{
  IsKnownZone, from_json-to_json_zone, IsKnownZoneList, from_json-to_json_zone_list,
  IsKnownResolution, from_json-to_json_resolution, IsKnownResolutionResult,
  from_json-to_json_resolution_result, IsKnownLogEntry, from_json-to_json_log_entry,
}
use hdns.Codec.Certificates.Json.{
  to_json_certificate, from_json_certificate, to_json_certificate_list, from_json_certificate_list,
}
use hdns.Codec.Certificates.Json.Back.{
  IsKnownCertificate, from_json-to_json_certificate, IsKnownCertificateList,
  from_json-to_json_certificate_list,
}
use hdns.Codec.Issuance.Json.{
  to_json_certificate_artifact, from_json_certificate_artifact, to_json_certificate_issuance_job,
  from_json_certificate_issuance_job, to_json_certificate_task_run, from_json_certificate_task_run,
  to_json_certificate_details, from_json_certificate_details,
}
use hdns.Codec.Issuance.Json.Back.{
  IsKnownCertificateArtifact, from_json-to_json_certificate_artifact, IsKnownCertificateIssuanceJob,
  from_json-to_json_certificate_issuance_job, IsKnownCertificateTaskRun,
  from_json-to_json_certificate_task_run, IsKnownCertificateDetails,
  from_json-to_json_certificate_details,
}
use hdns.Codec.Records.Json.{
  to_json_record, from_json_record, to_json_record_list, from_json_record_list,
  to_json_record_delete, from_json_record_delete,
}
use hdns.Codec.Records.Json.Back.{
  IsKnownRecord, from_json-to_json_record, IsKnownRecordList, from_json-to_json_record_list,
  IsKnownRecordDelete, from_json-to_json_record_delete,
}
use hdns.Codec.Tasks.Json.{
  to_json_task, from_json_task, to_json_task_list, from_json_task_list, to_json_task_delete,
  from_json_task_delete, to_json_task_result, from_json_task_result,
}
use hdns.Codec.Tasks.Json.Back.{
  IsKnownTask, from_json-to_json_task, IsKnownTaskList, from_json-to_json_task_list,
  IsKnownTaskDelete, from_json-to_json_task_delete, IsKnownTaskResult,
  from_json-to_json_task_result,
}
use hdns.Codec.Settings.Json.{to_json_configuration, from_json_configuration}
use hdns.Codec.Settings.Json.Back.{IsKnownConfiguration, from_json-to_json_configuration}

abbrev pub to_json : (k : Kind) → Message k → Json
to_json Kind.empty = to_json_empty
to_json Kind.line = to_json_line
to_json Kind.request = to_json_request
to_json Kind.address = to_json_address
to_json Kind.address_history = to_json_address_history
to_json Kind.zone = to_json_zone
to_json Kind.zone_list = to_json_zone_list
to_json Kind.resolution = to_json_resolution
to_json Kind.resolution_result = to_json_resolution_result
to_json Kind.log_entry = to_json_log_entry
to_json Kind.certificate = to_json_certificate
to_json Kind.certificate_list = to_json_certificate_list
to_json Kind.certificate_artifact = to_json_certificate_artifact
to_json Kind.certificate_issuance_job = to_json_certificate_issuance_job
to_json Kind.certificate_task_run = to_json_certificate_task_run
to_json Kind.certificate_details = to_json_certificate_details
to_json Kind.record' = to_json_record
to_json Kind.record_list = to_json_record_list
to_json Kind.record_delete = to_json_record_delete
to_json Kind.task = to_json_task
to_json Kind.task_list = to_json_task_list
to_json Kind.task_delete = to_json_task_delete
to_json Kind.task_result = to_json_task_result
to_json Kind.configuration = to_json_configuration

abbrev pub IsKnown : (k : Kind) → Message k → Type 0
IsKnown Kind.empty = IsKnownEmpty
IsKnown Kind.line = IsKnownLine
IsKnown Kind.request = IsKnownRequest
IsKnown Kind.address = IsKnownAddress
IsKnown Kind.address_history = IsKnownAddressHistory
IsKnown Kind.zone = IsKnownZone
IsKnown Kind.zone_list = IsKnownZoneList
IsKnown Kind.resolution = IsKnownResolution
IsKnown Kind.resolution_result = IsKnownResolutionResult
IsKnown Kind.log_entry = IsKnownLogEntry
IsKnown Kind.certificate = IsKnownCertificate
IsKnown Kind.certificate_list = IsKnownCertificateList
IsKnown Kind.certificate_artifact = IsKnownCertificateArtifact
IsKnown Kind.certificate_issuance_job = IsKnownCertificateIssuanceJob
IsKnown Kind.certificate_task_run = IsKnownCertificateTaskRun
IsKnown Kind.certificate_details = IsKnownCertificateDetails
IsKnown Kind.record' = IsKnownRecord
IsKnown Kind.record_list = IsKnownRecordList
IsKnown Kind.record_delete = IsKnownRecordDelete
IsKnown Kind.task = IsKnownTask
IsKnown Kind.task_list = IsKnownTaskList
IsKnown Kind.task_delete = IsKnownTaskDelete
IsKnown Kind.task_result = IsKnownTaskResult
IsKnown Kind.configuration = IsKnownConfiguration

-- The messages that have lists alone, or nothing: their fields are read by `object?.…`.
abbrev pub has_lists_alone : Kind → Bool
has_lists_alone Kind.empty = true
has_lists_alone Kind.address_history = true
has_lists_alone Kind.zone_list = true
has_lists_alone Kind.resolution_result = true
has_lists_alone Kind.certificate_list = true
has_lists_alone Kind.record_list = true
has_lists_alone Kind.task_list = true
has_lists_alone _ = false

module _ (host : Host) where
  abbrev pub from_json : (k : Kind) → Json → Option (Message k)
  from_json Kind.empty = from_json_empty host
  from_json Kind.line = from_json_line host
  from_json Kind.request = from_json_request host
  from_json Kind.address = from_json_address host
  from_json Kind.address_history = from_json_address_history host
  from_json Kind.zone = from_json_zone host
  from_json Kind.zone_list = from_json_zone_list host
  from_json Kind.resolution = from_json_resolution host
  from_json Kind.resolution_result = from_json_resolution_result host
  from_json Kind.log_entry = from_json_log_entry host
  from_json Kind.certificate = from_json_certificate host
  from_json Kind.certificate_list = from_json_certificate_list host
  from_json Kind.certificate_artifact = from_json_certificate_artifact host
  from_json Kind.certificate_issuance_job = from_json_certificate_issuance_job host
  from_json Kind.certificate_task_run = from_json_certificate_task_run host
  from_json Kind.certificate_details = from_json_certificate_details host
  from_json Kind.record' = from_json_record host
  from_json Kind.record_list = from_json_record_list host
  from_json Kind.record_delete = from_json_record_delete host
  from_json Kind.task = from_json_task host
  from_json Kind.task_list = from_json_task_list host
  from_json Kind.task_delete = from_json_task_delete host
  from_json Kind.task_result = from_json_task_result host
  from_json Kind.configuration = from_json_configuration host

  -- What `toJSON` makes of a message, `fromJSON` reads as the same message, for all 24 messages, if their
  -- enumerations have a number that the source names, and if `Number`, `String` and `Boolean` leave a
  -- number, a text and a truth value as they are.
  pub from_json-to_json :
      HostLaws host → (k : Kind) (m : Message k) → IsKnown k m → from_json k (to_json k m) ≡ some m
  from_json-to_json laws Kind.empty = from_json-to_json_empty host laws
  from_json-to_json laws Kind.line = from_json-to_json_line host laws
  from_json-to_json laws Kind.request = from_json-to_json_request host laws
  from_json-to_json laws Kind.address = from_json-to_json_address host laws
  from_json-to_json laws Kind.address_history = from_json-to_json_address_history host laws
  from_json-to_json laws Kind.zone = from_json-to_json_zone host laws
  from_json-to_json laws Kind.zone_list = from_json-to_json_zone_list host laws
  from_json-to_json laws Kind.resolution = from_json-to_json_resolution host laws
  from_json-to_json laws Kind.resolution_result = from_json-to_json_resolution_result host laws
  from_json-to_json laws Kind.log_entry = from_json-to_json_log_entry host laws
  from_json-to_json laws Kind.certificate = from_json-to_json_certificate host laws
  from_json-to_json laws Kind.certificate_list = from_json-to_json_certificate_list host laws
  from_json-to_json laws Kind.certificate_artifact =
      from_json-to_json_certificate_artifact host laws
  from_json-to_json laws Kind.certificate_issuance_job =
      from_json-to_json_certificate_issuance_job host laws
  from_json-to_json laws Kind.certificate_task_run =
      from_json-to_json_certificate_task_run host laws
  from_json-to_json laws Kind.certificate_details = from_json-to_json_certificate_details host laws
  from_json-to_json laws Kind.record' = from_json-to_json_record host laws
  from_json-to_json laws Kind.record_list = from_json-to_json_record_list host laws
  from_json-to_json laws Kind.record_delete = from_json-to_json_record_delete host laws
  from_json-to_json laws Kind.task = from_json-to_json_task host laws
  from_json-to_json laws Kind.task_list = from_json-to_json_task_list host laws
  from_json-to_json laws Kind.task_delete = from_json-to_json_task_delete host laws
  from_json-to_json laws Kind.task_result = from_json-to_json_task_result host laws
  from_json-to_json laws Kind.configuration = from_json-to_json_configuration host laws

  -- An object without properties is read as the message that `createBase…` makes. For `null` and
  -- `undefined`, `fromJSON` throws, but for the messages that have lists alone, or nothing: they are
  -- read as without properties.
  pub from_json_nothing :
      (k : Kind)
      → (from_json k (object end) ≡ some (base k))
        × (from_json k null ≡ (if has_lists_alone k then some (base k) else none))
        × (from_json k undefined ≡ (if has_lists_alone k then some (base k) else none))
  unfolding get get_optional lookup first_set number_in decimal_in text_in boolean_in purpose_in
      trigger_in message_in messages_in first_array read_items from_json_empty from_json_line
      from_json_request from_json_address from_json_address_history from_json_zone
      from_json_zone_list from_json_resolution from_json_resolution_result from_json_log_entry
      from_json_certificate from_json_certificate_list from_json_certificate_artifact
      from_json_certificate_issuance_job from_json_certificate_task_run
      from_json_certificate_details from_json_record from_json_record_list from_json_record_delete
      from_json_task from_json_task_list from_json_task_delete from_json_task_result
      from_json_configuration
  from_json_nothing Kind.empty = (refl, refl, refl)
  from_json_nothing Kind.line = (refl, refl, refl)
  from_json_nothing Kind.request = (refl, refl, refl)
  from_json_nothing Kind.address = (refl, refl, refl)
  from_json_nothing Kind.address_history = (refl, refl, refl)
  from_json_nothing Kind.zone = (refl, refl, refl)
  from_json_nothing Kind.zone_list = (refl, refl, refl)
  from_json_nothing Kind.resolution = (refl, refl, refl)
  from_json_nothing Kind.resolution_result = (refl, refl, refl)
  from_json_nothing Kind.log_entry = (refl, refl, refl)
  from_json_nothing Kind.certificate = (refl, refl, refl)
  from_json_nothing Kind.certificate_list = (refl, refl, refl)
  from_json_nothing Kind.certificate_artifact = (refl, refl, refl)
  from_json_nothing Kind.certificate_issuance_job = (refl, refl, refl)
  from_json_nothing Kind.certificate_task_run = (refl, refl, refl)
  from_json_nothing Kind.certificate_details = (refl, refl, refl)
  from_json_nothing Kind.record' = (refl, refl, refl)
  from_json_nothing Kind.record_list = (refl, refl, refl)
  from_json_nothing Kind.record_delete = (refl, refl, refl)
  from_json_nothing Kind.task = (refl, refl, refl)
  from_json_nothing Kind.task_list = (refl, refl, refl)
  from_json_nothing Kind.task_delete = (refl, refl, refl)
  from_json_nothing Kind.task_result = (refl, refl, refl)
  from_json_nothing Kind.configuration = (refl, refl, refl)
