-- ===== src/Codec/Kinds.antt =====
-- frontend/src/app/global/model/api.ts: all messages under one roof, with the codec of each. A service of
-- the source is generic in its message in the same way, by `MessageFns<T>`.
pub mod RoundTrip
pub mod Ends
pub mod Json
pub mod Respelled
mod Tests
mod JsonTests
use hdns.Prelude.{ℕ, Option, List}
use hdns.Codec.Wire.{Wire, Bytes}
use hdns.Codec.Clauses.{Outcome, Clause}
use hdns.Codec.Messages.{
  EmptyMessage, LineMessage, RequestMessage, AddressMessage, AddressHistoryMessage, ZoneMessage,
  ZoneListMessage, ResolutionMessage, ResolutionResultMessage, LogEntryMessage, CertificateMessage,
  CertificateListMessage, CertificateArtifactMessage, CertificateIssuanceJobMessage,
  CertificateTaskRunMessage, CertificateDetailsMessage, RecordMessage, RecordListMessage,
  RecordDeleteMessage, TaskMessage, TaskListMessage, TaskDeleteMessage, TaskResultMessage,
  ConfigurationMessage,
}
use hdns.Codec.Base.{
  create_base_empty, create_base_line, create_base_request, create_base_address,
  create_base_address_history, create_base_zone, create_base_zone_list, create_base_resolution,
  create_base_resolution_result, create_base_log_entry, create_base_certificate,
  create_base_certificate_list, create_base_certificate_artifact,
  create_base_certificate_issuance_job, create_base_certificate_task_run,
  create_base_certificate_details, create_base_record, create_base_record_list,
  create_base_record_delete, create_base_task, create_base_task_list, create_base_task_delete,
  create_base_task_result, create_base_configuration,
}
use hdns.Codec.Addresses.{
  empty_fields, encode_empty, empty_cases, decode_empty, line_fields, encode_line, line_cases,
  decode_line, request_fields, encode_request, request_cases, decode_request, address_fields,
  encode_address, address_cases, decode_address, address_history_fields, encode_address_history,
  address_history_cases, decode_address_history,
}
use hdns.Codec.Zones.{
  zone_fields, encode_zone, zone_cases, decode_zone, zone_list_fields, encode_zone_list,
  zone_list_cases, decode_zone_list, resolution_fields, encode_resolution, resolution_cases,
  decode_resolution, resolution_result_fields, encode_resolution_result, resolution_result_cases,
  decode_resolution_result, log_entry_fields, encode_log_entry, log_entry_cases, decode_log_entry,
}
use hdns.Codec.Certificates.{
  certificate_fields, encode_certificate, certificate_cases, decode_certificate,
  certificate_list_fields, encode_certificate_list, certificate_list_cases, decode_certificate_list,
}
use hdns.Codec.Issuance.{
  certificate_artifact_fields, encode_certificate_artifact, certificate_artifact_cases,
  decode_certificate_artifact, certificate_issuance_job_fields, encode_certificate_issuance_job,
  certificate_issuance_job_cases, decode_certificate_issuance_job, certificate_task_run_fields,
  encode_certificate_task_run, certificate_task_run_cases, decode_certificate_task_run,
  certificate_details_fields, encode_certificate_details, certificate_details_cases,
  decode_certificate_details,
}
use hdns.Codec.Records.{
  record_fields, encode_record, record_cases, decode_record, record_list_fields, encode_record_list,
  record_list_cases, decode_record_list, record_delete_fields, encode_record_delete,
  record_delete_cases, decode_record_delete,
}
use hdns.Codec.Tasks.{
  task_fields, encode_task, task_cases, decode_task, task_list_fields, encode_task_list,
  task_list_cases, decode_task_list, task_delete_fields, encode_task_delete, task_delete_cases,
  decode_task_delete, task_result_fields, encode_task_result, task_result_cases, decode_task_result,
}
use hdns.Codec.Settings.{
  configuration_fields, encode_configuration, configuration_cases, decode_configuration,
}
use hdns.Codec.Addresses.RoundTrip.{IsEmpty, IsLine, IsRequest, IsAddress, IsAddressHistory}
use hdns.Codec.Zones.RoundTrip.{IsZone, IsZoneList, IsResolution, IsResolutionResult, IsLogEntry}
use hdns.Codec.Certificates.RoundTrip.{IsCertificate, IsCertificateList}
use hdns.Codec.Issuance.RoundTrip.{
  IsCertificateArtifact, IsCertificateIssuanceJob, IsCertificateTaskRun, IsCertificateDetails,
}
use hdns.Codec.Records.RoundTrip.{IsRecord, IsRecordList, IsRecordDelete}
use hdns.Codec.Tasks.RoundTrip.{IsTask, IsTaskList, IsTaskDelete, IsTaskResult}
use hdns.Codec.Settings.RoundTrip.{IsConfiguration}

pub data Kind : Type 0 where
  empty line request address address_history zone zone_list resolution resolution_result log_entry
        certificate certificate_list certificate_artifact certificate_issuance_job
        certificate_task_run certificate_details record' record_list record_delete task task_list
        task_delete task_result configuration :
      Kind

abbrev pub Message : Kind → Type 0
Message Kind.empty = EmptyMessage
Message Kind.line = LineMessage
Message Kind.request = RequestMessage
Message Kind.address = AddressMessage
Message Kind.address_history = AddressHistoryMessage
Message Kind.zone = ZoneMessage
Message Kind.zone_list = ZoneListMessage
Message Kind.resolution = ResolutionMessage
Message Kind.resolution_result = ResolutionResultMessage
Message Kind.log_entry = LogEntryMessage
Message Kind.certificate = CertificateMessage
Message Kind.certificate_list = CertificateListMessage
Message Kind.certificate_artifact = CertificateArtifactMessage
Message Kind.certificate_issuance_job = CertificateIssuanceJobMessage
Message Kind.certificate_task_run = CertificateTaskRunMessage
Message Kind.certificate_details = CertificateDetailsMessage
Message Kind.record' = RecordMessage
Message Kind.record_list = RecordListMessage
Message Kind.record_delete = RecordDeleteMessage
Message Kind.task = TaskMessage
Message Kind.task_list = TaskListMessage
Message Kind.task_delete = TaskDeleteMessage
Message Kind.task_result = TaskResultMessage
Message Kind.configuration = ConfigurationMessage

abbrev pub base : (k : Kind) → Message k
base Kind.empty = create_base_empty
base Kind.line = create_base_line
base Kind.request = create_base_request
base Kind.address = create_base_address
base Kind.address_history = create_base_address_history
base Kind.zone = create_base_zone
base Kind.zone_list = create_base_zone_list
base Kind.resolution = create_base_resolution
base Kind.resolution_result = create_base_resolution_result
base Kind.log_entry = create_base_log_entry
base Kind.certificate = create_base_certificate
base Kind.certificate_list = create_base_certificate_list
base Kind.certificate_artifact = create_base_certificate_artifact
base Kind.certificate_issuance_job = create_base_certificate_issuance_job
base Kind.certificate_task_run = create_base_certificate_task_run
base Kind.certificate_details = create_base_certificate_details
base Kind.record' = create_base_record
base Kind.record_list = create_base_record_list
base Kind.record_delete = create_base_record_delete
base Kind.task = create_base_task
base Kind.task_list = create_base_task_list
base Kind.task_delete = create_base_task_delete
base Kind.task_result = create_base_task_result
base Kind.configuration = create_base_configuration

module _ (w : Wire) where
  abbrev pub encode : (k : Kind) → Message k → Option Bytes
  encode Kind.empty = encode_empty w
  encode Kind.line = encode_line w
  encode Kind.request = encode_request w
  encode Kind.address = encode_address w
  encode Kind.address_history = encode_address_history w
  encode Kind.zone = encode_zone w
  encode Kind.zone_list = encode_zone_list w
  encode Kind.resolution = encode_resolution w
  encode Kind.resolution_result = encode_resolution_result w
  encode Kind.log_entry = encode_log_entry w
  encode Kind.certificate = encode_certificate w
  encode Kind.certificate_list = encode_certificate_list w
  encode Kind.certificate_artifact = encode_certificate_artifact w
  encode Kind.certificate_issuance_job = encode_certificate_issuance_job w
  encode Kind.certificate_task_run = encode_certificate_task_run w
  encode Kind.certificate_details = encode_certificate_details w
  encode Kind.record' = encode_record w
  encode Kind.record_list = encode_record_list w
  encode Kind.record_delete = encode_record_delete w
  encode Kind.task = encode_task w
  encode Kind.task_list = encode_task_list w
  encode Kind.task_delete = encode_task_delete w
  encode Kind.task_result = encode_task_result w
  encode Kind.configuration = encode_configuration w

  abbrev pub decode : (k : Kind) → ℕ → Bytes → Outcome (Message k × Bytes)
  decode Kind.empty = decode_empty w
  decode Kind.line = decode_line w
  decode Kind.request = decode_request w
  decode Kind.address = decode_address w
  decode Kind.address_history = decode_address_history w
  decode Kind.zone = decode_zone w
  decode Kind.zone_list = decode_zone_list w
  decode Kind.resolution = decode_resolution w
  decode Kind.resolution_result = decode_resolution_result w
  decode Kind.log_entry = decode_log_entry w
  decode Kind.certificate = decode_certificate w
  decode Kind.certificate_list = decode_certificate_list w
  decode Kind.certificate_artifact = decode_certificate_artifact w
  decode Kind.certificate_issuance_job = decode_certificate_issuance_job w
  decode Kind.certificate_task_run = decode_certificate_task_run w
  decode Kind.certificate_details = decode_certificate_details w
  decode Kind.record' = decode_record w
  decode Kind.record_list = decode_record_list w
  decode Kind.record_delete = decode_record_delete w
  decode Kind.task = decode_task w
  decode Kind.task_list = decode_task_list w
  decode Kind.task_delete = decode_task_delete w
  decode Kind.task_result = decode_task_result w
  decode Kind.configuration = decode_configuration w

  -- The fields that `encode` writes, and the clauses that `decode` tries.
  abbrev pub fields : (k : Kind) → Message k → List (Option Bytes)
  fields Kind.empty = empty_fields w
  fields Kind.line = line_fields w
  fields Kind.request = request_fields w
  fields Kind.address = address_fields w
  fields Kind.address_history = address_history_fields w
  fields Kind.zone = zone_fields w
  fields Kind.zone_list = zone_list_fields w
  fields Kind.resolution = resolution_fields w
  fields Kind.resolution_result = resolution_result_fields w
  fields Kind.log_entry = log_entry_fields w
  fields Kind.certificate = certificate_fields w
  fields Kind.certificate_list = certificate_list_fields w
  fields Kind.certificate_artifact = certificate_artifact_fields w
  fields Kind.certificate_issuance_job = certificate_issuance_job_fields w
  fields Kind.certificate_task_run = certificate_task_run_fields w
  fields Kind.certificate_details = certificate_details_fields w
  fields Kind.record' = record_fields w
  fields Kind.record_list = record_list_fields w
  fields Kind.record_delete = record_delete_fields w
  fields Kind.task = task_fields w
  fields Kind.task_list = task_list_fields w
  fields Kind.task_delete = task_delete_fields w
  fields Kind.task_result = task_result_fields w
  fields Kind.configuration = configuration_fields w

  abbrev pub cases : (k : Kind) → List (Clause (Message k))
  cases Kind.empty = empty_cases w
  cases Kind.line = line_cases w
  cases Kind.request = request_cases w
  cases Kind.address = address_cases w
  cases Kind.address_history = address_history_cases w
  cases Kind.zone = zone_cases w
  cases Kind.zone_list = zone_list_cases w
  cases Kind.resolution = resolution_cases w
  cases Kind.resolution_result = resolution_result_cases w
  cases Kind.log_entry = log_entry_cases w
  cases Kind.certificate = certificate_cases w
  cases Kind.certificate_list = certificate_list_cases w
  cases Kind.certificate_artifact = certificate_artifact_cases w
  cases Kind.certificate_issuance_job = certificate_issuance_job_cases w
  cases Kind.certificate_task_run = certificate_task_run_cases w
  cases Kind.certificate_details = certificate_details_cases w
  cases Kind.record' = record_cases w
  cases Kind.record_list = record_list_cases w
  cases Kind.record_delete = record_delete_cases w
  cases Kind.task = task_cases w
  cases Kind.task_list = task_list_cases w
  cases Kind.task_delete = task_delete_cases w
  cases Kind.task_result = task_result_cases w
  cases Kind.configuration = configuration_cases w

  abbrev pub IsEncodable : (k : Kind) → Message k → Type 0
  IsEncodable Kind.empty = IsEmpty w
  IsEncodable Kind.line = IsLine w
  IsEncodable Kind.request = IsRequest w
  IsEncodable Kind.address = IsAddress w
  IsEncodable Kind.address_history = IsAddressHistory w
  IsEncodable Kind.zone = IsZone w
  IsEncodable Kind.zone_list = IsZoneList w
  IsEncodable Kind.resolution = IsResolution w
  IsEncodable Kind.resolution_result = IsResolutionResult w
  IsEncodable Kind.log_entry = IsLogEntry w
  IsEncodable Kind.certificate = IsCertificate w
  IsEncodable Kind.certificate_list = IsCertificateList w
  IsEncodable Kind.certificate_artifact = IsCertificateArtifact w
  IsEncodable Kind.certificate_issuance_job = IsCertificateIssuanceJob w
  IsEncodable Kind.certificate_task_run = IsCertificateTaskRun w
  IsEncodable Kind.certificate_details = IsCertificateDetails w
  IsEncodable Kind.record' = IsRecord w
  IsEncodable Kind.record_list = IsRecordList w
  IsEncodable Kind.record_delete = IsRecordDelete w
  IsEncodable Kind.task = IsTask w
  IsEncodable Kind.task_list = IsTaskList w
  IsEncodable Kind.task_delete = IsTaskDelete w
  IsEncodable Kind.task_result = IsTaskResult w
  IsEncodable Kind.configuration = IsConfiguration w
