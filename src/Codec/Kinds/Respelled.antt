-- ===== src/Codec/Kinds/Respelled.antt =====
-- `fromJSON` reads the properties of an object in either of their spellings.
use hdns.Prelude.{String, ◌≡◌, refl, ap, ◌∙◌, some, List, All}
use hdns.Codec.Json.{Json, object, Props, end, Host, HostLaws}
use hdns.Codec.Json.Agree.{Agree}
use hdns.Codec.Kinds.{Kind, Message}
use hdns.Codec.Kinds.Json.{to_json, from_json, IsKnown, from_json-to_json}
use hdns.Codec.Addresses.Json.{
  to_json_empty, to_json_line, to_json_request, to_json_address, to_json_address_history,
}
use hdns.Codec.Zones.Json.{
  to_json_zone, to_json_zone_list, to_json_resolution, to_json_resolution_result, to_json_log_entry,
}
use hdns.Codec.Certificates.Json.{to_json_certificate, to_json_certificate_list}
use hdns.Codec.Issuance.Json.{
  to_json_certificate_artifact, to_json_certificate_issuance_job, to_json_certificate_task_run,
  to_json_certificate_details,
}
use hdns.Codec.Records.Json.{to_json_record, to_json_record_list, to_json_record_delete}
use hdns.Codec.Tasks.Json.{
  to_json_task, to_json_task_list, to_json_task_delete, to_json_task_result,
}
use hdns.Codec.Settings.Json.{to_json_configuration}
use hdns.Codec.Addresses.Json.Names.{
  empty_names, from_json_empty-Agree, line_names, from_json_line-Agree, request_names,
  from_json_request-Agree, address_names, from_json_address-Agree, address_history_names,
  from_json_address_history-Agree,
}
use hdns.Codec.Zones.Json.Names.{
  zone_names, from_json_zone-Agree, zone_list_names, from_json_zone_list-Agree, resolution_names,
  from_json_resolution-Agree, resolution_result_names, from_json_resolution_result-Agree,
  log_entry_names, from_json_log_entry-Agree,
}
use hdns.Codec.Certificates.Json.Names.{
  certificate_names, from_json_certificate-Agree, certificate_list_names,
  from_json_certificate_list-Agree,
}
use hdns.Codec.Issuance.Json.Names.{
  certificate_artifact_names, from_json_certificate_artifact-Agree, certificate_issuance_job_names,
  from_json_certificate_issuance_job-Agree, certificate_task_run_names,
  from_json_certificate_task_run-Agree, certificate_details_names,
  from_json_certificate_details-Agree,
}
use hdns.Codec.Records.Json.Names.{
  record_names, from_json_record-Agree, record_list_names, from_json_record_list-Agree,
  record_delete_names, from_json_record_delete-Agree,
}
use hdns.Codec.Tasks.Json.Names.{
  task_names, from_json_task-Agree, task_list_names, from_json_task_list-Agree, task_delete_names,
  from_json_task_delete-Agree, task_result_names, from_json_task_result-Agree,
}
use hdns.Codec.Settings.Json.Names.{configuration_names, from_json_configuration-Agree}

-- The names under which `fromJSON` looks for each field.
abbrev pub names : Kind → List (List String)
names Kind.empty = empty_names
names Kind.line = line_names
names Kind.request = request_names
names Kind.address = address_names
names Kind.address_history = address_history_names
names Kind.zone = zone_names
names Kind.zone_list = zone_list_names
names Kind.resolution = resolution_names
names Kind.resolution_result = resolution_result_names
names Kind.log_entry = log_entry_names
names Kind.certificate = certificate_names
names Kind.certificate_list = certificate_list_names
names Kind.certificate_artifact = certificate_artifact_names
names Kind.certificate_issuance_job = certificate_issuance_job_names
names Kind.certificate_task_run = certificate_task_run_names
names Kind.certificate_details = certificate_details_names
names Kind.record' = record_names
names Kind.record_list = record_list_names
names Kind.record_delete = record_delete_names
names Kind.task = task_names
names Kind.task_list = task_list_names
names Kind.task_delete = task_delete_names
names Kind.task_result = task_result_names
names Kind.configuration = configuration_names

abbrev pub properties : Json → Props
properties (object ps) = ps
properties _ = end

to_json-object : (k : Kind) (m : Message k) → object (properties (to_json k m)) ≡ to_json k m
unfolding to_json_empty to_json_line to_json_request to_json_address to_json_address_history
    to_json_zone to_json_zone_list to_json_resolution to_json_resolution_result to_json_log_entry
    to_json_certificate to_json_certificate_list to_json_certificate_artifact
    to_json_certificate_issuance_job to_json_certificate_task_run to_json_certificate_details
    to_json_record to_json_record_list to_json_record_delete to_json_task to_json_task_list
    to_json_task_delete to_json_task_result to_json_configuration
to_json-object Kind.empty m = refl
to_json-object Kind.line m = refl
to_json-object Kind.request m = refl
to_json-object Kind.address m = refl
to_json-object Kind.address_history m = refl
to_json-object Kind.zone m = refl
to_json-object Kind.zone_list m = refl
to_json-object Kind.resolution m = refl
to_json-object Kind.resolution_result m = refl
to_json-object Kind.log_entry m = refl
to_json-object Kind.certificate m = refl
to_json-object Kind.certificate_list m = refl
to_json-object Kind.certificate_artifact m = refl
to_json-object Kind.certificate_issuance_job m = refl
to_json-object Kind.certificate_task_run m = refl
to_json-object Kind.certificate_details m = refl
to_json-object Kind.record' m = refl
to_json-object Kind.record_list m = refl
to_json-object Kind.record_delete m = refl
to_json-object Kind.task m = refl
to_json-object Kind.task_list m = refl
to_json-object Kind.task_delete m = refl
to_json-object Kind.task_result m = refl
to_json-object Kind.configuration m = refl

module _ (host : Host) where
  -- Two objects that have the same values under the names of each field give the same message, or fail
  -- both.
  from_json-Agree :
      (k : Kind) (ps qs : Props)
      → All (Agree ps qs) (names k)
      → from_json host k (object ps) ≡ from_json host k (object qs)
  from_json-Agree Kind.empty = from_json_empty-Agree host
  from_json-Agree Kind.line = from_json_line-Agree host
  from_json-Agree Kind.request = from_json_request-Agree host
  from_json-Agree Kind.address = from_json_address-Agree host
  from_json-Agree Kind.address_history = from_json_address_history-Agree host
  from_json-Agree Kind.zone = from_json_zone-Agree host
  from_json-Agree Kind.zone_list = from_json_zone_list-Agree host
  from_json-Agree Kind.resolution = from_json_resolution-Agree host
  from_json-Agree Kind.resolution_result = from_json_resolution_result-Agree host
  from_json-Agree Kind.log_entry = from_json_log_entry-Agree host
  from_json-Agree Kind.certificate = from_json_certificate-Agree host
  from_json-Agree Kind.certificate_list = from_json_certificate_list-Agree host
  from_json-Agree Kind.certificate_artifact = from_json_certificate_artifact-Agree host
  from_json-Agree Kind.certificate_issuance_job = from_json_certificate_issuance_job-Agree host
  from_json-Agree Kind.certificate_task_run = from_json_certificate_task_run-Agree host
  from_json-Agree Kind.certificate_details = from_json_certificate_details-Agree host
  from_json-Agree Kind.record' = from_json_record-Agree host
  from_json-Agree Kind.record_list = from_json_record_list-Agree host
  from_json-Agree Kind.record_delete = from_json_record_delete-Agree host
  from_json-Agree Kind.task = from_json_task-Agree host
  from_json-Agree Kind.task_list = from_json_task_list-Agree host
  from_json-Agree Kind.task_delete = from_json_task_delete-Agree host
  from_json-Agree Kind.task_result = from_json_task_result-Agree host
  from_json-Agree Kind.configuration = from_json_configuration-Agree host

  -- An object is read as a message if it has the values that `toJSON` gives the message, each of them
  -- under one of the two names of its field, in camel case or with underscores, if what stands under
  -- the name that is tried first is not set; whatever else the object has, and in whatever order. The
  -- message meets the conditions of the round trip, and so do `Number`, `String` and `Boolean`.
  pub from_json_respelled :
      HostLaws host
      → (k : Kind) (m : Message k) (ps : Props) → IsKnown k m
      → All (Agree ps (properties (to_json k m))) (names k)
      → from_json host k (object ps) ≡ some m
  from_json_respelled laws k m ps i h =
      from_json-Agree k ps (properties (to_json k m)) h
      ∙ ap (from_json host k) (to_json-object k m)
      ∙ from_json-to_json host laws k m i
