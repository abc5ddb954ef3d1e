-- ===== src/Codec/Issuance/Json.antt =====
-- frontend/src/app/global/model/api.ts: `fromJSON` and `toJSON` of `CertificateDetails` and its parts.
pub mod Back
pub mod Names
use hdns.Prelude.{Option, some, List, [], ◌∷◌}
use hdns.Codec.Messages.{
  CertificateArtifactMessage, CertificateIssuanceJobMessage, CertificateTaskRunMessage,
  CertificateDetailsMessage,
}
use hdns.Codec.Json.{Json, object, Host}
use hdns.Codec.Json.Write.{
  Chunk, props, boolean_json, message_json, messages_json, number_json, text_json,
}
use hdns.Codec.Json.Read.{◌>>=◌, boolean_in, message_in, messages_in, number_in, text_in}
use hdns.Codec.Certificates.Json.{to_json_certificate, from_json_certificate}

abbrev pub certificate_artifact_props : CertificateArtifactMessage → List Chunk
certificate_artifact_props m =
    ("key", text_json (m.key))
    ∷ ("label", text_json (m.label))
    ∷ ("available", boolean_json (m.available))
    ∷ ("downloadUrl", text_json (m.download_url))
    ∷ []

unfoldable pub to_json_certificate_artifact : CertificateArtifactMessage → Json
to_json_certificate_artifact m = object (props (certificate_artifact_props m))

abbrev pub certificate_issuance_job_props : CertificateIssuanceJobMessage → List Chunk
certificate_issuance_job_props m =
    ("id", number_json (m.id))
    ∷ ("source", text_json (m.source))
    ∷ ("status", text_json (m.status))
    ∷ ("startedAt", number_json (m.started_at))
    ∷ ("finishedAt", number_json (m.finished_at))
    ∷ ("durationMs", number_json (m.duration_ms))
    ∷ ("error", text_json (m.error))
    ∷ ("certificateId", number_json (m.certificate_id))
    ∷ []

unfoldable pub to_json_certificate_issuance_job : CertificateIssuanceJobMessage → Json
to_json_certificate_issuance_job m = object (props (certificate_issuance_job_props m))

abbrev pub certificate_task_run_props : CertificateTaskRunMessage → List Chunk
certificate_task_run_props m =
    ("id", number_json (m.id))
    ∷ ("taskId", number_json (m.task_id))
    ∷ ("taskName", text_json (m.task_name))
    ∷ ("status", text_json (m.status))
    ∷ ("responseStatus", text_json (m.response_status))
    ∷ ("error", text_json (m.error))
    ∷ ("startedAt", number_json (m.started_at))
    ∷ ("finishedAt", number_json (m.finished_at))
    ∷ ("durationMs", number_json (m.duration_ms))
    ∷ ("certificateJobId", number_json (m.certificate_job_id))
    ∷ []

unfoldable pub to_json_certificate_task_run : CertificateTaskRunMessage → Json
to_json_certificate_task_run m = object (props (certificate_task_run_props m))

abbrev pub certificate_details_props : CertificateDetailsMessage → List Chunk
certificate_details_props m =
    ("recordId", number_json (m.record_id))
    ∷ ("recordName", text_json (m.record_name))
    ∷ ("recordDomain", text_json (m.record_domain))
    ∷ ("certificate", message_json to_json_certificate (m.certificate))
    ∷ ("artifacts", messages_json to_json_certificate_artifact (m.artifacts))
    ∷ ("issuanceJobs", messages_json to_json_certificate_issuance_job (m.issuance_jobs))
    ∷ ("taskRuns", messages_json to_json_certificate_task_run (m.task_runs))
    ∷ ("fetchedAt", number_json (m.fetched_at))
    ∷ []

unfoldable pub to_json_certificate_details : CertificateDetailsMessage → Json
to_json_certificate_details m = object (props (certificate_details_props m))

module _ (host : Host) where
  unfoldable pub from_json_certificate_artifact : Json → Option CertificateArtifactMessage
  from_json_certificate_artifact o = do
    key ← text_in host o ("key" ∷ [])
    label ← text_in host o ("label" ∷ [])
    available ← boolean_in host o ("available" ∷ [])
    download_url ← text_in host o ("downloadUrl" ∷ "download_url" ∷ [])
    some (record { key = key; label = label; available = available; download_url = download_url })

  unfoldable pub from_json_certificate_issuance_job : Json → Option CertificateIssuanceJobMessage
  from_json_certificate_issuance_job o = do
    id ← number_in host o ("id" ∷ [])
    source ← text_in host o ("source" ∷ [])
    status ← text_in host o ("status" ∷ [])
    started_at ← number_in host o ("startedAt" ∷ "started_at" ∷ [])
    finished_at ← number_in host o ("finishedAt" ∷ "finished_at" ∷ [])
    duration_ms ← number_in host o ("durationMs" ∷ "duration_ms" ∷ [])
    error ← text_in host o ("error" ∷ [])
    certificate_id ← number_in host o ("certificateId" ∷ "certificate_id" ∷ [])
    some (record {
      id = id;
      source = source;
      status = status;
      started_at = started_at;
      finished_at = finished_at;
      duration_ms = duration_ms;
      error = error;
      certificate_id = certificate_id;
    })

  unfoldable pub from_json_certificate_task_run : Json → Option CertificateTaskRunMessage
  from_json_certificate_task_run o = do
    id ← number_in host o ("id" ∷ [])
    task_id ← number_in host o ("taskId" ∷ "task_id" ∷ [])
    task_name ← text_in host o ("taskName" ∷ "task_name" ∷ [])
    status ← text_in host o ("status" ∷ [])
    response_status ← text_in host o ("responseStatus" ∷ "response_status" ∷ [])
    error ← text_in host o ("error" ∷ [])
    started_at ← number_in host o ("startedAt" ∷ "started_at" ∷ [])
    finished_at ← number_in host o ("finishedAt" ∷ "finished_at" ∷ [])
    duration_ms ← number_in host o ("durationMs" ∷ "duration_ms" ∷ [])
    certificate_job_id ← number_in host o ("certificateJobId" ∷ "certificate_job_id" ∷ [])
    some (record {
      id = id;
      task_id = task_id;
      task_name = task_name;
      status = status;
      response_status = response_status;
      error = error;
      started_at = started_at;
      finished_at = finished_at;
      duration_ms = duration_ms;
      certificate_job_id = certificate_job_id;
    })

  unfoldable pub from_json_certificate_details : Json → Option CertificateDetailsMessage
  from_json_certificate_details o = do
    record_id ← number_in host o ("recordId" ∷ "record_id" ∷ [])
    record_name ← text_in host o ("recordName" ∷ "record_name" ∷ [])
    record_domain ← text_in host o ("recordDomain" ∷ "record_domain" ∷ [])
    certificate ← message_in host (from_json_certificate host) o ("certificate" ∷ [])
    artifacts ← messages_in host from_json_certificate_artifact o ("artifacts" ∷ [])
    issuance_jobs ←
        messages_in host from_json_certificate_issuance_job o
          ("issuanceJobs" ∷ "issuance_jobs" ∷ [])
    task_runs ← messages_in host from_json_certificate_task_run o ("taskRuns" ∷ "task_runs" ∷ [])
    fetched_at ← number_in host o ("fetchedAt" ∷ "fetched_at" ∷ [])
    some (record {
      record_id = record_id;
      record_name = record_name;
      record_domain = record_domain;
      certificate = certificate;
      artifacts = artifacts;
      issuance_jobs = issuance_jobs;
      task_runs = task_runs;
      fetched_at = fetched_at;
    })
