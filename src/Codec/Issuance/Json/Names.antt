-- ===== src/Codec/Issuance/Json/Names.antt =====
-- `CertificateDetails` and its parts: `fromJSON` reads an object by these names alone.
use hdns.Prelude.{String, ◌≡◌, refl, List, [], ◌∷◌, All}
use hdns.Codec.Json.{object, Props, Host}
use hdns.Codec.Json.Agree.{
  Agree, boolean_in-Agree, message_in-Agree, messages_in-Agree, number_in-Agree, text_in-Agree,
}
use hdns.Codec.Issuance.Json.{
  from_json_certificate_artifact, from_json_certificate_issuance_job,
  from_json_certificate_task_run, from_json_certificate_details,
}
use hdns.Codec.Certificates.Json.{from_json_certificate}

abbrev pub certificate_artifact_names : List (List String)
certificate_artifact_names =
    ("key" ∷ []) ∷ ("label" ∷ []) ∷ ("available" ∷ []) ∷ ("downloadUrl" ∷ "download_url" ∷ []) ∷ []

abbrev pub certificate_issuance_job_names : List (List String)
certificate_issuance_job_names =
    ("id" ∷ [])
    ∷ ("source" ∷ [])
    ∷ ("status" ∷ [])
    ∷ ("startedAt" ∷ "started_at" ∷ [])
    ∷ ("finishedAt" ∷ "finished_at" ∷ [])
    ∷ ("durationMs" ∷ "duration_ms" ∷ [])
    ∷ ("error" ∷ [])
    ∷ ("certificateId" ∷ "certificate_id" ∷ [])
    ∷ []

abbrev pub certificate_task_run_names : List (List String)
certificate_task_run_names =
    ("id" ∷ [])
    ∷ ("taskId" ∷ "task_id" ∷ [])
    ∷ ("taskName" ∷ "task_name" ∷ [])
    ∷ ("status" ∷ [])
    ∷ ("responseStatus" ∷ "response_status" ∷ [])
    ∷ ("error" ∷ [])
    ∷ ("startedAt" ∷ "started_at" ∷ [])
    ∷ ("finishedAt" ∷ "finished_at" ∷ [])
    ∷ ("durationMs" ∷ "duration_ms" ∷ [])
    ∷ ("certificateJobId" ∷ "certificate_job_id" ∷ [])
    ∷ []

abbrev pub certificate_details_names : List (List String)
certificate_details_names =
    ("recordId" ∷ "record_id" ∷ [])
    ∷ ("recordName" ∷ "record_name" ∷ [])
    ∷ ("recordDomain" ∷ "record_domain" ∷ [])
    ∷ ("certificate" ∷ [])
    ∷ ("artifacts" ∷ [])
    ∷ ("issuanceJobs" ∷ "issuance_jobs" ∷ [])
    ∷ ("taskRuns" ∷ "task_runs" ∷ [])
    ∷ ("fetchedAt" ∷ "fetched_at" ∷ [])
    ∷ []

module _ (host : Host) (ps qs : Props) where
  pub from_json_certificate_artifact-Agree :
      All (Agree ps qs) certificate_artifact_names
      → from_json_certificate_artifact host (object ps)
        ≡ from_json_certificate_artifact host (object qs)
  unfolding from_json_certificate_artifact
  from_json_certificate_artifact-Agree h =
      rw
        (
          text_in-Agree host ps qs ("key" ∷ []) h.0,
          text_in-Agree host ps qs ("label" ∷ []) h.1.0,
          boolean_in-Agree host ps qs ("available" ∷ []) h.1.1.0,
          text_in-Agree host ps qs ("downloadUrl" ∷ "download_url" ∷ []) h.1.1.1.0,
        )
        refl

  pub from_json_certificate_issuance_job-Agree :
      All (Agree ps qs) certificate_issuance_job_names
      → from_json_certificate_issuance_job host (object ps)
        ≡ from_json_certificate_issuance_job host (object qs)
  unfolding from_json_certificate_issuance_job
  from_json_certificate_issuance_job-Agree h =
      rw
        (
          number_in-Agree host ps qs ("id" ∷ []) h.0,
          text_in-Agree host ps qs ("source" ∷ []) h.1.0,
          text_in-Agree host ps qs ("status" ∷ []) h.1.1.0,
          number_in-Agree host ps qs ("startedAt" ∷ "started_at" ∷ []) h.1.1.1.0,
          number_in-Agree host ps qs ("finishedAt" ∷ "finished_at" ∷ []) h.1.1.1.1.0,
          number_in-Agree host ps qs ("durationMs" ∷ "duration_ms" ∷ []) h.1.1.1.1.1.0,
          text_in-Agree host ps qs ("error" ∷ []) h.1.1.1.1.1.1.0,
          number_in-Agree host ps qs ("certificateId" ∷ "certificate_id" ∷ []) h.1.1.1.1.1.1.1.0,
        )
        refl

  pub from_json_certificate_task_run-Agree :
      All (Agree ps qs) certificate_task_run_names
      → from_json_certificate_task_run host (object ps)
        ≡ from_json_certificate_task_run host (object qs)
  unfolding from_json_certificate_task_run
  from_json_certificate_task_run-Agree h =
      rw
        (
          number_in-Agree host ps qs ("id" ∷ []) h.0,
          number_in-Agree host ps qs ("taskId" ∷ "task_id" ∷ []) h.1.0,
          text_in-Agree host ps qs ("taskName" ∷ "task_name" ∷ []) h.1.1.0,
          text_in-Agree host ps qs ("status" ∷ []) h.1.1.1.0,
          text_in-Agree host ps qs ("responseStatus" ∷ "response_status" ∷ []) h.1.1.1.1.0,
          text_in-Agree host ps qs ("error" ∷ []) h.1.1.1.1.1.0,
          number_in-Agree host ps qs ("startedAt" ∷ "started_at" ∷ []) h.1.1.1.1.1.1.0,
          number_in-Agree host ps qs ("finishedAt" ∷ "finished_at" ∷ []) h.1.1.1.1.1.1.1.0,
          number_in-Agree host ps qs ("durationMs" ∷ "duration_ms" ∷ []) h.1.1.1.1.1.1.1.1.0,
          number_in-Agree host ps qs ("certificateJobId" ∷ "certificate_job_id" ∷ [])
              h.1.1.1.1.1.1.1.1.1.0,
        )
        refl

  pub from_json_certificate_details-Agree :
      All (Agree ps qs) certificate_details_names
      → from_json_certificate_details host (object ps)
        ≡ from_json_certificate_details host (object qs)
  unfolding from_json_certificate_details
  from_json_certificate_details-Agree h =
      rw
        (
          number_in-Agree host ps qs ("recordId" ∷ "record_id" ∷ []) h.0,
          text_in-Agree host ps qs ("recordName" ∷ "record_name" ∷ []) h.1.0,
          text_in-Agree host ps qs ("recordDomain" ∷ "record_domain" ∷ []) h.1.1.0,
          message_in-Agree host ps qs ("certificate" ∷ []) (from_json_certificate host) h.1.1.1.0,
          messages_in-Agree host ps qs ("artifacts" ∷ []) (from_json_certificate_artifact host)
              h.1.1.1.1.0,
          messages_in-Agree host ps qs ("issuanceJobs" ∷ "issuance_jobs" ∷ [])
              (from_json_certificate_issuance_job host) h.1.1.1.1.1.0,
          messages_in-Agree host ps qs ("taskRuns" ∷ "task_runs" ∷ [])
              (from_json_certificate_task_run host) h.1.1.1.1.1.1.0,
          number_in-Agree host ps qs ("fetchedAt" ∷ "fetched_at" ∷ []) h.1.1.1.1.1.1.1.0,
        )
        refl
