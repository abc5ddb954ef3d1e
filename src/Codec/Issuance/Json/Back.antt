-- ===== src/Codec/Issuance/Json/Back.antt =====
-- `CertificateDetails` and its parts: what `toJSON` makes is read by `fromJSON`.
use hdns.Prelude.{◌≡◌, refl, some, [], ◌∷◌, All}
use hdns.Codec.Clauses.Repeated.{Given}
use hdns.Codec.Messages.{
  CertificateArtifactMessage, CertificateIssuanceJobMessage, CertificateTaskRunMessage,
  CertificateDetailsMessage,
}
use hdns.Codec.Json.{Host, HostLaws}
use hdns.Codec.Json.Back.{
  boolean_in-props, message_in-props, messages_in-props, number_in-props, text_in-props,
}
use hdns.Codec.Issuance.Json.{
  certificate_artifact_props, to_json_certificate_artifact, from_json_certificate_artifact,
  certificate_issuance_job_props, to_json_certificate_issuance_job,
  from_json_certificate_issuance_job, certificate_task_run_props, to_json_certificate_task_run,
  from_json_certificate_task_run, certificate_details_props, to_json_certificate_details,
  from_json_certificate_details,
}
use hdns.Codec.Certificates.Json.{to_json_certificate, from_json_certificate}
use hdns.Codec.Certificates.Json.Back.{IsKnownCertificate, from_json-to_json_certificate}

-- The messages whose enumerations have a number that the source names.
abbrev pub IsKnownCertificateArtifact : CertificateArtifactMessage → Type 0
IsKnownCertificateArtifact m = Unit

abbrev pub IsKnownCertificateIssuanceJob : CertificateIssuanceJobMessage → Type 0
IsKnownCertificateIssuanceJob m = Unit

abbrev pub IsKnownCertificateTaskRun : CertificateTaskRunMessage → Type 0
IsKnownCertificateTaskRun m = Unit

abbrev pub IsKnownCertificateDetails : CertificateDetailsMessage → Type 0
IsKnownCertificateDetails m =
    Given IsKnownCertificate (m.certificate)
    × All IsKnownCertificateArtifact (m.artifacts)
    × All IsKnownCertificateIssuanceJob (m.issuance_jobs)
    × All IsKnownCertificateTaskRun (m.task_runs)

module _ (host : Host) (laws : HostLaws host) where
  pub from_json-to_json_certificate_artifact :
      (m : CertificateArtifactMessage)
      → IsKnownCertificateArtifact m
      → from_json_certificate_artifact host (to_json_certificate_artifact m) ≡ some m
  unfolding from_json_certificate_artifact to_json_certificate_artifact
  from_json-to_json_certificate_artifact m i =
      rw
        (
          text_in-props host laws (certificate_artifact_props m) ("key" ∷ []) (m.key) refl,
          text_in-props host laws (certificate_artifact_props m) ("label" ∷ []) (m.label) refl,
          boolean_in-props host laws (certificate_artifact_props m) ("available" ∷ []) (m.available)
              refl,
          text_in-props host laws (certificate_artifact_props m)
              ("downloadUrl" ∷ "download_url" ∷ []) (m.download_url) refl,
        )
        refl

  pub from_json-to_json_certificate_issuance_job :
      (m : CertificateIssuanceJobMessage)
      → IsKnownCertificateIssuanceJob m
      → from_json_certificate_issuance_job host (to_json_certificate_issuance_job m) ≡ some m
  unfolding from_json_certificate_issuance_job to_json_certificate_issuance_job
  from_json-to_json_certificate_issuance_job m i =
      rw
        (
          number_in-props host laws (certificate_issuance_job_props m) ("id" ∷ []) (m.id) refl,
          text_in-props host laws (certificate_issuance_job_props m) ("source" ∷ []) (m.source)
              refl,
          text_in-props host laws (certificate_issuance_job_props m) ("status" ∷ []) (m.status)
              refl,
          number_in-props host laws (certificate_issuance_job_props m)
              ("startedAt" ∷ "started_at" ∷ []) (m.started_at) refl,
          number_in-props host laws (certificate_issuance_job_props m)
              ("finishedAt" ∷ "finished_at" ∷ []) (m.finished_at) refl,
          number_in-props host laws (certificate_issuance_job_props m)
              ("durationMs" ∷ "duration_ms" ∷ []) (m.duration_ms) refl,
          text_in-props host laws (certificate_issuance_job_props m) ("error" ∷ []) (m.error) refl,
          number_in-props host laws (certificate_issuance_job_props m)
              ("certificateId" ∷ "certificate_id" ∷ []) (m.certificate_id) refl,
        )
        refl

  pub from_json-to_json_certificate_task_run :
      (m : CertificateTaskRunMessage)
      → IsKnownCertificateTaskRun m
      → from_json_certificate_task_run host (to_json_certificate_task_run m) ≡ some m
  unfolding from_json_certificate_task_run to_json_certificate_task_run
  from_json-to_json_certificate_task_run m i =
      rw
        (
          number_in-props host laws (certificate_task_run_props m) ("id" ∷ []) (m.id) refl,
          number_in-props host laws (certificate_task_run_props m) ("taskId" ∷ "task_id" ∷ [])
              (m.task_id) refl,
          text_in-props host laws (certificate_task_run_props m) ("taskName" ∷ "task_name" ∷ [])
              (m.task_name) refl,
          text_in-props host laws (certificate_task_run_props m) ("status" ∷ []) (m.status) refl,
          text_in-props host laws (certificate_task_run_props m)
              ("responseStatus" ∷ "response_status" ∷ []) (m.response_status) refl,
          text_in-props host laws (certificate_task_run_props m) ("error" ∷ []) (m.error) refl,
          number_in-props host laws (certificate_task_run_props m) ("startedAt" ∷ "started_at" ∷ [])
              (m.started_at) refl,
          number_in-props host laws (certificate_task_run_props m)
              ("finishedAt" ∷ "finished_at" ∷ []) (m.finished_at) refl,
          number_in-props host laws (certificate_task_run_props m)
              ("durationMs" ∷ "duration_ms" ∷ []) (m.duration_ms) refl,
          number_in-props host laws (certificate_task_run_props m)
              ("certificateJobId" ∷ "certificate_job_id" ∷ []) (m.certificate_job_id) refl,
        )
        refl

  pub from_json-to_json_certificate_details :
      (m : CertificateDetailsMessage)
      → IsKnownCertificateDetails m
      → from_json_certificate_details host (to_json_certificate_details m) ≡ some m
  unfolding from_json_certificate_details to_json_certificate_details to_json_certificate
  from_json-to_json_certificate_details m (i1, i2, i3, i4) =
      rw
        (
          number_in-props host laws (certificate_details_props m) ("recordId" ∷ "record_id" ∷ [])
              (m.record_id) refl,
          text_in-props host laws (certificate_details_props m) ("recordName" ∷ "record_name" ∷ [])
              (m.record_name) refl,
          text_in-props host laws (certificate_details_props m)
              ("recordDomain" ∷ "record_domain" ∷ []) (m.record_domain) refl,
          message_in-props host laws (certificate_details_props m) ("certificate" ∷ [])
              (from_json_certificate host) to_json_certificate IsKnownCertificate (m.certificate) i1
              (λ x k. (from_json-to_json_certificate host laws x k, refl)) refl,
          messages_in-props host (certificate_details_props m) ("artifacts" ∷ [])
              (from_json_certificate_artifact host) to_json_certificate_artifact
              IsKnownCertificateArtifact (m.artifacts) i2 (from_json-to_json_certificate_artifact)
              refl,
          messages_in-props host (certificate_details_props m)
              ("issuanceJobs" ∷ "issuance_jobs" ∷ []) (from_json_certificate_issuance_job host)
              to_json_certificate_issuance_job IsKnownCertificateIssuanceJob (m.issuance_jobs) i3
              (from_json-to_json_certificate_issuance_job) refl,
          messages_in-props host (certificate_details_props m) ("taskRuns" ∷ "task_runs" ∷ [])
              (from_json_certificate_task_run host) to_json_certificate_task_run
              IsKnownCertificateTaskRun (m.task_runs) i4 (from_json-to_json_certificate_task_run)
              refl,
          number_in-props host laws (certificate_details_props m) ("fetchedAt" ∷ "fetched_at" ∷ [])
              (m.fetched_at) refl,
        )
        refl
