-- ===== src/Codec/Issuance.antt =====
-- frontend/src/app/global/model/api.ts: `encode` and `decode` of `CertificateDetails` and its parts.
pub mod RoundTrip
pub mod Ends
pub mod Json
use hdns.Prelude.{
  ℕ, ℤ, pos, String, Bool, true, false, Option, none, some, List, [], ◌∷◌, ◌++◌, ◌≡◌, ◌<◌, ◌^◌,
  refl, arith, All, length,
}
use hdns.Codec.Wire.{Wire, Bytes}
use hdns.Codec.Messages.{
  CertificateArtifactMessage, CertificateIssuanceJobMessage, CertificateTaskRunMessage,
  CertificateDetailsMessage,
}
use hdns.Codec.Base.{
  create_base_certificate_artifact, create_base_certificate_issuance_job,
  create_base_certificate_task_run, create_base_certificate_details,
}
use hdns.Codec.Clauses.{
  Outcome, Clause, write_all, decode_from, bool_field, int64_field, message_field, messages_field,
  string_field, bool_case, int64_case, message_case, string_case,
}
use hdns.Codec.Certificates.{encode_certificate, decode_certificate}

module _ (w : Wire) where
  abbrev pub certificate_artifact_fields : CertificateArtifactMessage → List (Option Bytes)
  certificate_artifact_fields m =
      string_field w 10 (m.key)
      ∷ string_field w 18 (m.label)
      ∷ bool_field w 24 (m.available)
      ∷ string_field w 34 (m.download_url)
      ∷ []

  unfoldable pub encode_certificate_artifact : CertificateArtifactMessage → Option Bytes
  encode_certificate_artifact m = write_all (certificate_artifact_fields m)

  abbrev pub certificate_artifact_cases : List (Clause CertificateArtifactMessage)
  certificate_artifact_cases =
      string_case w 10 (λ v m. record m { key = v })
      ∷ string_case w 18 (λ v m. record m { label = v })
      ∷ bool_case w 24 (λ v m. record m { available = v })
      ∷ string_case w 34 (λ v m. record m { download_url = v })
      ∷ []

  unfoldable pub decode_certificate_artifact :
      ℕ → Bytes → Outcome (CertificateArtifactMessage × Bytes)
  decode_certificate_artifact =
      decode_from w create_base_certificate_artifact certificate_artifact_cases

  abbrev pub certificate_issuance_job_fields : CertificateIssuanceJobMessage → List (Option Bytes)
  certificate_issuance_job_fields m =
      int64_field w 8 (m.id)
      ∷ string_field w 18 (m.source)
      ∷ string_field w 26 (m.status)
      ∷ int64_field w 32 (m.started_at)
      ∷ int64_field w 40 (m.finished_at)
      ∷ int64_field w 48 (m.duration_ms)
      ∷ string_field w 58 (m.error)
      ∷ int64_field w 64 (m.certificate_id)
      ∷ []

  unfoldable pub encode_certificate_issuance_job : CertificateIssuanceJobMessage → Option Bytes
  encode_certificate_issuance_job m = write_all (certificate_issuance_job_fields m)

  abbrev pub certificate_issuance_job_cases : List (Clause CertificateIssuanceJobMessage)
  certificate_issuance_job_cases =
      int64_case w 8 (λ v m. record m { id = v })
      ∷ string_case w 18 (λ v m. record m { source = v })
      ∷ string_case w 26 (λ v m. record m { status = v })
      ∷ int64_case w 32 (λ v m. record m { started_at = v })
      ∷ int64_case w 40 (λ v m. record m { finished_at = v })
      ∷ int64_case w 48 (λ v m. record m { duration_ms = v })
      ∷ string_case w 58 (λ v m. record m { error = v })
      ∷ int64_case w 64 (λ v m. record m { certificate_id = v })
      ∷ []

  unfoldable pub decode_certificate_issuance_job :
      ℕ → Bytes → Outcome (CertificateIssuanceJobMessage × Bytes)
  decode_certificate_issuance_job =
      decode_from w create_base_certificate_issuance_job certificate_issuance_job_cases

  abbrev pub certificate_task_run_fields : CertificateTaskRunMessage → List (Option Bytes)
  certificate_task_run_fields m =
      int64_field w 8 (m.id)
      ∷ int64_field w 16 (m.task_id)
      ∷ string_field w 26 (m.task_name)
      ∷ string_field w 34 (m.status)
      ∷ string_field w 42 (m.response_status)
      ∷ string_field w 50 (m.error)
      ∷ int64_field w 56 (m.started_at)
      ∷ int64_field w 64 (m.finished_at)
      ∷ int64_field w 72 (m.duration_ms)
      ∷ int64_field w 80 (m.certificate_job_id)
      ∷ []

  unfoldable pub encode_certificate_task_run : CertificateTaskRunMessage → Option Bytes
  encode_certificate_task_run m = write_all (certificate_task_run_fields m)

  abbrev pub certificate_task_run_cases : List (Clause CertificateTaskRunMessage)
  certificate_task_run_cases =
      int64_case w 8 (λ v m. record m { id = v })
      ∷ int64_case w 16 (λ v m. record m { task_id = v })
      ∷ string_case w 26 (λ v m. record m { task_name = v })
      ∷ string_case w 34 (λ v m. record m { status = v })
      ∷ string_case w 42 (λ v m. record m { response_status = v })
      ∷ string_case w 50 (λ v m. record m { error = v })
      ∷ int64_case w 56 (λ v m. record m { started_at = v })
      ∷ int64_case w 64 (λ v m. record m { finished_at = v })
      ∷ int64_case w 72 (λ v m. record m { duration_ms = v })
      ∷ int64_case w 80 (λ v m. record m { certificate_job_id = v })
      ∷ []

  unfoldable pub decode_certificate_task_run :
      ℕ → Bytes → Outcome (CertificateTaskRunMessage × Bytes)
  decode_certificate_task_run =
      decode_from w create_base_certificate_task_run certificate_task_run_cases

  abbrev pub certificate_details_fields : CertificateDetailsMessage → List (Option Bytes)
  certificate_details_fields m =
      int64_field w 8 (m.record_id)
      ∷ string_field w 18 (m.record_name)
      ∷ string_field w 26 (m.record_domain)
      ∷ message_field w (encode_certificate w) 34 (m.certificate)
      ∷ messages_field w encode_certificate_artifact 42 (m.artifacts)
      ∷ messages_field w encode_certificate_issuance_job 50 (m.issuance_jobs)
      ∷ messages_field w encode_certificate_task_run 58 (m.task_runs)
      ∷ int64_field w 64 (m.fetched_at)
      ∷ []

  unfoldable pub encode_certificate_details : CertificateDetailsMessage → Option Bytes
  encode_certificate_details m = write_all (certificate_details_fields m)

  abbrev pub certificate_details_cases : List (Clause CertificateDetailsMessage)
  certificate_details_cases =
      int64_case w 8 (λ v m. record m { record_id = v })
      ∷ string_case w 18 (λ v m. record m { record_name = v })
      ∷ string_case w 26 (λ v m. record m { record_domain = v })
      ∷ message_case w (decode_certificate w) 34 (λ v m. record m { certificate = some v })
      ∷ message_case w decode_certificate_artifact 42
          (λ v m. record m { artifacts = m.artifacts ++ v ∷ [] })
      ∷ message_case w decode_certificate_issuance_job 50
          (λ v m. record m { issuance_jobs = m.issuance_jobs ++ v ∷ [] })
      ∷ message_case w decode_certificate_task_run 58
          (λ v m. record m { task_runs = m.task_runs ++ v ∷ [] })
      ∷ int64_case w 64 (λ v m. record m { fetched_at = v })
      ∷ []

  unfoldable pub decode_certificate_details :
      ℕ → Bytes → Outcome (CertificateDetailsMessage × Bytes)
  decode_certificate_details =
      decode_from w create_base_certificate_details certificate_details_cases
