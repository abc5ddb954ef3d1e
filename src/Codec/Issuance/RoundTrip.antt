-- ===== src/Codec/Issuance/RoundTrip.antt =====
-- `CertificateDetails` and its parts: what is written is read again.
use hdns.Prelude.{true, ◌≡◌, refl, arith, All}
use hdns.Codec.Wire.{Wire, WireLaws, WireMoves, IsSafe}
use hdns.Codec.Messages.{
  CertificateArtifactMessage, CertificateIssuanceJobMessage, CertificateTaskRunMessage,
  CertificateDetailsMessage,
}
use hdns.Codec.Base.{
  create_base_certificate_artifact, create_base_certificate_issuance_job,
  create_base_certificate_task_run, create_base_certificate_details,
}
use hdns.Codec.Clauses.{select}
use hdns.Codec.Clauses.Rounds.{Steps, done, ◌▸◌, RoundTrip, Steps-RoundTrip}
use hdns.Codec.Clauses.Fields.{bool-Carries, int64-Carries, string-Carries}
use hdns.Codec.Clauses.Repeated.{Fits, Given, message-Carries, messages-Carries}
use hdns.Codec.Issuance.{
  certificate_artifact_fields, encode_certificate_artifact, certificate_artifact_cases,
  decode_certificate_artifact, certificate_issuance_job_fields, encode_certificate_issuance_job,
  certificate_issuance_job_cases, decode_certificate_issuance_job, certificate_task_run_fields,
  encode_certificate_task_run, certificate_task_run_cases, decode_certificate_task_run,
  certificate_details_fields, certificate_details_cases,
}
use hdns.Codec.Certificates.{encode_certificate, decode_certificate}
use hdns.Codec.Certificates.RoundTrip.{IsCertificate, certificate-RoundTrip}

-- The messages whose numbers have the range of their types, whose texts survive UTF-8, and whose parts
-- have a length that can be written.
module _ (w : Wire) where
  abbrev pub IsCertificateArtifact : CertificateArtifactMessage → Type 0
  IsCertificateArtifact m =
      (w.keeps (m.key) ≡ true) × (w.keeps (m.label) ≡ true) × (w.keeps (m.download_url) ≡ true)

  abbrev pub IsCertificateIssuanceJob : CertificateIssuanceJobMessage → Type 0
  IsCertificateIssuanceJob m =
      IsSafe (m.id)
      × (w.keeps (m.source) ≡ true)
      × (w.keeps (m.status) ≡ true)
      × IsSafe (m.started_at)
      × IsSafe (m.finished_at)
      × IsSafe (m.duration_ms)
      × (w.keeps (m.error) ≡ true)
      × IsSafe (m.certificate_id)

  abbrev pub IsCertificateTaskRun : CertificateTaskRunMessage → Type 0
  IsCertificateTaskRun m =
      IsSafe (m.id)
      × IsSafe (m.task_id)
      × (w.keeps (m.task_name) ≡ true)
      × (w.keeps (m.status) ≡ true)
      × (w.keeps (m.response_status) ≡ true)
      × (w.keeps (m.error) ≡ true)
      × IsSafe (m.started_at)
      × IsSafe (m.finished_at)
      × IsSafe (m.duration_ms)
      × IsSafe (m.certificate_job_id)

  abbrev pub IsCertificateDetails : CertificateDetailsMessage → Type 0
  IsCertificateDetails m =
      IsSafe (m.record_id)
      × (w.keeps (m.record_name) ≡ true)
      × (w.keeps (m.record_domain) ≡ true)
      × Given (λ x. IsCertificate w x × Fits (encode_certificate w x)) (m.certificate)
      × All (λ x. IsCertificateArtifact x × Fits (encode_certificate_artifact w x)) (m.artifacts)
      × All (λ x. IsCertificateIssuanceJob x × Fits (encode_certificate_issuance_job w x))
          (m.issuance_jobs)
      × All (λ x. IsCertificateTaskRun x × Fits (encode_certificate_task_run w x)) (m.task_runs)
      × IsSafe (m.fetched_at)

  module _ (laws : WireLaws w) (moves : WireMoves w) where
    pub certificate_artifact-Steps :
        (m : CertificateArtifactMessage)
        → IsCertificateArtifact m
        → Steps w
            (certificate_artifact_cases w)
            (certificate_artifact_fields w m)
            create_base_certificate_artifact
            m
    unfolding select
    certificate_artifact-Steps m (i1, i2, i3) =
        string-Carries w laws moves 10 _ (m.key) i1 refl (omega arith) refl
        ▸ string-Carries w laws moves 18 _ (m.label) i2 refl (omega arith) refl
        ▸ bool-Carries w laws moves 24 _ (m.available) refl (omega arith) refl
        ▸ string-Carries w laws moves 34 _ (m.download_url) i3 refl (omega arith) refl
        ▸ done

    pub certificate_artifact-RoundTrip :
        (m : CertificateArtifactMessage)
        → IsCertificateArtifact m
        → RoundTrip w (encode_certificate_artifact w) (decode_certificate_artifact w) m
    unfolding encode_certificate_artifact decode_certificate_artifact
    certificate_artifact-RoundTrip m i =
        Steps-RoundTrip w (certificate_artifact_cases w) (certificate_artifact_fields w m)
          create_base_certificate_artifact m (certificate_artifact-Steps m i)

    pub certificate_issuance_job-Steps :
        (m : CertificateIssuanceJobMessage)
        → IsCertificateIssuanceJob m
        → Steps w
            (certificate_issuance_job_cases w)
            (certificate_issuance_job_fields w m)
            create_base_certificate_issuance_job
            m
    unfolding select
    certificate_issuance_job-Steps m (i1, i2, i3, i4, i5, i6, i7, i8) =
        int64-Carries w laws moves 8 _ (m.id) i1 refl (omega arith) refl
        ▸ string-Carries w laws moves 18 _ (m.source) i2 refl (omega arith) refl
        ▸ string-Carries w laws moves 26 _ (m.status) i3 refl (omega arith) refl
        ▸ int64-Carries w laws moves 32 _ (m.started_at) i4 refl (omega arith) refl
        ▸ int64-Carries w laws moves 40 _ (m.finished_at) i5 refl (omega arith) refl
        ▸ int64-Carries w laws moves 48 _ (m.duration_ms) i6 refl (omega arith) refl
        ▸ string-Carries w laws moves 58 _ (m.error) i7 refl (omega arith) refl
        ▸ int64-Carries w laws moves 64 _ (m.certificate_id) i8 refl (omega arith) refl
        ▸ done

    pub certificate_issuance_job-RoundTrip :
        (m : CertificateIssuanceJobMessage)
        → IsCertificateIssuanceJob m
        → RoundTrip w (encode_certificate_issuance_job w) (decode_certificate_issuance_job w) m
    unfolding encode_certificate_issuance_job decode_certificate_issuance_job
    certificate_issuance_job-RoundTrip m i =
        Steps-RoundTrip w (certificate_issuance_job_cases w) (certificate_issuance_job_fields w m)
          create_base_certificate_issuance_job m (certificate_issuance_job-Steps m i)

    pub certificate_task_run-Steps :
        (m : CertificateTaskRunMessage)
        → IsCertificateTaskRun m
        → Steps w
            (certificate_task_run_cases w)
            (certificate_task_run_fields w m)
            create_base_certificate_task_run
            m
    unfolding select
    certificate_task_run-Steps m (i1, i2, i3, i4, i5, i6, i7, i8, i9, i10) =
        int64-Carries w laws moves 8 _ (m.id) i1 refl (omega arith) refl
        ▸ int64-Carries w laws moves 16 _ (m.task_id) i2 refl (omega arith) refl
        ▸ string-Carries w laws moves 26 _ (m.task_name) i3 refl (omega arith) refl
        ▸ string-Carries w laws moves 34 _ (m.status) i4 refl (omega arith) refl
        ▸ string-Carries w laws moves 42 _ (m.response_status) i5 refl (omega arith) refl
        ▸ string-Carries w laws moves 50 _ (m.error) i6 refl (omega arith) refl
        ▸ int64-Carries w laws moves 56 _ (m.started_at) i7 refl (omega arith) refl
        ▸ int64-Carries w laws moves 64 _ (m.finished_at) i8 refl (omega arith) refl
        ▸ int64-Carries w laws moves 72 _ (m.duration_ms) i9 refl (omega arith) refl
        ▸ int64-Carries w laws moves 80 _ (m.certificate_job_id) i10 refl (omega arith) refl
        ▸ done

    pub certificate_task_run-RoundTrip :
        (m : CertificateTaskRunMessage)
        → IsCertificateTaskRun m
        → RoundTrip w (encode_certificate_task_run w) (decode_certificate_task_run w) m
    unfolding encode_certificate_task_run decode_certificate_task_run
    certificate_task_run-RoundTrip m i =
        Steps-RoundTrip w (certificate_task_run_cases w) (certificate_task_run_fields w m)
          create_base_certificate_task_run m (certificate_task_run-Steps m i)

    pub certificate_details-Steps :
        (m : CertificateDetailsMessage)
        → IsCertificateDetails m
        → Steps w
            (certificate_details_cases w)
            (certificate_details_fields w m)
            create_base_certificate_details
            m
    unfolding select
    certificate_details-Steps m (i1, i2, i3, i4, i5, i6, i7, i8) =
        int64-Carries w laws moves 8 _ (m.record_id) i1 refl (omega arith) refl
        ▸ string-Carries w laws moves 18 _ (m.record_name) i2 refl (omega arith) refl
        ▸ string-Carries w laws moves 26 _ (m.record_domain) i3 refl (omega arith) refl
        ▸ message-Carries w laws moves (encode_certificate w) (decode_certificate w)
            (IsCertificate w) 34 _ (λ v m. record m { certificate = v }) (m.certificate) i4
            (certificate-RoundTrip w laws moves) refl (λ x. refl) (omega arith) refl
        ▸ messages-Carries w laws moves (encode_certificate_artifact w)
            (decode_certificate_artifact w) IsCertificateArtifact 42 _
            (λ v m. record m { artifacts = v }) (m.artifacts) i5 certificate_artifact-RoundTrip refl
            (λ vs v. refl) (omega arith) refl
        ▸ messages-Carries w laws moves (encode_certificate_issuance_job w)
            (decode_certificate_issuance_job w) IsCertificateIssuanceJob 50 _
            (λ v m. record m { issuance_jobs = v }) (m.issuance_jobs) i6
            certificate_issuance_job-RoundTrip refl (λ vs v. refl) (omega arith) refl
        ▸ messages-Carries w laws moves (encode_certificate_task_run w)
            (decode_certificate_task_run w) IsCertificateTaskRun 58 _
            (λ v m. record m { task_runs = v }) (m.task_runs) i7 certificate_task_run-RoundTrip refl
            (λ vs v. refl) (omega arith) refl
        ▸ int64-Carries w laws moves 64 _ (m.fetched_at) i8 refl (omega arith) refl
        ▸ done
