-- ===== src/Codec/Issuance/Ends.antt =====
-- `CertificateDetails` and its parts: reading ends.
use hdns.Prelude.{ℕ, length}
use hdns.Codec.Wire.{Wire, WireMoves, Bytes}
use hdns.Codec.Base.{
  create_base_certificate_artifact, create_base_certificate_issuance_job,
  create_base_certificate_task_run, create_base_certificate_details,
}
use hdns.Codec.Clauses.Ends.{
  Ends, decode_from-Ends, bool_case-ClauseEnds, int64_case-ClauseEnds, message_case-ClauseEnds,
  string_case-ClauseEnds,
}
use hdns.Codec.Issuance.{
  certificate_artifact_cases, decode_certificate_artifact, certificate_issuance_job_cases,
  decode_certificate_issuance_job, certificate_task_run_cases, decode_certificate_task_run,
  certificate_details_cases, decode_certificate_details,
}
use hdns.Codec.Certificates.Ends.{certificate-Ends}

module _ (w : Wire) (moves : WireMoves w) where
  pub certificate_artifact-Ends :
      (n : ℕ) (b : Bytes) → Ends (length b) (decode_certificate_artifact w n b)
  unfolding decode_certificate_artifact
  certificate_artifact-Ends n b =
      decode_from-Ends w moves create_base_certificate_artifact (certificate_artifact_cases w) n b (
        string_case-ClauseEnds w moves 10 _,
        (
          string_case-ClauseEnds w moves 18 _,
          (bool_case-ClauseEnds w moves 24 _, (string_case-ClauseEnds w moves 34 _, tt)),
        ),
      )

  pub certificate_issuance_job-Ends :
      (n : ℕ) (b : Bytes) → Ends (length b) (decode_certificate_issuance_job w n b)
  unfolding decode_certificate_issuance_job
  certificate_issuance_job-Ends n b =
      decode_from-Ends w moves create_base_certificate_issuance_job
        (certificate_issuance_job_cases w) n b
        (
          int64_case-ClauseEnds w moves 8 _,
          (
            string_case-ClauseEnds w moves 18 _,
            (
              string_case-ClauseEnds w moves 26 _,
              (
                int64_case-ClauseEnds w moves 32 _,
                (
                  int64_case-ClauseEnds w moves 40 _,
                  (
                    int64_case-ClauseEnds w moves 48 _,
                    (string_case-ClauseEnds w moves 58 _, (int64_case-ClauseEnds w moves 64 _, tt)),
                  ),
                ),
              ),
            ),
          ),
        )

  pub certificate_task_run-Ends :
      (n : ℕ) (b : Bytes) → Ends (length b) (decode_certificate_task_run w n b)
  unfolding decode_certificate_task_run
  certificate_task_run-Ends n b =
      decode_from-Ends w moves create_base_certificate_task_run (certificate_task_run_cases w) n b (
        int64_case-ClauseEnds w moves 8 _,
        (
          int64_case-ClauseEnds w moves 16 _,
          (
            string_case-ClauseEnds w moves 26 _,
            (
              string_case-ClauseEnds w moves 34 _,
              (
                string_case-ClauseEnds w moves 42 _,
                (
                  string_case-ClauseEnds w moves 50 _,
                  (
                    int64_case-ClauseEnds w moves 56 _,
                    (
                      int64_case-ClauseEnds w moves 64 _,
                      (
                        int64_case-ClauseEnds w moves 72 _,
                        (int64_case-ClauseEnds w moves 80 _, tt),
                      ),
                    ),
                  ),
                ),
              ),
            ),
          ),
        ),
      )

  pub certificate_details-Ends :
      (n : ℕ) (b : Bytes) → Ends (length b) (decode_certificate_details w n b)
  unfolding decode_certificate_details
  certificate_details-Ends n b =
      decode_from-Ends w moves create_base_certificate_details (certificate_details_cases w) n b (
        int64_case-ClauseEnds w moves 8 _,
        (
          string_case-ClauseEnds w moves 18 _,
          (
            string_case-ClauseEnds w moves 26 _,
            (
              message_case-ClauseEnds w moves 34 _ _ (certificate-Ends w moves),
              (
                message_case-ClauseEnds w moves 42 _ _ certificate_artifact-Ends,
                (
                  message_case-ClauseEnds w moves 50 _ _ certificate_issuance_job-Ends,
                  (
                    message_case-ClauseEnds w moves 58 _ _ certificate_task_run-Ends,
                    (int64_case-ClauseEnds w moves 64 _, tt),
                  ),
                ),
              ),
            ),
          ),
        ),
      )
