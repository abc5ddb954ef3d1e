-- ===== src/Codec/Certificates/Ends.antt =====
-- `Certificate` and `CertificateList`: reading ends.
use hdns.Prelude.{ℕ, length}
use hdns.Codec.Wire.{Wire, WireMoves, Bytes}
use hdns.Codec.Base.{create_base_certificate, create_base_certificate_list}
use hdns.Codec.Clauses.Ends.{
  Ends, decode_from-Ends, int64_case-ClauseEnds, message_case-ClauseEnds, string_case-ClauseEnds,
}
use hdns.Codec.Certificates.{
  certificate_cases, decode_certificate, certificate_list_cases, decode_certificate_list,
}

module _ (w : Wire) (moves : WireMoves w) where
  pub certificate-Ends : (n : ℕ) (b : Bytes) → Ends (length b) (decode_certificate w n b)
  unfolding decode_certificate
  certificate-Ends n b =
      decode_from-Ends w moves create_base_certificate (certificate_cases w) n b (
        int64_case-ClauseEnds w moves 8 _,
        (
          int64_case-ClauseEnds w moves 16 _,
          (
            int64_case-ClauseEnds w moves 24 _,
            (
              int64_case-ClauseEnds w moves 32 _,
              (
                string_case-ClauseEnds w moves 42 _,
                (
                  string_case-ClauseEnds w moves 50 _,
                  (
                    int64_case-ClauseEnds w moves 56 _,
                    (
                      int64_case-ClauseEnds w moves 64 _,
                      (
                        string_case-ClauseEnds w moves 74 _,
                        (string_case-ClauseEnds w moves 82 _, tt),
                      ),
                    ),
                  ),
                ),
              ),
            ),
          ),
        ),
      )

  pub certificate_list-Ends : (n : ℕ) (b : Bytes) → Ends (length b) (decode_certificate_list w n b)
  unfolding decode_certificate_list
  certificate_list-Ends n b =
      decode_from-Ends w moves create_base_certificate_list (certificate_list_cases w) n b
        (message_case-ClauseEnds w moves 10 _ _ certificate-Ends, tt)
