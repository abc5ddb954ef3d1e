-- ===== src/Codec/Records/Ends.antt =====
-- `Record`, `RecordList` and `RecordDelete`: reading ends.
use hdns.Prelude.{ℕ, length}
use hdns.Codec.Wire.{Wire, WireMoves, Bytes}
use hdns.Codec.Base.{create_base_record, create_base_record_list, create_base_record_delete}
use hdns.Codec.Clauses.Ends.{
  Ends, decode_from-Ends, bool_case-ClauseEnds, int32_case-ClauseEnds, int64_case-ClauseEnds,
  message_case-ClauseEnds, string_case-ClauseEnds, uint32_case-ClauseEnds,
}
use hdns.Codec.Records.{
  record_cases, decode_record, record_list_cases, decode_record_list, record_delete_cases,
  decode_record_delete,
}
use hdns.Codec.Certificates.Ends.{certificate-Ends}
use hdns.Codec.Addresses.Ends.{address-Ends}

module _ (w : Wire) (moves : WireMoves w) where
  pub record-Ends : (n : ℕ) (b : Bytes) → Ends (length b) (decode_record w n b)
  unfolding decode_record
  record-Ends n b = decode_from-Ends w moves create_base_record (record_cases w) n b (
    int64_case-ClauseEnds w moves 8 _,
    (
      int64_case-ClauseEnds w moves 16 _,
      (
        int64_case-ClauseEnds w moves 24 _,
        (
          string_case-ClauseEnds w moves 34 _,
          (
            int64_case-ClauseEnds w moves 40 _,
            (
              string_case-ClauseEnds w moves 50 _,
              (
                string_case-ClauseEnds w moves 58 _,
                (
                  uint32_case-ClauseEnds w moves 64 (λ v m. record m { ttl = v }),
                  (
                    int64_case-ClauseEnds w moves 72 _,
                    (
                      message_case-ClauseEnds w moves 82 _ _ (address-Ends w moves),
                      (
                        int32_case-ClauseEnds w moves 88 _,
                        (
                          bool_case-ClauseEnds w moves 96 _,
                          (
                            message_case-ClauseEnds w moves 106 _ _ (certificate-Ends w moves),
                            (string_case-ClauseEnds w moves 114 _, tt),
                          ),
                        ),
                      ),
                    ),
                  ),
                ),
              ),
            ),
          ),
        ),
      ),
    ),
  )

  pub record_list-Ends : (n : ℕ) (b : Bytes) → Ends (length b) (decode_record_list w n b)
  unfolding decode_record_list
  record_list-Ends n b =
      decode_from-Ends w moves create_base_record_list (record_list_cases w) n b
        (message_case-ClauseEnds w moves 10 _ _ record-Ends, tt)

  pub record_delete-Ends : (n : ℕ) (b : Bytes) → Ends (length b) (decode_record_delete w n b)
  unfolding decode_record_delete
  record_delete-Ends n b =
      decode_from-Ends w moves create_base_record_delete (record_delete_cases w) n b (
        message_case-ClauseEnds w moves 10 _ _ record-Ends,
        (bool_case-ClauseEnds w moves 16 _, tt),
      )
