-- ===== src/Codec/Zones/Ends.antt =====
-- `Zone`, `ZoneList`, `Resolution`, `ResolutionResult` and `LogEntry`: reading ends.
use hdns.Prelude.{ℕ, length}
use hdns.Codec.Wire.{Wire, WireMoves, Bytes}
use hdns.Codec.Base.{
  create_base_zone, create_base_zone_list, create_base_resolution, create_base_resolution_result,
  create_base_log_entry,
}
use hdns.Codec.Clauses.Ends.{
  Ends, decode_from-Ends, int32_case-ClauseEnds, int64_case-ClauseEnds, message_case-ClauseEnds,
  string_case-ClauseEnds,
}
use hdns.Codec.Zones.{
  zone_cases, decode_zone, zone_list_cases, decode_zone_list, resolution_cases, decode_resolution,
  resolution_result_cases, decode_resolution_result, log_entry_cases, decode_log_entry,
}

module _ (w : Wire) (moves : WireMoves w) where
  pub zone-Ends : (n : ℕ) (b : Bytes) → Ends (length b) (decode_zone w n b)
  unfolding decode_zone
  zone-Ends n b = decode_from-Ends w moves create_base_zone (zone_cases w) n b (
    int64_case-ClauseEnds w moves 8 _,
    (string_case-ClauseEnds w moves 18 _, (int64_case-ClauseEnds w moves 24 _, tt)),
  )

  pub zone_list-Ends : (n : ℕ) (b : Bytes) → Ends (length b) (decode_zone_list w n b)
  unfolding decode_zone_list
  zone_list-Ends n b =
      decode_from-Ends w moves create_base_zone_list (zone_list_cases w) n b
        (message_case-ClauseEnds w moves 10 _ _ zone-Ends, tt)

  pub resolution-Ends : (n : ℕ) (b : Bytes) → Ends (length b) (decode_resolution w n b)
  unfolding decode_resolution
  resolution-Ends n b = decode_from-Ends w moves create_base_resolution (resolution_cases w) n b (
    string_case-ClauseEnds w moves 10 _,
    (
      string_case-ClauseEnds w moves 18 _,
      (int64_case-ClauseEnds w moves 24 _, (string_case-ClauseEnds w moves 34 _, tt)),
    ),
  )

  pub resolution_result-Ends :
      (n : ℕ) (b : Bytes) → Ends (length b) (decode_resolution_result w n b)
  unfolding decode_resolution_result
  resolution_result-Ends n b =
      decode_from-Ends w moves create_base_resolution_result (resolution_result_cases w) n b
        (message_case-ClauseEnds w moves 10 _ _ resolution-Ends, tt)

  pub log_entry-Ends : (n : ℕ) (b : Bytes) → Ends (length b) (decode_log_entry w n b)
  unfolding decode_log_entry
  log_entry-Ends n b = decode_from-Ends w moves create_base_log_entry (log_entry_cases w) n b (
    int64_case-ClauseEnds w moves 8 _,
    (int32_case-ClauseEnds w moves 16 _, (string_case-ClauseEnds w moves 26 _, tt)),
  )
