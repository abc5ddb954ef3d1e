-- ===== src/Codec/Addresses/Ends.antt =====
-- `Empty`, `Line`, `Request`, `Address` and `AddressHistory`: reading ends.
use hdns.Prelude.{ℕ, length}
use hdns.Codec.Wire.{Wire, WireMoves, Bytes}
use hdns.Codec.Base.{
  create_base_empty, create_base_line, create_base_request, create_base_address,
  create_base_address_history,
}
use hdns.Codec.Clauses.Ends.{
  Ends, decode_from-Ends, bool_case-ClauseEnds, int64_case-ClauseEnds, message_case-ClauseEnds,
  string_case-ClauseEnds,
}
use hdns.Codec.Addresses.{
  empty_cases, decode_empty, line_cases, decode_line, request_cases, decode_request, address_cases,
  decode_address, address_history_cases, decode_address_history,
}

module _ (w : Wire) (moves : WireMoves w) where
  pub empty-Ends : (n : ℕ) (b : Bytes) → Ends (length b) (decode_empty w n b)
  unfolding decode_empty
  empty-Ends n b = decode_from-Ends w moves create_base_empty (empty_cases w) n b tt

  pub line-Ends : (n : ℕ) (b : Bytes) → Ends (length b) (decode_line w n b)
  unfolding decode_line
  line-Ends n b =
      decode_from-Ends w moves create_base_line (line_cases w) n b
        (string_case-ClauseEnds w moves 10 _, tt)

  pub request-Ends : (n : ℕ) (b : Bytes) → Ends (length b) (decode_request w n b)
  unfolding decode_request
  request-Ends n b =
      decode_from-Ends w moves create_base_request (request_cases w) n b
        (string_case-ClauseEnds w moves 10 _, tt)

  pub address-Ends : (n : ℕ) (b : Bytes) → Ends (length b) (decode_address w n b)
  unfolding decode_address
  address-Ends n b = decode_from-Ends w moves create_base_address (address_cases w) n b (
    int64_case-ClauseEnds w moves 8 _,
    (
      int64_case-ClauseEnds w moves 16 _,
      (
        int64_case-ClauseEnds w moves 24 _,
        (
          string_case-ClauseEnds w moves 34 _,
          (string_case-ClauseEnds w moves 42 _, (bool_case-ClauseEnds w moves 48 _, tt)),
        ),
      ),
    ),
  )

  pub address_history-Ends : (n : ℕ) (b : Bytes) → Ends (length b) (decode_address_history w n b)
  unfolding decode_address_history
  address_history-Ends n b =
      decode_from-Ends w moves create_base_address_history (address_history_cases w) n b
        (message_case-ClauseEnds w moves 10 _ _ address-Ends, tt)
