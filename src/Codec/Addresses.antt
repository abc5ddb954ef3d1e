-- ===== src/Codec/Addresses.antt =====
-- frontend/src/app/global/model/api.ts: `encode` and `decode` of `Empty`, `Line`, `Request`, `Address` and `AddressHistory`.
pub mod RoundTrip
pub mod Ends
pub mod Json
use hdns.Prelude.{
  ℕ, ℤ, pos, String, Bool, true, false, Option, none, some, List, [], ◌∷◌, ◌++◌, ◌≡◌, ◌<◌, ◌^◌,
  refl, arith, All, length,
}
use hdns.Codec.Wire.{Wire, Bytes}
use hdns.Codec.Messages.{
  EmptyMessage, LineMessage, RequestMessage, AddressMessage, AddressHistoryMessage,
}
use hdns.Codec.Base.{
  create_base_empty, create_base_line, create_base_request, create_base_address,
  create_base_address_history,
}
use hdns.Codec.Clauses.{
  Outcome, Clause, write_all, decode_from, bool_field, int64_field, messages_field, string_field,
  bool_case, int64_case, message_case, string_case,
}

module _ (w : Wire) where
  abbrev pub empty_fields : EmptyMessage → List (Option Bytes)
  empty_fields m = []

  unfoldable pub encode_empty : EmptyMessage → Option Bytes
  encode_empty m = write_all (empty_fields m)

  abbrev pub empty_cases : List (Clause EmptyMessage)
  empty_cases = []

  unfoldable pub decode_empty : ℕ → Bytes → Outcome (EmptyMessage × Bytes)
  decode_empty = decode_from w create_base_empty empty_cases

  abbrev pub line_fields : LineMessage → List (Option Bytes)
  line_fields m = string_field w 10 (m.line) ∷ []

  unfoldable pub encode_line : LineMessage → Option Bytes
  encode_line m = write_all (line_fields m)

  abbrev pub line_cases : List (Clause LineMessage)
  line_cases = string_case w 10 (λ v m. record m { line = v }) ∷ []

  unfoldable pub decode_line : ℕ → Bytes → Outcome (LineMessage × Bytes)
  decode_line = decode_from w create_base_line line_cases

  abbrev pub request_fields : RequestMessage → List (Option Bytes)
  request_fields m = string_field w 10 (m.search) ∷ []

  unfoldable pub encode_request : RequestMessage → Option Bytes
  encode_request m = write_all (request_fields m)

  abbrev pub request_cases : List (Clause RequestMessage)
  request_cases = string_case w 10 (λ v m. record m { search = v }) ∷ []

  unfoldable pub decode_request : ℕ → Bytes → Outcome (RequestMessage × Bytes)
  decode_request = decode_from w create_base_request request_cases

  abbrev pub address_fields : AddressMessage → List (Option Bytes)
  address_fields m =
      int64_field w 8 (m.id)
      ∷ int64_field w 16 (m.created_at)
      ∷ int64_field w 24 (m.updated_at)
      ∷ string_field w 34 (m.ipv4)
      ∷ string_field w 42 (m.ipv6)
      ∷ bool_field w 48 (m.current)
      ∷ []

  unfoldable pub encode_address : AddressMessage → Option Bytes
  encode_address m = write_all (address_fields m)

  abbrev pub address_cases : List (Clause AddressMessage)
  address_cases =
      int64_case w 8 (λ v m. record m { id = v })
      ∷ int64_case w 16 (λ v m. record m { created_at = v })
      ∷ int64_case w 24 (λ v m. record m { updated_at = v })
      ∷ string_case w 34 (λ v m. record m { ipv4 = v })
      ∷ string_case w 42 (λ v m. record m { ipv6 = v })
      ∷ bool_case w 48 (λ v m. record m { current = v })
      ∷ []

  unfoldable pub decode_address : ℕ → Bytes → Outcome (AddressMessage × Bytes)
  decode_address = decode_from w create_base_address address_cases

  abbrev pub address_history_fields : AddressHistoryMessage → List (Option Bytes)
  address_history_fields m = messages_field w encode_address 10 (m.addresses) ∷ []

  unfoldable pub encode_address_history : AddressHistoryMessage → Option Bytes
  encode_address_history m = write_all (address_history_fields m)

  abbrev pub address_history_cases : List (Clause AddressHistoryMessage)
  address_history_cases =
      message_case w decode_address 10 (λ v m. record m { addresses = m.addresses ++ v ∷ [] }) ∷ []

  unfoldable pub decode_address_history : ℕ → Bytes → Outcome (AddressHistoryMessage × Bytes)
  decode_address_history = decode_from w create_base_address_history address_history_cases
