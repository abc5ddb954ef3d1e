-- ===== src/Codec/Records.antt =====
-- frontend/src/app/global/model/api.ts: `encode` and `decode` of `Record`, `RecordList` and `RecordDelete`.
pub mod RoundTrip
pub mod Ends
pub mod Json
use hdns.Prelude.{
  ℕ, ℤ, pos, String, Bool, true, false, Option, none, some, List, [], ◌∷◌, ◌++◌, ◌≡◌, ◌<◌, ◌^◌,
  refl, arith, All, length,
}
use hdns.Codec.Wire.{Wire, Bytes}
use hdns.Codec.Messages.{RecordMessage, RecordListMessage, RecordDeleteMessage}
use hdns.Codec.Base.{create_base_record, create_base_record_list, create_base_record_delete}
use hdns.Codec.Clauses.{
  Outcome, Clause, write_all, decode_from, bool_field, int32_field, int64_field, message_field,
  messages_field, string_field, uint32_field, bool_case, int32_case, int64_case, message_case,
  string_case, uint32_case,
}
use hdns.Codec.Certificates.{encode_certificate, decode_certificate}
use hdns.Codec.Addresses.{encode_address, decode_address}

module _ (w : Wire) where
  abbrev pub record_fields : RecordMessage → List (Option Bytes)
  record_fields m =
      int64_field w 8 (m.id)
      ∷ int64_field w 16 (m.created_at)
      ∷ int64_field w 24 (m.updated_at)
      ∷ string_field w 34 (m.token)
      ∷ int64_field w 40 (m.zone_id)
      ∷ string_field w 50 (m.domain)
      ∷ string_field w 58 (m.name)
      ∷ uint32_field w 64 (m.ttl)
      ∷ int64_field w 72 (m.address_id)
      ∷ message_field w (encode_address w) 82 (m.address)
      ∷ int32_field w 88 (m.purpose)
      ∷ bool_field w 96 (m.include_wildcard)
      ∷ message_field w (encode_certificate w) 106 (m.certificate)
      ∷ string_field w 114 (m.acme_email)
      ∷ []

  unfoldable pub encode_record : RecordMessage → Option Bytes
  encode_record m = write_all (record_fields m)

  abbrev pub record_cases : List (Clause RecordMessage)
  record_cases =
      int64_case w 8 (λ v m. record m { id = v })
      ∷ int64_case w 16 (λ v m. record m { created_at = v })
      ∷ int64_case w 24 (λ v m. record m { updated_at = v })
      ∷ string_case w 34 (λ v m. record m { token = v })
      ∷ int64_case w 40 (λ v m. record m { zone_id = v })
      ∷ string_case w 50 (λ v m. record m { domain = v })
      ∷ string_case w 58 (λ v m. record m { name = v })
      ∷ uint32_case w 64 (λ v m. record m { ttl = v })
      ∷ int64_case w 72 (λ v m. record m { address_id = v })
      ∷ message_case w (decode_address w) 82 (λ v m. record m { address = some v })
      ∷ int32_case w 88 (λ v m. record m { purpose = v })
      ∷ bool_case w 96 (λ v m. record m { include_wildcard = v })
      ∷ message_case w (decode_certificate w) 106 (λ v m. record m { certificate = some v })
      ∷ string_case w 114 (λ v m. record m { acme_email = v })
      ∷ []

  unfoldable pub decode_record : ℕ → Bytes → Outcome (RecordMessage × Bytes)
  decode_record = decode_from w create_base_record record_cases

  abbrev pub record_list_fields : RecordListMessage → List (Option Bytes)
  record_list_fields m = messages_field w encode_record 10 (m.records) ∷ []

  unfoldable pub encode_record_list : RecordListMessage → Option Bytes
  encode_record_list m = write_all (record_list_fields m)

  abbrev pub record_list_cases : List (Clause RecordListMessage)
  record_list_cases =
      message_case w decode_record 10 (λ v m. record m { records = m.records ++ v ∷ [] }) ∷ []

  unfoldable pub decode_record_list : ℕ → Bytes → Outcome (RecordListMessage × Bytes)
  decode_record_list = decode_from w create_base_record_list record_list_cases

  abbrev pub record_delete_fields : RecordDeleteMessage → List (Option Bytes)
  record_delete_fields m =
      message_field w encode_record 10 (m.record') ∷ bool_field w 16 (m.delete_from_hetzner) ∷ []

  unfoldable pub encode_record_delete : RecordDeleteMessage → Option Bytes
  encode_record_delete m = write_all (record_delete_fields m)

  abbrev pub record_delete_cases : List (Clause RecordDeleteMessage)
  record_delete_cases =
      message_case w decode_record 10 (λ v m. record m { record' = some v })
      ∷ bool_case w 16 (λ v m. record m { delete_from_hetzner = v })
      ∷ []

  unfoldable pub decode_record_delete : ℕ → Bytes → Outcome (RecordDeleteMessage × Bytes)
  decode_record_delete = decode_from w create_base_record_delete record_delete_cases
