-- ===== src/Codec/Records/Json/Back.antt =====
-- `Record`, `RecordList` and `RecordDelete`: what `toJSON` makes is read by `fromJSON`.
use hdns.Prelude.{◌≡◌, refl, some, [], ◌∷◌, All}
use hdns.Codec.Clauses.Repeated.{Given}
use hdns.Codec.Messages.{RecordMessage, RecordListMessage, RecordDeleteMessage}
use hdns.Codec.Json.{Host, HostLaws}
use hdns.Codec.Json.Write.{purpose_of_code}
use hdns.Codec.Json.Read.{purpose_code}
use hdns.Codec.Json.Back.{
  boolean_in-props, message_in-props, messages_in-props, number_in-props, purpose_in-props,
  text_in-props,
}
use hdns.Codec.Records.Json.{
  record_props, to_json_record, from_json_record, record_list_props, to_json_record_list,
  from_json_record_list, record_delete_props, to_json_record_delete, from_json_record_delete,
}
use hdns.Codec.Addresses.Json.{to_json_address, from_json_address}
use hdns.Codec.Certificates.Json.{to_json_certificate, from_json_certificate}
use hdns.Codec.Addresses.Json.Back.{IsKnownAddress, from_json-to_json_address}
use hdns.Codec.Certificates.Json.Back.{IsKnownCertificate, from_json-to_json_certificate}

-- The messages whose enumerations have a number that the source names.
abbrev pub IsKnownRecord : RecordMessage → Type 0
IsKnownRecord m =
    Given IsKnownAddress (m.address)
    × (purpose_code (purpose_of_code (m.purpose)) ≡ m.purpose)
    × Given IsKnownCertificate (m.certificate)

abbrev pub IsKnownRecordList : RecordListMessage → Type 0
IsKnownRecordList m = All IsKnownRecord (m.records)

abbrev pub IsKnownRecordDelete : RecordDeleteMessage → Type 0
IsKnownRecordDelete m = Given IsKnownRecord (m.record')

module _ (host : Host) (laws : HostLaws host) where
  pub from_json-to_json_record :
      (m : RecordMessage) → IsKnownRecord m → from_json_record host (to_json_record m) ≡ some m
  unfolding from_json_record to_json_record to_json_address to_json_certificate
  from_json-to_json_record m (i1, i2, i3) =
      rw
        (
          number_in-props host laws (record_props m) ("id" ∷ []) (m.id) refl,
          number_in-props host laws (record_props m) ("createdAt" ∷ "created_at" ∷ [])
              (m.created_at) refl,
          number_in-props host laws (record_props m) ("updatedAt" ∷ "updated_at" ∷ [])
              (m.updated_at) refl,
          text_in-props host laws (record_props m) ("token" ∷ []) (m.token) refl,
          number_in-props host laws (record_props m) ("zoneId" ∷ "zone_id" ∷ []) (m.zone_id) refl,
          text_in-props host laws (record_props m) ("domain" ∷ []) (m.domain) refl,
          text_in-props host laws (record_props m) ("name" ∷ []) (m.name) refl,
          number_in-props host laws (record_props m) ("ttl" ∷ []) (m.ttl) refl,
          number_in-props host laws (record_props m) ("addressId" ∷ "address_id" ∷ [])
              (m.address_id) refl,
          message_in-props host laws (record_props m) ("address" ∷ []) (from_json_address host)
              to_json_address IsKnownAddress (m.address) i1
              (λ x k. (from_json-to_json_address host laws x k, refl)) refl,
          purpose_in-props host laws (record_props m) ("purpose" ∷ []) (m.purpose) i2 refl,
          boolean_in-props host laws (record_props m) ("includeWildcard" ∷ "include_wildcard" ∷ [])
              (m.include_wildcard) refl,
          message_in-props host laws (record_props m) ("certificate" ∷ [])
              (from_json_certificate host) to_json_certificate IsKnownCertificate (m.certificate) i3
              (λ x k. (from_json-to_json_certificate host laws x k, refl)) refl,
          text_in-props host laws (record_props m) ("acmeEmail" ∷ "acme_email" ∷ []) (m.acme_email)
              refl,
        )
        refl

  pub from_json-to_json_record_list :
      (m : RecordListMessage)
      → IsKnownRecordList m
      → from_json_record_list host (to_json_record_list m) ≡ some m
  unfolding from_json_record_list to_json_record_list
  from_json-to_json_record_list m i1 =
      rw
        (messages_in-props host (record_list_props m) ("records" ∷ []) (from_json_record host)
          to_json_record IsKnownRecord (m.records) i1 (from_json-to_json_record) refl)
        refl

  pub from_json-to_json_record_delete :
      (m : RecordDeleteMessage)
      → IsKnownRecordDelete m
      → from_json_record_delete host (to_json_record_delete m) ≡ some m
  unfolding from_json_record_delete to_json_record_delete to_json_record
  from_json-to_json_record_delete m i1 =
      rw
        (
          message_in-props host laws (record_delete_props m) ("record" ∷ []) (from_json_record host)
              to_json_record IsKnownRecord (m.record') i1
              (λ x k. (from_json-to_json_record x k, refl)) refl,
          boolean_in-props host laws (record_delete_props m)
              ("deleteFromHetzner" ∷ "delete_from_hetzner" ∷ []) (m.delete_from_hetzner) refl,
        )
        refl
