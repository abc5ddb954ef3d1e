-- ===== src/Codec/Records/Json/Names.antt =====
-- `Record`, `RecordList` and `RecordDelete`: `fromJSON` reads an object by these names alone.
use hdns.Prelude.{String, ◌≡◌, refl, List, [], ◌∷◌, All}
use hdns.Codec.Json.{object, Props, Host}
use hdns.Codec.Json.Agree.{
  Agree, boolean_in-Agree, message_in-Agree, messages_in-Agree, number_in-Agree, purpose_in-Agree,
  text_in-Agree,
}
use hdns.Codec.Records.Json.{from_json_record, from_json_record_list, from_json_record_delete}
use hdns.Codec.Addresses.Json.{from_json_address}
use hdns.Codec.Certificates.Json.{from_json_certificate}

abbrev pub record_names : List (List String)
record_names =
    ("id" ∷ [])
    ∷ ("createdAt" ∷ "created_at" ∷ [])
    ∷ ("updatedAt" ∷ "updated_at" ∷ [])
    ∷ ("token" ∷ [])
    ∷ ("zoneId" ∷ "zone_id" ∷ [])
    ∷ ("domain" ∷ [])
    ∷ ("name" ∷ [])
    ∷ ("ttl" ∷ [])
    ∷ ("addressId" ∷ "address_id" ∷ [])
    ∷ ("address" ∷ [])
    ∷ ("purpose" ∷ [])
    ∷ ("includeWildcard" ∷ "include_wildcard" ∷ [])
    ∷ ("certificate" ∷ [])
    ∷ ("acmeEmail" ∷ "acme_email" ∷ [])
    ∷ []

abbrev pub record_list_names : List (List String)
record_list_names = ("records" ∷ []) ∷ []

abbrev pub record_delete_names : List (List String)
record_delete_names = ("record" ∷ []) ∷ ("deleteFromHetzner" ∷ "delete_from_hetzner" ∷ []) ∷ []

module _ (host : Host) (ps qs : Props) where
  pub from_json_record-Agree :
      All (Agree ps qs) record_names
      → from_json_record host (object ps) ≡ from_json_record host (object qs)
  unfolding from_json_record
  from_json_record-Agree h =
      rw
        (
          number_in-Agree host ps qs ("id" ∷ []) h.0,
          number_in-Agree host ps qs ("createdAt" ∷ "created_at" ∷ []) h.1.0,
          number_in-Agree host ps qs ("updatedAt" ∷ "updated_at" ∷ []) h.1.1.0,
          text_in-Agree host ps qs ("token" ∷ []) h.1.1.1.0,
          number_in-Agree host ps qs ("zoneId" ∷ "zone_id" ∷ []) h.1.1.1.1.0,
          text_in-Agree host ps qs ("domain" ∷ []) h.1.1.1.1.1.0,
          text_in-Agree host ps qs ("name" ∷ []) h.1.1.1.1.1.1.0,
          number_in-Agree host ps qs ("ttl" ∷ []) h.1.1.1.1.1.1.1.0,
          number_in-Agree host ps qs ("addressId" ∷ "address_id" ∷ []) h.1.1.1.1.1.1.1.1.0,
          message_in-Agree host ps qs ("address" ∷ []) (from_json_address host)
              h.1.1.1.1.1.1.1.1.1.0,
          purpose_in-Agree host ps qs ("purpose" ∷ []) h.1.1.1.1.1.1.1.1.1.1.0,
          boolean_in-Agree host ps qs ("includeWildcard" ∷ "include_wildcard" ∷ [])
              h.1.1.1.1.1.1.1.1.1.1.1.0,
          message_in-Agree host ps qs ("certificate" ∷ []) (from_json_certificate host)
              h.1.1.1.1.1.1.1.1.1.1.1.1.0,
          text_in-Agree host ps qs ("acmeEmail" ∷ "acme_email" ∷ []) h.1.1.1.1.1.1.1.1.1.1.1.1.1.0,
        )
        refl

  pub from_json_record_list-Agree :
      All (Agree ps qs) record_list_names
      → from_json_record_list host (object ps) ≡ from_json_record_list host (object qs)
  unfolding from_json_record_list
  from_json_record_list-Agree h =
      rw (messages_in-Agree host ps qs ("records" ∷ []) (from_json_record host) h.0) refl

  pub from_json_record_delete-Agree :
      All (Agree ps qs) record_delete_names
      → from_json_record_delete host (object ps) ≡ from_json_record_delete host (object qs)
  unfolding from_json_record_delete
  from_json_record_delete-Agree h =
      rw
        (
          message_in-Agree host ps qs ("record" ∷ []) (from_json_record host) h.0,
          boolean_in-Agree host ps qs ("deleteFromHetzner" ∷ "delete_from_hetzner" ∷ []) h.1.0,
        )
        refl
