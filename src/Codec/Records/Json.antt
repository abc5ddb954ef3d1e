-- ===== src/Codec/Records/Json.antt =====
-- frontend/src/app/global/model/api.ts: `fromJSON` and `toJSON` of `Record`, `RecordList` and `RecordDelete`.
pub mod Back
pub mod Names
use hdns.Prelude.{Option, some, List, [], ◌∷◌}
use hdns.Codec.Messages.{RecordMessage, RecordListMessage, RecordDeleteMessage}
use hdns.Codec.Json.{Json, object, Host}
use hdns.Codec.Json.Write.{
  Chunk, props, boolean_json, message_json, messages_json, number_json, purpose_json, text_json,
}
use hdns.Codec.Json.Read.{
  ◌>>=◌, boolean_in, message_in, messages_in, number_in, purpose_in, text_in,
}
use hdns.Codec.Addresses.Json.{to_json_address, from_json_address}
use hdns.Codec.Certificates.Json.{to_json_certificate, from_json_certificate}

abbrev pub record_props : RecordMessage → List Chunk
record_props m =
    ("id", number_json (m.id))
    ∷ ("createdAt", number_json (m.created_at))
    ∷ ("updatedAt", number_json (m.updated_at))
    ∷ ("token", text_json (m.token))
    ∷ ("zoneId", number_json (m.zone_id))
    ∷ ("domain", text_json (m.domain))
    ∷ ("name", text_json (m.name))
    ∷ ("ttl", number_json (m.ttl))
    ∷ ("addressId", number_json (m.address_id))
    ∷ ("address", message_json to_json_address (m.address))
    ∷ ("purpose", purpose_json (m.purpose))
    ∷ ("includeWildcard", boolean_json (m.include_wildcard))
    ∷ ("certificate", message_json to_json_certificate (m.certificate))
    ∷ ("acmeEmail", text_json (m.acme_email))
    ∷ []

unfoldable pub to_json_record : RecordMessage → Json
to_json_record m = object (props (record_props m))

abbrev pub record_list_props : RecordListMessage → List Chunk
record_list_props m = ("records", messages_json to_json_record (m.records)) ∷ []

unfoldable pub to_json_record_list : RecordListMessage → Json
to_json_record_list m = object (props (record_list_props m))

abbrev pub record_delete_props : RecordDeleteMessage → List Chunk
record_delete_props m =
    ("record", message_json to_json_record (m.record'))
    ∷ ("deleteFromHetzner", boolean_json (m.delete_from_hetzner))
    ∷ []

unfoldable pub to_json_record_delete : RecordDeleteMessage → Json
to_json_record_delete m = object (props (record_delete_props m))

module _ (host : Host) where
  unfoldable pub from_json_record : Json → Option RecordMessage
  from_json_record o = do
    id ← number_in host o ("id" ∷ [])
    created_at ← number_in host o ("createdAt" ∷ "created_at" ∷ [])
    updated_at ← number_in host o ("updatedAt" ∷ "updated_at" ∷ [])
    token ← text_in host o ("token" ∷ [])
    zone_id ← number_in host o ("zoneId" ∷ "zone_id" ∷ [])
    domain ← text_in host o ("domain" ∷ [])
    name ← text_in host o ("name" ∷ [])
    ttl ← number_in host o ("ttl" ∷ [])
    address_id ← number_in host o ("addressId" ∷ "address_id" ∷ [])
    address ← message_in host (from_json_address host) o ("address" ∷ [])
    purpose ← purpose_in host o ("purpose" ∷ [])
    include_wildcard ← boolean_in host o ("includeWildcard" ∷ "include_wildcard" ∷ [])
    certificate ← message_in host (from_json_certificate host) o ("certificate" ∷ [])
    acme_email ← text_in host o ("acmeEmail" ∷ "acme_email" ∷ [])
    some (record {
      id = id;
      created_at = created_at;
      updated_at = updated_at;
      token = token;
      zone_id = zone_id;
      domain = domain;
      name = name;
      ttl = ttl;
      address_id = address_id;
      address = address;
      purpose = purpose;
      include_wildcard = include_wildcard;
      certificate = certificate;
      acme_email = acme_email;
    })

  unfoldable pub from_json_record_list : Json → Option RecordListMessage
  from_json_record_list o = do
    records ← messages_in host from_json_record o ("records" ∷ [])
    some (record { records = records })

  unfoldable pub from_json_record_delete : Json → Option RecordDeleteMessage
  from_json_record_delete o = do
    record' ← message_in host from_json_record o ("record" ∷ [])
    delete_from_hetzner ← boolean_in host o ("deleteFromHetzner" ∷ "delete_from_hetzner" ∷ [])
    some (record { record' = record'; delete_from_hetzner = delete_from_hetzner })
