-- ===== src/Codec/Certificates/Json.antt =====
-- frontend/src/app/global/model/api.ts: `fromJSON` and `toJSON` of `Certificate` and `CertificateList`.
pub mod Back
pub mod Names
use hdns.Prelude.{Option, some, List, [], ◌∷◌}
use hdns.Codec.Messages.{CertificateMessage, CertificateListMessage}
use hdns.Codec.Json.{Json, object, Host}
use hdns.Codec.Json.Write.{Chunk, props, messages_json, number_json, text_json}
use hdns.Codec.Json.Read.{◌>>=◌, messages_in, number_in, text_in}

abbrev pub certificate_props : CertificateMessage → List Chunk
certificate_props m =
    ("id", number_json (m.id))
    ∷ ("createdAt", number_json (m.created_at))
    ∷ ("updatedAt", number_json (m.updated_at))
    ∷ ("recordId", number_json (m.record_id))
    ∷ ("domains", text_json (m.domains))
    ∷ ("status", text_json (m.status))
    ∷ ("notBefore", number_json (m.not_before))
    ∷ ("notAfter", number_json (m.not_after))
    ∷ ("serial", text_json (m.serial))
    ∷ ("lastError", text_json (m.last_error))
    ∷ []

unfoldable pub to_json_certificate : CertificateMessage → Json
to_json_certificate m = object (props (certificate_props m))

abbrev pub certificate_list_props : CertificateListMessage → List Chunk
certificate_list_props m = ("certificates", messages_json to_json_certificate (m.certificates)) ∷ []

unfoldable pub to_json_certificate_list : CertificateListMessage → Json
to_json_certificate_list m = object (props (certificate_list_props m))

module _ (host : Host) where
  unfoldable pub from_json_certificate : Json → Option CertificateMessage
  from_json_certificate o = do
    id ← number_in host o ("id" ∷ [])
    created_at ← number_in host o ("createdAt" ∷ "created_at" ∷ [])
    updated_at ← number_in host o ("updatedAt" ∷ "updated_at" ∷ [])
    record_id ← number_in host o ("recordId" ∷ "record_id" ∷ [])
    domains ← text_in host o ("domains" ∷ [])
    status ← text_in host o ("status" ∷ [])
    not_before ← number_in host o ("notBefore" ∷ "not_before" ∷ [])
    not_after ← number_in host o ("notAfter" ∷ "not_after" ∷ [])
    serial ← text_in host o ("serial" ∷ [])
    last_error ← text_in host o ("lastError" ∷ "last_error" ∷ [])
    some (record {
      id = id;
      created_at = created_at;
      updated_at = updated_at;
      record_id = record_id;
      domains = domains;
      status = status;
      not_before = not_before;
      not_after = not_after;
      serial = serial;
      last_error = last_error;
    })

  unfoldable pub from_json_certificate_list : Json → Option CertificateListMessage
  from_json_certificate_list o = do
    certificates ← messages_in host from_json_certificate o ("certificates" ∷ [])
    some (record { certificates = certificates })
