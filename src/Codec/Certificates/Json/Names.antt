-- ===== src/Codec/Certificates/Json/Names.antt =====
-- `Certificate` and `CertificateList`: `fromJSON` reads an object by these names alone.
use hdns.Prelude.{String, ◌≡◌, refl, List, [], ◌∷◌, All}
use hdns.Codec.Json.{object, Props, Host}
use hdns.Codec.Json.Agree.{Agree, messages_in-Agree, number_in-Agree, text_in-Agree}
use hdns.Codec.Certificates.Json.{from_json_certificate, from_json_certificate_list}

abbrev pub certificate_names : List (List String)
certificate_names =
    ("id" ∷ [])
    ∷ ("createdAt" ∷ "created_at" ∷ [])
    ∷ ("updatedAt" ∷ "updated_at" ∷ [])
    ∷ ("recordId" ∷ "record_id" ∷ [])
    ∷ ("domains" ∷ [])
    ∷ ("status" ∷ [])
    ∷ ("notBefore" ∷ "not_before" ∷ [])
    ∷ ("notAfter" ∷ "not_after" ∷ [])
    ∷ ("serial" ∷ [])
    ∷ ("lastError" ∷ "last_error" ∷ [])
    ∷ []

abbrev pub certificate_list_names : List (List String)
certificate_list_names = ("certificates" ∷ []) ∷ []

module _ (host : Host) (ps qs : Props) where
  pub from_json_certificate-Agree :
      All (Agree ps qs) certificate_names
      → from_json_certificate host (object ps) ≡ from_json_certificate host (object qs)
  unfolding from_json_certificate
  from_json_certificate-Agree h =
      rw
        (
          number_in-Agree host ps qs ("id" ∷ []) h.0,
          number_in-Agree host ps qs ("createdAt" ∷ "created_at" ∷ []) h.1.0,
          number_in-Agree host ps qs ("updatedAt" ∷ "updated_at" ∷ []) h.1.1.0,
          number_in-Agree host ps qs ("recordId" ∷ "record_id" ∷ []) h.1.1.1.0,
          text_in-Agree host ps qs ("domains" ∷ []) h.1.1.1.1.0,
          text_in-Agree host ps qs ("status" ∷ []) h.1.1.1.1.1.0,
          number_in-Agree host ps qs ("notBefore" ∷ "not_before" ∷ []) h.1.1.1.1.1.1.0,
          number_in-Agree host ps qs ("notAfter" ∷ "not_after" ∷ []) h.1.1.1.1.1.1.1.0,
          text_in-Agree host ps qs ("serial" ∷ []) h.1.1.1.1.1.1.1.1.0,
          text_in-Agree host ps qs ("lastError" ∷ "last_error" ∷ []) h.1.1.1.1.1.1.1.1.1.0,
        )
        refl

  pub from_json_certificate_list-Agree :
      All (Agree ps qs) certificate_list_names
      → from_json_certificate_list host (object ps) ≡ from_json_certificate_list host (object qs)
  unfolding from_json_certificate_list
  from_json_certificate_list-Agree h =
      rw (messages_in-Agree host ps qs ("certificates" ∷ []) (from_json_certificate host) h.0) refl
