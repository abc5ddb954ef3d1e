-- ===== src/Codec/Certificates/Json/Back.antt =====
-- `Certificate` and `CertificateList`: what `toJSON` makes is read by `fromJSON`.
use hdns.Prelude.{◌≡◌, refl, some, [], ◌∷◌, All}
use hdns.Codec.Messages.{CertificateMessage, CertificateListMessage}
use hdns.Codec.Json.{Host, HostLaws}
use hdns.Codec.Json.Back.{messages_in-props, number_in-props, text_in-props}
use hdns.Codec.Certificates.Json.{
  certificate_props, to_json_certificate, from_json_certificate, certificate_list_props,
  to_json_certificate_list, from_json_certificate_list,
}

-- The messages whose enumerations have a number that the source names.
abbrev pub IsKnownCertificate : CertificateMessage → Type 0
IsKnownCertificate m = Unit

abbrev pub IsKnownCertificateList : CertificateListMessage → Type 0
IsKnownCertificateList m = All IsKnownCertificate (m.certificates)

module _ (host : Host) (laws : HostLaws host) where
  pub from_json-to_json_certificate :
      (m : CertificateMessage)
      → IsKnownCertificate m
      → from_json_certificate host (to_json_certificate m) ≡ some m
  unfolding from_json_certificate to_json_certificate
  from_json-to_json_certificate m i =
      rw
        (
          number_in-props host laws (certificate_props m) ("id" ∷ []) (m.id) refl,
          number_in-props host laws (certificate_props m) ("createdAt" ∷ "created_at" ∷ [])
              (m.created_at) refl,
          number_in-props host laws (certificate_props m) ("updatedAt" ∷ "updated_at" ∷ [])
              (m.updated_at) refl,
          number_in-props host laws (certificate_props m) ("recordId" ∷ "record_id" ∷ [])
              (m.record_id) refl,
          text_in-props host laws (certificate_props m) ("domains" ∷ []) (m.domains) refl,
          text_in-props host laws (certificate_props m) ("status" ∷ []) (m.status) refl,
          number_in-props host laws (certificate_props m) ("notBefore" ∷ "not_before" ∷ [])
              (m.not_before) refl,
          number_in-props host laws (certificate_props m) ("notAfter" ∷ "not_after" ∷ [])
              (m.not_after) refl,
          text_in-props host laws (certificate_props m) ("serial" ∷ []) (m.serial) refl,
          text_in-props host laws (certificate_props m) ("lastError" ∷ "last_error" ∷ [])
              (m.last_error) refl,
        )
        refl

  pub from_json-to_json_certificate_list :
      (m : CertificateListMessage)
      → IsKnownCertificateList m
      → from_json_certificate_list host (to_json_certificate_list m) ≡ some m
  unfolding from_json_certificate_list to_json_certificate_list
  from_json-to_json_certificate_list m i1 =
      rw
        (messages_in-props host (certificate_list_props m) ("certificates" ∷ [])
          (from_json_certificate host) to_json_certificate IsKnownCertificate (m.certificates) i1
          (from_json-to_json_certificate) refl)
        refl
