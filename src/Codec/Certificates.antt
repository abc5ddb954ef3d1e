-- ===== src/Codec/Certificates.antt =====
-- frontend/src/app/global/model/api.ts: `encode` and `decode` of `Certificate` and `CertificateList`.
pub mod RoundTrip
pub mod Ends
pub mod Json
use hdns.Prelude.{
  ℕ, ℤ, pos, String, Bool, true, false, Option, none, some, List, [], ◌∷◌, ◌++◌, ◌≡◌, ◌<◌, ◌^◌,
  refl, arith, All, length,
}
use hdns.Codec.Wire.{Wire, Bytes}
use hdns.Codec.Messages.{CertificateMessage, CertificateListMessage}
use hdns.Codec.Base.{create_base_certificate, create_base_certificate_list}
use hdns.Codec.Clauses.{
  Outcome, Clause, write_all, decode_from, int64_field, messages_field, string_field, int64_case,
  message_case, string_case,
}

module _ (w : Wire) where
  abbrev pub certificate_fields : CertificateMessage → List (Option Bytes)
  certificate_fields m =
      int64_field w 8 (m.id)
      ∷ int64_field w 16 (m.created_at)
      ∷ int64_field w 24 (m.updated_at)
      ∷ int64_field w 32 (m.record_id)
      ∷ string_field w 42 (m.domains)
      ∷ string_field w 50 (m.status)
      ∷ int64_field w 56 (m.not_before)
      ∷ int64_field w 64 (m.not_after)
      ∷ string_field w 74 (m.serial)
      ∷ string_field w 82 (m.last_error)
      ∷ []

  unfoldable pub encode_certificate : CertificateMessage → Option Bytes
  encode_certificate m = write_all (certificate_fields m)

  abbrev pub certificate_cases : List (Clause CertificateMessage)
  certificate_cases =
      int64_case w 8 (λ v m. record m { id = v })
      ∷ int64_case w 16 (λ v m. record m { created_at = v })
      ∷ int64_case w 24 (λ v m. record m { updated_at = v })
      ∷ int64_case w 32 (λ v m. record m { record_id = v })
      ∷ string_case w 42 (λ v m. record m { domains = v })
      ∷ string_case w 50 (λ v m. record m { status = v })
      ∷ int64_case w 56 (λ v m. record m { not_before = v })
      ∷ int64_case w 64 (λ v m. record m { not_after = v })
      ∷ string_case w 74 (λ v m. record m { serial = v })
      ∷ string_case w 82 (λ v m. record m { last_error = v })
      ∷ []

  unfoldable pub decode_certificate : ℕ → Bytes → Outcome (CertificateMessage × Bytes)
  decode_certificate = decode_from w create_base_certificate certificate_cases

  abbrev pub certificate_list_fields : CertificateListMessage → List (Option Bytes)
  certificate_list_fields m = messages_field w encode_certificate 10 (m.certificates) ∷ []

  unfoldable pub encode_certificate_list : CertificateListMessage → Option Bytes
  encode_certificate_list m = write_all (certificate_list_fields m)

  abbrev pub certificate_list_cases : List (Clause CertificateListMessage)
  certificate_list_cases =
      message_case w decode_certificate 10
        (λ v m. record m { certificates = m.certificates ++ v ∷ [] })
      ∷ []

  unfoldable pub decode_certificate_list : ℕ → Bytes → Outcome (CertificateListMessage × Bytes)
  decode_certificate_list = decode_from w create_base_certificate_list certificate_list_cases
