-- ===== src/Codec/Certificates/RoundTrip.antt =====
-- `Certificate` and `CertificateList`: what is written is read again.
use hdns.Prelude.{true, ◌≡◌, refl, arith, All}
use hdns.Codec.Wire.{Wire, WireLaws, WireMoves, IsSafe}
use hdns.Codec.Messages.{CertificateMessage, CertificateListMessage}
use hdns.Codec.Base.{create_base_certificate, create_base_certificate_list}
use hdns.Codec.Clauses.{select}
use hdns.Codec.Clauses.Rounds.{Steps, done, ◌▸◌, RoundTrip, Steps-RoundTrip}
use hdns.Codec.Clauses.Fields.{int64-Carries, string-Carries}
use hdns.Codec.Clauses.Repeated.{Fits, messages-Carries}
use hdns.Codec.Certificates.{
  certificate_fields, encode_certificate, certificate_cases, decode_certificate,
  certificate_list_fields, certificate_list_cases,
}

-- The messages whose numbers have the range of their types, whose texts survive UTF-8, and whose parts
-- have a length that can be written.
module _ (w : Wire) where
  abbrev pub IsCertificate : CertificateMessage → Type 0
  IsCertificate m =
      IsSafe (m.id)
      × IsSafe (m.created_at)
      × IsSafe (m.updated_at)
      × IsSafe (m.record_id)
      × (w.keeps (m.domains) ≡ true)
      × (w.keeps (m.status) ≡ true)
      × IsSafe (m.not_before)
      × IsSafe (m.not_after)
      × (w.keeps (m.serial) ≡ true)
      × (w.keeps (m.last_error) ≡ true)

  abbrev pub IsCertificateList : CertificateListMessage → Type 0
  IsCertificateList m = All (λ x. IsCertificate x × Fits (encode_certificate w x)) (m.certificates)

  module _ (laws : WireLaws w) (moves : WireMoves w) where
    pub certificate-Steps :
        (m : CertificateMessage)
        → IsCertificate m
        → Steps w (certificate_cases w) (certificate_fields w m) create_base_certificate m
    unfolding select
    certificate-Steps m (i1, i2, i3, i4, i5, i6, i7, i8, i9, i10) =
        int64-Carries w laws moves 8 _ (m.id) i1 refl (omega arith) refl
        ▸ int64-Carries w laws moves 16 _ (m.created_at) i2 refl (omega arith) refl
        ▸ int64-Carries w laws moves 24 _ (m.updated_at) i3 refl (omega arith) refl
        ▸ int64-Carries w laws moves 32 _ (m.record_id) i4 refl (omega arith) refl
        ▸ string-Carries w laws moves 42 _ (m.domains) i5 refl (omega arith) refl
        ▸ string-Carries w laws moves 50 _ (m.status) i6 refl (omega arith) refl
        ▸ int64-Carries w laws moves 56 _ (m.not_before) i7 refl (omega arith) refl
        ▸ int64-Carries w laws moves 64 _ (m.not_after) i8 refl (omega arith) refl
        ▸ string-Carries w laws moves 74 _ (m.serial) i9 refl (omega arith) refl
        ▸ string-Carries w laws moves 82 _ (m.last_error) i10 refl (omega arith) refl
        ▸ done

    pub certificate-RoundTrip :
        (m : CertificateMessage)
        → IsCertificate m
        → RoundTrip w (encode_certificate w) (decode_certificate w) m
    unfolding encode_certificate decode_certificate
    certificate-RoundTrip m i =
        Steps-RoundTrip w (certificate_cases w) (certificate_fields w m) create_base_certificate m
          (certificate-Steps m i)

    pub certificate_list-Steps :
        (m : CertificateListMessage)
        → IsCertificateList m
        → Steps w
            (certificate_list_cases w)
            (certificate_list_fields w m)
            create_base_certificate_list
            m
    unfolding select
    certificate_list-Steps m i1 =
        messages-Carries w laws moves (encode_certificate w) (decode_certificate w) IsCertificate 10
          _ (λ v m. record m { certificates = v }) (m.certificates) i1 certificate-RoundTrip refl
          (λ vs v. refl) (omega arith) refl
        ▸ done
