-- ===== src/Codec/Records/RoundTrip.antt =====
-- `Record`, `RecordList` and `RecordDelete`: what is written is read again.
use hdns.Prelude.{true, ◌≡◌, refl, arith, All}
use hdns.Codec.Wire.{Wire, WireLaws, WireMoves, IsSafe, IsInt32}
use hdns.Codec.Messages.{RecordMessage, RecordListMessage, RecordDeleteMessage}
use hdns.Codec.Base.{create_base_record, create_base_record_list, create_base_record_delete}
use hdns.Codec.Clauses.{select}
use hdns.Codec.Clauses.Rounds.{Steps, done, ◌▸◌, RoundTrip, Steps-RoundTrip}
use hdns.Codec.Clauses.Fields.{
  IsUint32, bool-Carries, int32-Carries, int64-Carries, string-Carries, uint32-Carries,
}
use hdns.Codec.Clauses.Repeated.{Fits, Given, message-Carries, messages-Carries}
use hdns.Codec.Records.{
  record_fields, encode_record, record_cases, decode_record, record_list_fields, record_list_cases,
  record_delete_fields, record_delete_cases,
}
use hdns.Codec.Certificates.{encode_certificate, decode_certificate}
use hdns.Codec.Addresses.{encode_address, decode_address}
use hdns.Codec.Certificates.RoundTrip.{IsCertificate, certificate-RoundTrip}
use hdns.Codec.Addresses.RoundTrip.{IsAddress, address-RoundTrip}

-- The messages whose numbers have the range of their types, whose texts survive UTF-8, and whose parts
-- have a length that can be written.
module _ (w : Wire) where
  abbrev pub IsRecord : RecordMessage → Type 0
  IsRecord m =
      IsSafe (m.id)
      × IsSafe (m.created_at)
      × IsSafe (m.updated_at)
      × (w.keeps (m.token) ≡ true)
      × IsSafe (m.zone_id)
      × (w.keeps (m.domain) ≡ true)
      × (w.keeps (m.name) ≡ true)
      × IsUint32 (m.ttl)
      × IsSafe (m.address_id)
      × Given (λ x. IsAddress w x × Fits (encode_address w x)) (m.address)
      × IsInt32 (m.purpose)
      × Given (λ x. IsCertificate w x × Fits (encode_certificate w x)) (m.certificate)
      × (w.keeps (m.acme_email) ≡ true)

  abbrev pub IsRecordList : RecordListMessage → Type 0
  IsRecordList m = All (λ x. IsRecord x × Fits (encode_record w x)) (m.records)

  abbrev pub IsRecordDelete : RecordDeleteMessage → Type 0
  IsRecordDelete m = Given (λ x. IsRecord x × Fits (encode_record w x)) (m.record')

  module _ (laws : WireLaws w) (moves : WireMoves w) where
    pub record-Steps :
        (m : RecordMessage)
        → IsRecord m
        → Steps w (record_cases w) (record_fields w m) create_base_record m
    unfolding select
    record-Steps m (i1, i2, i3, i4, i5, i6, i7, i8, i9, i10, i11, i12, i13) =
        int64-Carries w laws moves 8 _ (m.id) i1 refl (omega arith) refl
        ▸ int64-Carries w laws moves 16 _ (m.created_at) i2 refl (omega arith) refl
        ▸ int64-Carries w laws moves 24 _ (m.updated_at) i3 refl (omega arith) refl
        ▸ string-Carries w laws moves 34 _ (m.token) i4 refl (omega arith) refl
        ▸ int64-Carries w laws moves 40 _ (m.zone_id) i5 refl (omega arith) refl
        ▸ string-Carries w laws moves 50 _ (m.domain) i6 refl (omega arith) refl
        ▸ string-Carries w laws moves 58 _ (m.name) i7 refl (omega arith) refl
        ▸ uint32-Carries w laws moves 64 (λ v m. record m { ttl = v }) (m.ttl) i8 refl (omega arith)
            refl
        ▸ int64-Carries w laws moves 72 _ (m.address_id) i9 refl (omega arith) refl
        ▸ message-Carries w laws moves (encode_address w) (decode_address w) (IsAddress w) 82 _
            (λ v m. record m { address = v }) (m.address) i10 (address-RoundTrip w laws moves) refl
            (λ x. refl) (omega arith) refl
        ▸ int32-Carries w laws moves 88 _ (m.purpose) i11 refl (omega arith) refl
        ▸ bool-Carries w laws moves 96 _ (m.include_wildcard) refl (omega arith) refl
        ▸ message-Carries w laws moves (encode_certificate w) (decode_certificate w)
            (IsCertificate w) 106 _ (λ v m. record m { certificate = v }) (m.certificate) i12
            (certificate-RoundTrip w laws moves) refl (λ x. refl) (omega arith) refl
        ▸ string-Carries w laws moves 114 _ (m.acme_email) i13 refl (omega arith) refl
        ▸ done

    pub record-RoundTrip :
        (m : RecordMessage) → IsRecord m → RoundTrip w (encode_record w) (decode_record w) m
    unfolding encode_record decode_record
    record-RoundTrip m i =
        Steps-RoundTrip w (record_cases w) (record_fields w m) create_base_record m
          (record-Steps m i)

    pub record_list-Steps :
        (m : RecordListMessage)
        → IsRecordList m
        → Steps w (record_list_cases w) (record_list_fields w m) create_base_record_list m
    unfolding select
    record_list-Steps m i1 =
        messages-Carries w laws moves (encode_record w) (decode_record w) IsRecord 10 _
          (λ v m. record m { records = v }) (m.records) i1 record-RoundTrip refl (λ vs v. refl)
          (omega arith) refl
        ▸ done

    pub record_delete-Steps :
        (m : RecordDeleteMessage)
        → IsRecordDelete m
        → Steps w (record_delete_cases w) (record_delete_fields w m) create_base_record_delete m
    unfolding select
    record_delete-Steps m i1 =
        message-Carries w laws moves (encode_record w) (decode_record w) IsRecord 10 _
          (λ v m. record m { record' = v }) (m.record') i1 record-RoundTrip refl (λ x. refl)
          (omega arith) refl
        ▸ bool-Carries w laws moves 16 _ (m.delete_from_hetzner) refl (omega arith) refl
        ▸ done
