-- ===== src/Codec/Addresses/RoundTrip.antt =====
-- `Empty`, `Line`, `Request`, `Address` and `AddressHistory`: what is written is read again.
use hdns.Prelude.{true, ◌≡◌, refl, arith, All}
use hdns.Codec.Wire.{Wire, WireLaws, WireMoves, IsSafe}
use hdns.Codec.Messages.{
  EmptyMessage, LineMessage, RequestMessage, AddressMessage, AddressHistoryMessage,
}
use hdns.Codec.Base.{
  create_base_empty, create_base_line, create_base_request, create_base_address,
  create_base_address_history,
}
use hdns.Codec.Clauses.{select}
use hdns.Codec.Clauses.Rounds.{Steps, done, ◌▸◌, RoundTrip, Steps-RoundTrip}
use hdns.Codec.Clauses.Fields.{bool-Carries, int64-Carries, string-Carries}
use hdns.Codec.Clauses.Repeated.{Fits, messages-Carries}
use hdns.Codec.Addresses.{
  empty_fields, empty_cases, line_fields, line_cases, request_fields, request_cases, address_fields,
  encode_address, address_cases, decode_address, address_history_fields, address_history_cases,
}

-- The messages whose numbers have the range of their types, whose texts survive UTF-8, and whose parts
-- have a length that can be written.
module _ (w : Wire) where
  abbrev pub IsEmpty : EmptyMessage → Type 0
  IsEmpty m = Unit

  abbrev pub IsLine : LineMessage → Type 0
  IsLine m = (w.keeps (m.line) ≡ true)

  abbrev pub IsRequest : RequestMessage → Type 0
  IsRequest m = (w.keeps (m.search) ≡ true)

  abbrev pub IsAddress : AddressMessage → Type 0
  IsAddress m =
      IsSafe (m.id)
      × IsSafe (m.created_at)
      × IsSafe (m.updated_at)
      × (w.keeps (m.ipv4) ≡ true)
      × (w.keeps (m.ipv6) ≡ true)

  abbrev pub IsAddressHistory : AddressHistoryMessage → Type 0
  IsAddressHistory m = All (λ x. IsAddress x × Fits (encode_address w x)) (m.addresses)

  module _ (laws : WireLaws w) (moves : WireMoves w) where
    pub empty-Steps :
        (m : EmptyMessage)
        → IsEmpty m
        → Steps w (empty_cases w) (empty_fields w m) create_base_empty m
    unfolding select
    empty-Steps m i = done

    pub line-Steps :
        (m : LineMessage) → IsLine m → Steps w (line_cases w) (line_fields w m) create_base_line m
    unfolding select
    line-Steps m i1 = string-Carries w laws moves 10 _ (m.line) i1 refl (omega arith) refl ▸ done

    pub request-Steps :
        (m : RequestMessage)
        → IsRequest m
        → Steps w (request_cases w) (request_fields w m) create_base_request m
    unfolding select
    request-Steps m i1 =
        string-Carries w laws moves 10 _ (m.search) i1 refl (omega arith) refl ▸ done

    pub address-Steps :
        (m : AddressMessage)
        → IsAddress m
        → Steps w (address_cases w) (address_fields w m) create_base_address m
    unfolding select
    address-Steps m (i1, i2, i3, i4, i5) =
        int64-Carries w laws moves 8 _ (m.id) i1 refl (omega arith) refl
        ▸ int64-Carries w laws moves 16 _ (m.created_at) i2 refl (omega arith) refl
        ▸ int64-Carries w laws moves 24 _ (m.updated_at) i3 refl (omega arith) refl
        ▸ string-Carries w laws moves 34 _ (m.ipv4) i4 refl (omega arith) refl
        ▸ string-Carries w laws moves 42 _ (m.ipv6) i5 refl (omega arith) refl
        ▸ bool-Carries w laws moves 48 _ (m.current) refl (omega arith) refl
        ▸ done

    pub address-RoundTrip :
        (m : AddressMessage) → IsAddress m → RoundTrip w (encode_address w) (decode_address w) m
    unfolding encode_address decode_address
    address-RoundTrip m i =
        Steps-RoundTrip w (address_cases w) (address_fields w m) create_base_address m
          (address-Steps m i)

    pub address_history-Steps :
        (m : AddressHistoryMessage)
        → IsAddressHistory m
        → Steps w
            (address_history_cases w)
            (address_history_fields w m)
            create_base_address_history
            m
    unfolding select
    address_history-Steps m i1 =
        messages-Carries w laws moves (encode_address w) (decode_address w) IsAddress 10 _
          (λ v m. record m { addresses = v }) (m.addresses) i1 address-RoundTrip refl (λ vs v. refl)
          (omega arith) refl
        ▸ done
