-- ===== src/Codec/Addresses/Json/Back.antt =====
-- `Empty`, `Line`, `Request`, `Address` and `AddressHistory`: what `toJSON` makes is read by `fromJSON`.
use hdns.Prelude.{◌≡◌, refl, some, [], ◌∷◌, All}
use hdns.Codec.Messages.{
  EmptyMessage, LineMessage, RequestMessage, AddressMessage, AddressHistoryMessage,
}
use hdns.Codec.Json.{Host, HostLaws}
use hdns.Codec.Json.Back.{boolean_in-props, messages_in-props, number_in-props, text_in-props}
use hdns.Codec.Addresses.Json.{
  to_json_empty, from_json_empty, line_props, to_json_line, from_json_line, request_props,
  to_json_request, from_json_request, address_props, to_json_address, from_json_address,
  address_history_props, to_json_address_history, from_json_address_history,
}

-- The messages whose enumerations have a number that the source names.
abbrev pub IsKnownEmpty : EmptyMessage → Type 0
IsKnownEmpty m = Unit

abbrev pub IsKnownLine : LineMessage → Type 0
IsKnownLine m = Unit

abbrev pub IsKnownRequest : RequestMessage → Type 0
IsKnownRequest m = Unit

abbrev pub IsKnownAddress : AddressMessage → Type 0
IsKnownAddress m = Unit

abbrev pub IsKnownAddressHistory : AddressHistoryMessage → Type 0
IsKnownAddressHistory m = All IsKnownAddress (m.addresses)

module _ (host : Host) (laws : HostLaws host) where
  pub from_json-to_json_empty :
      (m : EmptyMessage) → IsKnownEmpty m → from_json_empty host (to_json_empty m) ≡ some m
  unfolding from_json_empty to_json_empty
  from_json-to_json_empty m i = refl

  pub from_json-to_json_line :
      (m : LineMessage) → IsKnownLine m → from_json_line host (to_json_line m) ≡ some m
  unfolding from_json_line to_json_line
  from_json-to_json_line m i =
      rw (text_in-props host laws (line_props m) ("line" ∷ []) (m.line) refl) refl

  pub from_json-to_json_request :
      (m : RequestMessage) → IsKnownRequest m → from_json_request host (to_json_request m) ≡ some m
  unfolding from_json_request to_json_request
  from_json-to_json_request m i =
      rw (text_in-props host laws (request_props m) ("search" ∷ []) (m.search) refl) refl

  pub from_json-to_json_address :
      (m : AddressMessage) → IsKnownAddress m → from_json_address host (to_json_address m) ≡ some m
  unfolding from_json_address to_json_address
  from_json-to_json_address m i =
      rw
        (
          number_in-props host laws (address_props m) ("id" ∷ []) (m.id) refl,
          number_in-props host laws (address_props m) ("createdAt" ∷ "created_at" ∷ [])
              (m.created_at) refl,
          number_in-props host laws (address_props m) ("updatedAt" ∷ "updated_at" ∷ [])
              (m.updated_at) refl,
          text_in-props host laws (address_props m) ("ipv4" ∷ []) (m.ipv4) refl,
          text_in-props host laws (address_props m) ("ipv6" ∷ []) (m.ipv6) refl,
          boolean_in-props host laws (address_props m) ("current" ∷ []) (m.current) refl,
        )
        refl

  pub from_json-to_json_address_history :
      (m : AddressHistoryMessage)
      → IsKnownAddressHistory m
      → from_json_address_history host (to_json_address_history m) ≡ some m
  unfolding from_json_address_history to_json_address_history
  from_json-to_json_address_history m i1 =
      rw
        (messages_in-props host (address_history_props m) ("addresses" ∷ [])
          (from_json_address host) to_json_address IsKnownAddress (m.addresses) i1
          (from_json-to_json_address) refl)
        refl
