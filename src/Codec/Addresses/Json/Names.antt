-- ===== src/Codec/Addresses/Json/Names.antt =====
-- `Empty`, `Line`, `Request`, `Address` and `AddressHistory`: `fromJSON` reads an object by these names alone.
use hdns.Prelude.{String, ◌≡◌, refl, List, [], ◌∷◌, All}
use hdns.Codec.Json.{object, Props, Host}
use hdns.Codec.Json.Agree.{
  Agree, boolean_in-Agree, messages_in-Agree, number_in-Agree, text_in-Agree,
}
use hdns.Codec.Addresses.Json.{
  from_json_empty, from_json_line, from_json_request, from_json_address, from_json_address_history,
}

abbrev pub empty_names : List (List String)
empty_names = []

abbrev pub line_names : List (List String)
line_names = ("line" ∷ []) ∷ []

abbrev pub request_names : List (List String)
request_names = ("search" ∷ []) ∷ []

abbrev pub address_names : List (List String)
address_names =
    ("id" ∷ [])
    ∷ ("createdAt" ∷ "created_at" ∷ [])
    ∷ ("updatedAt" ∷ "updated_at" ∷ [])
    ∷ ("ipv4" ∷ [])
    ∷ ("ipv6" ∷ [])
    ∷ ("current" ∷ [])
    ∷ []

abbrev pub address_history_names : List (List String)
address_history_names = ("addresses" ∷ []) ∷ []

module _ (host : Host) (ps qs : Props) where
  pub from_json_empty-Agree :
      All (Agree ps qs) empty_names
      → from_json_empty host (object ps) ≡ from_json_empty host (object qs)
  unfolding from_json_empty
  from_json_empty-Agree h = refl

  pub from_json_line-Agree :
      All (Agree ps qs) line_names
      → from_json_line host (object ps) ≡ from_json_line host (object qs)
  unfolding from_json_line
  from_json_line-Agree h = rw (text_in-Agree host ps qs ("line" ∷ []) h.0) refl

  pub from_json_request-Agree :
      All (Agree ps qs) request_names
      → from_json_request host (object ps) ≡ from_json_request host (object qs)
  unfolding from_json_request
  from_json_request-Agree h = rw (text_in-Agree host ps qs ("search" ∷ []) h.0) refl

  pub from_json_address-Agree :
      All (Agree ps qs) address_names
      → from_json_address host (object ps) ≡ from_json_address host (object qs)
  unfolding from_json_address
  from_json_address-Agree h =
      rw
        (
          number_in-Agree host ps qs ("id" ∷ []) h.0,
          number_in-Agree host ps qs ("createdAt" ∷ "created_at" ∷ []) h.1.0,
          number_in-Agree host ps qs ("updatedAt" ∷ "updated_at" ∷ []) h.1.1.0,
          text_in-Agree host ps qs ("ipv4" ∷ []) h.1.1.1.0,
          text_in-Agree host ps qs ("ipv6" ∷ []) h.1.1.1.1.0,
          boolean_in-Agree host ps qs ("current" ∷ []) h.1.1.1.1.1.0,
        )
        refl

  pub from_json_address_history-Agree :
      All (Agree ps qs) address_history_names
      → from_json_address_history host (object ps) ≡ from_json_address_history host (object qs)
  unfolding from_json_address_history
  from_json_address_history-Agree h =
      rw (messages_in-Agree host ps qs ("addresses" ∷ []) (from_json_address host) h.0) refl
