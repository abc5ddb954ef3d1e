-- ===== src/Codec/Addresses/Json.antt =====
-- frontend/src/app/global/model/api.ts: `fromJSON` and `toJSON` of `Empty`, `Line`, `Request`, `Address` and `AddressHistory`.
pub mod Back
pub mod Names
use hdns.Prelude.{Option, some, List, [], ◌∷◌}
use hdns.Codec.Messages.{
  EmptyMessage, LineMessage, RequestMessage, AddressMessage, AddressHistoryMessage,
}
use hdns.Codec.Json.{Json, object, Host}
use hdns.Codec.Json.Write.{Chunk, props, boolean_json, messages_json, number_json, text_json}
use hdns.Codec.Json.Read.{◌>>=◌, boolean_in, messages_in, number_in, text_in}

abbrev pub empty_props : EmptyMessage → List Chunk
empty_props m = []

unfoldable pub to_json_empty : EmptyMessage → Json
to_json_empty m = object (props (empty_props m))

abbrev pub line_props : LineMessage → List Chunk
line_props m = ("line", text_json (m.line)) ∷ []

unfoldable pub to_json_line : LineMessage → Json
to_json_line m = object (props (line_props m))

abbrev pub request_props : RequestMessage → List Chunk
request_props m = ("search", text_json (m.search)) ∷ []

unfoldable pub to_json_request : RequestMessage → Json
to_json_request m = object (props (request_props m))

abbrev pub address_props : AddressMessage → List Chunk
address_props m =
    ("id", number_json (m.id))
    ∷ ("createdAt", number_json (m.created_at))
    ∷ ("updatedAt", number_json (m.updated_at))
    ∷ ("ipv4", text_json (m.ipv4))
    ∷ ("ipv6", text_json (m.ipv6))
    ∷ ("current", boolean_json (m.current))
    ∷ []

unfoldable pub to_json_address : AddressMessage → Json
to_json_address m = object (props (address_props m))

abbrev pub address_history_props : AddressHistoryMessage → List Chunk
address_history_props m = ("addresses", messages_json to_json_address (m.addresses)) ∷ []

unfoldable pub to_json_address_history : AddressHistoryMessage → Json
to_json_address_history m = object (props (address_history_props m))

module _ (host : Host) where
  unfoldable pub from_json_empty : Json → Option EmptyMessage
  from_json_empty o = some (record {})

  unfoldable pub from_json_line : Json → Option LineMessage
  from_json_line o = do line ← text_in host o ("line" ∷ []); some (record { line = line })

  unfoldable pub from_json_request : Json → Option RequestMessage
  from_json_request o = do
    search ← text_in host o ("search" ∷ [])
    some (record { search = search })

  unfoldable pub from_json_address : Json → Option AddressMessage
  from_json_address o = do
    id ← number_in host o ("id" ∷ [])
    created_at ← number_in host o ("createdAt" ∷ "created_at" ∷ [])
    updated_at ← number_in host o ("updatedAt" ∷ "updated_at" ∷ [])
    ipv4 ← text_in host o ("ipv4" ∷ [])
    ipv6 ← text_in host o ("ipv6" ∷ [])
    current ← boolean_in host o ("current" ∷ [])
    some (record {
      id = id;
      created_at = created_at;
      updated_at = updated_at;
      ipv4 = ipv4;
      ipv6 = ipv6;
      current = current;
    })

  unfoldable pub from_json_address_history : Json → Option AddressHistoryMessage
  from_json_address_history o = do
    addresses ← messages_in host from_json_address o ("addresses" ∷ [])
    some (record { addresses = addresses })
