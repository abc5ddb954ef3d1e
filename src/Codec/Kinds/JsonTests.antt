-- ===== src/Codec/Kinds/JsonTests.antt =====
-- The JSON codecs at concrete messages.
use hdns.Prelude.{String, ◌≡◌, refl, pos, true, false, Option, some, none, Bool, ℤ}
use hdns.Model.Enums.{record_purpose_to_json}
use hdns.Codec.Messages.{AddressMessage, RecordMessage}
use hdns.Codec.Base.{create_base_record, create_base_address, create_base_line}
use hdns.Codec.Json.{
  Json, undefined, null, boolean, number, decimal, text, object, Props, end, prop, Host, HostLaws,
}
use hdns.Codec.Json.Write.{props, number_json, text_json, boolean_json, purpose_json}
use hdns.Codec.Json.Read.{lookup}
use hdns.Codec.Records.Json.{to_json_record}
use hdns.Codec.Addresses.Json.{to_json_address}
use hdns.Codec.Kinds.{Kind}
use hdns.Codec.Kinds.Respelled.{from_json_respelled}
use hdns.Codec.Kinds.Json.{from_json, to_json, from_json-to_json, from_json_nothing}

abbrev as_number : Json → Option ℤ
as_number (number z) = some z
as_number (boolean true) = some (pos 1)
as_number (boolean false) = some (pos 0)
as_number null = some (pos 0)
as_number _ = none

abbrev as_decimal : Json → Option String
as_decimal (decimal s) = some s
as_decimal _ = none

abbrev as_text : Json → Option String
as_text (text s) = some s
as_text (boolean true) = some "true"
as_text (boolean false) = some "false"
as_text null = some "null"
as_text _ = none

abbrev as_boolean : Json → Bool
as_boolean undefined = false
as_boolean null = false
as_boolean (boolean b) = b
as_boolean _ = true

abbrev host : Host
host = record {
  to_number = as_number;
  to_decimal = as_decimal;
  to_text = as_text;
  to_boolean = as_boolean;
  inherited = λ o k. undefined;
}

host_laws : HostLaws host
host_laws = record {
  number_back = λ z. refl;
  decimal_back = λ s. refl;
  text_back = λ s. refl;
  boolean_back = λ b. refl;
}

abbrev mail : RecordMessage
mail = record create_base_record {
  id = pos 7;
  name = "mail";
  address = some create_base_address;
  purpose = pos 2;
  include_wildcard = true;
}

mail_json :
    to_json Kind.record' mail
    ≡ object (
        prop "id" (number (pos 7)) (
          prop "name" (text "mail") (
            prop "address" (object end) (
              prop "purpose"
                (text "RECORD_PURPOSE_CERT")
                (prop "includeWildcard" (boolean true) end)))))
unfolding record_purpose_to_json to_json_record to_json_address props number_json text_json
    boolean_json purpose_json
mail_json = refl

from_json-to_json_example : from_json host Kind.record' (to_json Kind.record' mail) ≡ some mail
from_json-to_json_example = from_json-to_json host host_laws Kind.record' mail (tt, refl, tt)

abbrev home : AddressMessage
home = record create_base_address { id = pos 3; created_at = pos 8; ipv4 = "192.0.2.1" }

-- The same address with another spelling, order and a property that no field has.
abbrev respelled : Props
respelled = prop "created_at" (number (pos 8)) (
    prop "ipv4" (text "192.0.2.1")
      (prop "createdAt" null (prop "zone" (number (pos 1)) (prop "id" (number (pos 3)) end))))

from_json_respelled_example : from_json host Kind.address (object respelled) ≡ some home
unfolding lookup to_json_address props number_json text_json boolean_json
from_json_respelled_example = from_json_respelled host host_laws Kind.address home respelled tt (
  (refl, refl),
  ((refl, refl), ((refl, refl), ((refl, refl), ((refl, refl), ((refl, refl), tt))))),
)

from_json_nothing_example :
    (from_json host Kind.line (object end) ≡ some create_base_line)
    × (from_json host Kind.line null ≡ none)
    × (from_json host Kind.line undefined ≡ none)
from_json_nothing_example = from_json_nothing host Kind.line
