-- ===== src/Codec/Kinds/Tests.antt =====
-- The codecs at concrete messages, over the reader and the writer of the tests.
use hdns.Prelude.{◌≡◌, ◌≢◌, refl, pos, negsuc, true, some, none, [], ◌∷◌, ◌++◌, length, arith}
use hdns.Codec.Wire.{Bytes}
use hdns.Codec.Messages.{AddressMessage, AddressHistoryMessage, ConfigurationMessage}
use hdns.Codec.Base.{create_base_address, create_base_configuration}
use hdns.Codec.Clauses.{
  value, thrown, stuck, decode_all, select, loop, decode_from, write_all, messages_field,
  int64_field, string_field, bool_field, embedded, long_to_number, then_write, tagged,
}
use hdns.Codec.Addresses.{encode_address, encode_address_history, decode_address}
use hdns.Codec.Toy.{toy, toy_laws, toy_moves}
use hdns.Codec.Kinds.{Kind, encode, decode, IsEncodable, cases}
use hdns.Codec.Kinds.RoundTrip.{decode-encode, unknown_field_skipped}
use hdns.Codec.Kinds.Ends.{decode_returns}

abbrev home : AddressMessage
home = record {
  id = pos 3;
  created_at = negsuc 4;
  updated_at = pos 0;
  ipv4 = "192.0.2.1";
  ipv6 = "";
  current = true;
}

abbrev history : AddressHistoryMessage
history = record { addresses = home ∷ create_base_address ∷ [] }

abbrev halves : ConfigurationMessage
halves = record create_base_configuration {
  ipv6_resolvers = "192.0.2.1" ∷ [];
  ipv4_resolver_agreement_threshold = "0.5";
}

history-IsEncodable : IsEncodable toy Kind.address_history history
unfolding encode_address write_all int64_field string_field bool_field
history-IsEncodable = (
  ((omega arith, omega arith, omega arith, refl, refl), omega arith),
  (((omega arith, omega arith, omega arith, refl, refl), omega arith), tt),
)

-- A configuration with a fraction and a text.
configuration-IsEncodable : IsEncodable toy Kind.configuration halves
configuration-IsEncodable = (
  omega arith,
  refl,
  tt,
  tt,
  (refl, tt),
  refl,
  refl,
  omega arith,
  omega arith,
  tt,
  omega arith,
  refl,
  refl,
  omega arith,
)

history_bytes :
    encode toy Kind.address_history history
    ≡ some (10 ∷ 10 ∷ 8 ∷ 0 ∷ 3 ∷ 16 ∷ 1 ∷ 4 ∷ 34 ∷ 1 ∷ 48 ∷ 1 ∷ 10 ∷ 0 ∷ [])
unfolding encode_address_history encode_address write_all messages_field int64_field string_field
    bool_field embedded
history_bytes = refl

-- An identifier past `Number.MAX_SAFE_INTEGER`.
unsafe_integer : decode toy Kind.address 3 (8 ∷ 0 ∷ 9_007_199_254_740_992 ∷ []) ≡ thrown
unfolding decode_address decode_from loop select long_to_number
unsafe_integer = refl

decode-encode_example :
    (b : Bytes) × (encode toy Kind.address_history history ≡ some b)
    × ((rest : Bytes)
        → decode toy Kind.address_history (length b) (b ++ rest) ≡ value (history, rest))
    × (decode_all toy (decode toy Kind.address_history) b ≡ value history)
decode-encode_example =
    decode-encode toy toy_laws toy_moves Kind.address_history history history-IsEncodable

-- A number in the field 7.
no_such_clause : select (cases toy Kind.address_history) 56 ≡ none
unfolding select
no_such_clause = refl

unknown_field_skipped_example :
    (b : Bytes) × (then_write
        (encode toy Kind.address_history history)
        (tagged toy 56 (some (9 ∷ [])))
      ≡ some b)
    × ((rest : Bytes)
        → decode toy Kind.address_history (length b) (b ++ rest) ≡ value (history, rest))
    × (decode_all toy (decode toy Kind.address_history) b ≡ value history)
unknown_field_skipped_example =
    unknown_field_skipped toy toy_laws toy_moves Kind.address_history history 56 (9 ∷ [])
      history-IsEncodable (omega arith) no_such_clause refl (λ rest. refl)

decode_returns_example : decode toy Kind.address 5 (8 ∷ 0 ∷ 3 ∷ 7 ∷ []) ≢ stuck
decode_returns_example = decode_returns toy toy_moves Kind.address 5 (8 ∷ 0 ∷ 3 ∷ 7 ∷ [])
