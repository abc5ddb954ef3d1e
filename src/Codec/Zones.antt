-- ===== src/Codec/Zones.antt =====
-- frontend/src/app/global/model/api.ts: `encode` and `decode` of `Zone`, `ZoneList`, `Resolution`, `ResolutionResult` and `LogEntry`.
pub mod RoundTrip
pub mod Ends
pub mod Json
use hdns.Prelude.{
  ℕ, ℤ, pos, String, Bool, true, false, Option, none, some, List, [], ◌∷◌, ◌++◌, ◌≡◌, ◌<◌, ◌^◌,
  refl, arith, All, length,
}
use hdns.Codec.Wire.{Wire, Bytes}
use hdns.Codec.Messages.{
  ZoneMessage, ZoneListMessage, ResolutionMessage, ResolutionResultMessage, LogEntryMessage,
}
use hdns.Codec.Base.{
  create_base_zone, create_base_zone_list, create_base_resolution, create_base_resolution_result,
  create_base_log_entry,
}
use hdns.Codec.Clauses.{
  Outcome, Clause, write_all, decode_from, int32_field, int64_field, messages_field, string_field,
  strings_field, int32_case, int64_case, message_case, string_case,
}

module _ (w : Wire) where
  abbrev pub zone_fields : ZoneMessage → List (Option Bytes)
  zone_fields m =
      int64_field w 8 (m.id) ∷ string_field w 18 (m.name) ∷ int64_field w 24 (m.record_count) ∷ []

  unfoldable pub encode_zone : ZoneMessage → Option Bytes
  encode_zone m = write_all (zone_fields m)

  abbrev pub zone_cases : List (Clause ZoneMessage)
  zone_cases =
      int64_case w 8 (λ v m. record m { id = v })
      ∷ string_case w 18 (λ v m. record m { name = v })
      ∷ int64_case w 24 (λ v m. record m { record_count = v })
      ∷ []

  unfoldable pub decode_zone : ℕ → Bytes → Outcome (ZoneMessage × Bytes)
  decode_zone = decode_from w create_base_zone zone_cases

  abbrev pub zone_list_fields : ZoneListMessage → List (Option Bytes)
  zone_list_fields m = messages_field w encode_zone 10 (m.zones) ∷ []

  unfoldable pub encode_zone_list : ZoneListMessage → Option Bytes
  encode_zone_list m = write_all (zone_list_fields m)

  abbrev pub zone_list_cases : List (Clause ZoneListMessage)
  zone_list_cases =
      message_case w decode_zone 10 (λ v m. record m { zones = m.zones ++ v ∷ [] }) ∷ []

  unfoldable pub decode_zone_list : ℕ → Bytes → Outcome (ZoneListMessage × Bytes)
  decode_zone_list = decode_from w create_base_zone_list zone_list_cases

  abbrev pub resolution_fields : ResolutionMessage → List (Option Bytes)
  resolution_fields m =
      string_field w 10 (m.server)
      ∷ strings_field w 18 (m.addresses)
      ∷ int64_field w 24 (m.response_time)
      ∷ string_field w 34 (m.error)
      ∷ []

  unfoldable pub encode_resolution : ResolutionMessage → Option Bytes
  encode_resolution m = write_all (resolution_fields m)

  abbrev pub resolution_cases : List (Clause ResolutionMessage)
  resolution_cases =
      string_case w 10 (λ v m. record m { server = v })
      ∷ string_case w 18 (λ v m. record m { addresses = m.addresses ++ v ∷ [] })
      ∷ int64_case w 24 (λ v m. record m { response_time = v })
      ∷ string_case w 34 (λ v m. record m { error = v })
      ∷ []

  unfoldable pub decode_resolution : ℕ → Bytes → Outcome (ResolutionMessage × Bytes)
  decode_resolution = decode_from w create_base_resolution resolution_cases

  abbrev pub resolution_result_fields : ResolutionResultMessage → List (Option Bytes)
  resolution_result_fields m = messages_field w encode_resolution 10 (m.resolutions) ∷ []

  unfoldable pub encode_resolution_result : ResolutionResultMessage → Option Bytes
  encode_resolution_result m = write_all (resolution_result_fields m)

  abbrev pub resolution_result_cases : List (Clause ResolutionResultMessage)
  resolution_result_cases =
      message_case w decode_resolution 10
        (λ v m. record m { resolutions = m.resolutions ++ v ∷ [] })
      ∷ []

  unfoldable pub decode_resolution_result : ℕ → Bytes → Outcome (ResolutionResultMessage × Bytes)
  decode_resolution_result = decode_from w create_base_resolution_result resolution_result_cases

  abbrev pub log_entry_fields : LogEntryMessage → List (Option Bytes)
  log_entry_fields m =
      int64_field w 8 (m.timestamp)
      ∷ int32_field w 16 (m.level)
      ∷ string_field w 26 (m.message)
      ∷ []

  unfoldable pub encode_log_entry : LogEntryMessage → Option Bytes
  encode_log_entry m = write_all (log_entry_fields m)

  abbrev pub log_entry_cases : List (Clause LogEntryMessage)
  log_entry_cases =
      int64_case w 8 (λ v m. record m { timestamp = v })
      ∷ int32_case w 16 (λ v m. record m { level = v })
      ∷ string_case w 26 (λ v m. record m { message = v })
      ∷ []

  unfoldable pub decode_log_entry : ℕ → Bytes → Outcome (LogEntryMessage × Bytes)
  decode_log_entry = decode_from w create_base_log_entry log_entry_cases
