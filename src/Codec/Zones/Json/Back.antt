-- ===== src/Codec/Zones/Json/Back.antt =====
-- `Zone`, `ZoneList`, `Resolution`, `ResolutionResult` and `LogEntry`: what `toJSON` makes is read by `fromJSON`.
use hdns.Prelude.{◌≡◌, refl, some, [], ◌∷◌, All}
use hdns.Codec.Messages.{
  ZoneMessage, ZoneListMessage, ResolutionMessage, ResolutionResultMessage, LogEntryMessage,
}
use hdns.Codec.Json.{Host, HostLaws}
use hdns.Codec.Json.Back.{messages_in-props, number_in-props, text_in-props, texts_in-props}
use hdns.Codec.Zones.Json.{
  zone_props, to_json_zone, from_json_zone, zone_list_props, to_json_zone_list, from_json_zone_list,
  resolution_props, to_json_resolution, from_json_resolution, resolution_result_props,
  to_json_resolution_result, from_json_resolution_result, log_entry_props, to_json_log_entry,
  from_json_log_entry,
}

-- The messages whose enumerations have a number that the source names.
abbrev pub IsKnownZone : ZoneMessage → Type 0
IsKnownZone m = Unit

abbrev pub IsKnownZoneList : ZoneListMessage → Type 0
IsKnownZoneList m = All IsKnownZone (m.zones)

abbrev pub IsKnownResolution : ResolutionMessage → Type 0
IsKnownResolution m = Unit

abbrev pub IsKnownResolutionResult : ResolutionResultMessage → Type 0
IsKnownResolutionResult m = All IsKnownResolution (m.resolutions)

abbrev pub IsKnownLogEntry : LogEntryMessage → Type 0
IsKnownLogEntry m = Unit

module _ (host : Host) (laws : HostLaws host) where
  pub from_json-to_json_zone :
      (m : ZoneMessage) → IsKnownZone m → from_json_zone host (to_json_zone m) ≡ some m
  unfolding from_json_zone to_json_zone
  from_json-to_json_zone m i =
      rw
        (
          number_in-props host laws (zone_props m) ("id" ∷ []) (m.id) refl,
          text_in-props host laws (zone_props m) ("name" ∷ []) (m.name) refl,
          number_in-props host laws (zone_props m) ("recordCount" ∷ "record_count" ∷ [])
              (m.record_count) refl,
        )
        refl

  pub from_json-to_json_zone_list :
      (m : ZoneListMessage)
      → IsKnownZoneList m
      → from_json_zone_list host (to_json_zone_list m) ≡ some m
  unfolding from_json_zone_list to_json_zone_list
  from_json-to_json_zone_list m i1 =
      rw
        (messages_in-props host (zone_list_props m) ("zones" ∷ []) (from_json_zone host)
          to_json_zone IsKnownZone (m.zones) i1 (from_json-to_json_zone) refl)
        refl

  pub from_json-to_json_resolution :
      (m : ResolutionMessage)
      → IsKnownResolution m
      → from_json_resolution host (to_json_resolution m) ≡ some m
  unfolding from_json_resolution to_json_resolution
  from_json-to_json_resolution m i =
      rw
        (
          text_in-props host laws (resolution_props m) ("server" ∷ []) (m.server) refl,
          texts_in-props host laws (resolution_props m) ("addresses" ∷ []) (m.addresses) refl,
          number_in-props host laws (resolution_props m) ("responseTime" ∷ "response_time" ∷ [])
              (m.response_time) refl,
          text_in-props host laws (resolution_props m) ("error" ∷ []) (m.error) refl,
        )
        refl

  pub from_json-to_json_resolution_result :
      (m : ResolutionResultMessage)
      → IsKnownResolutionResult m
      → from_json_resolution_result host (to_json_resolution_result m) ≡ some m
  unfolding from_json_resolution_result to_json_resolution_result
  from_json-to_json_resolution_result m i1 =
      rw
        (messages_in-props host (resolution_result_props m) ("resolutions" ∷ [])
          (from_json_resolution host) to_json_resolution IsKnownResolution (m.resolutions) i1
          (from_json-to_json_resolution) refl)
        refl

  pub from_json-to_json_log_entry :
      (m : LogEntryMessage)
      → IsKnownLogEntry m
      → from_json_log_entry host (to_json_log_entry m) ≡ some m
  unfolding from_json_log_entry to_json_log_entry
  from_json-to_json_log_entry m i =
      rw
        (
          number_in-props host laws (log_entry_props m) ("timestamp" ∷ []) (m.timestamp) refl,
          number_in-props host laws (log_entry_props m) ("level" ∷ []) (m.level) refl,
          text_in-props host laws (log_entry_props m) ("message" ∷ []) (m.message) refl,
        )
        refl
