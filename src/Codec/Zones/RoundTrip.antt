-- ===== src/Codec/Zones/RoundTrip.antt =====
-- `Zone`, `ZoneList`, `Resolution`, `ResolutionResult` and `LogEntry`: what is written is read again.
use hdns.Prelude.{true, ◌≡◌, refl, arith, All}
use hdns.Codec.Wire.{Wire, WireLaws, WireMoves, IsSafe, IsInt32}
use hdns.Codec.Messages.{
  ZoneMessage, ZoneListMessage, ResolutionMessage, ResolutionResultMessage, LogEntryMessage,
}
use hdns.Codec.Base.{
  create_base_zone, create_base_zone_list, create_base_resolution, create_base_resolution_result,
  create_base_log_entry,
}
use hdns.Codec.Clauses.{select}
use hdns.Codec.Clauses.Rounds.{Steps, done, ◌▸◌, RoundTrip, Steps-RoundTrip}
use hdns.Codec.Clauses.Fields.{int32-Carries, int64-Carries, string-Carries}
use hdns.Codec.Clauses.Repeated.{Fits, messages-Carries, strings-Carries}
use hdns.Codec.Zones.{
  zone_fields, encode_zone, zone_cases, decode_zone, zone_list_fields, zone_list_cases,
  resolution_fields, encode_resolution, resolution_cases, decode_resolution,
  resolution_result_fields, resolution_result_cases, log_entry_fields, log_entry_cases,
}

-- The messages whose numbers have the range of their types, whose texts survive UTF-8, and whose parts
-- have a length that can be written.
module _ (w : Wire) where
  abbrev pub IsZone : ZoneMessage → Type 0
  IsZone m = IsSafe (m.id) × (w.keeps (m.name) ≡ true) × IsSafe (m.record_count)

  abbrev pub IsZoneList : ZoneListMessage → Type 0
  IsZoneList m = All (λ x. IsZone x × Fits (encode_zone w x)) (m.zones)

  abbrev pub IsResolution : ResolutionMessage → Type 0
  IsResolution m =
      (w.keeps (m.server) ≡ true)
      × All (λ s. w.keeps s ≡ true) (m.addresses)
      × IsSafe (m.response_time)
      × (w.keeps (m.error) ≡ true)

  abbrev pub IsResolutionResult : ResolutionResultMessage → Type 0
  IsResolutionResult m = All (λ x. IsResolution x × Fits (encode_resolution w x)) (m.resolutions)

  abbrev pub IsLogEntry : LogEntryMessage → Type 0
  IsLogEntry m = IsSafe (m.timestamp) × IsInt32 (m.level) × (w.keeps (m.message) ≡ true)

  module _ (laws : WireLaws w) (moves : WireMoves w) where
    pub zone-Steps :
        (m : ZoneMessage) → IsZone m → Steps w (zone_cases w) (zone_fields w m) create_base_zone m
    unfolding select
    zone-Steps m (i1, i2, i3) =
        int64-Carries w laws moves 8 _ (m.id) i1 refl (omega arith) refl
        ▸ string-Carries w laws moves 18 _ (m.name) i2 refl (omega arith) refl
        ▸ int64-Carries w laws moves 24 _ (m.record_count) i3 refl (omega arith) refl
        ▸ done

    pub zone-RoundTrip :
        (m : ZoneMessage) → IsZone m → RoundTrip w (encode_zone w) (decode_zone w) m
    unfolding encode_zone decode_zone
    zone-RoundTrip m i =
        Steps-RoundTrip w (zone_cases w) (zone_fields w m) create_base_zone m (zone-Steps m i)

    pub zone_list-Steps :
        (m : ZoneListMessage)
        → IsZoneList m
        → Steps w (zone_list_cases w) (zone_list_fields w m) create_base_zone_list m
    unfolding select
    zone_list-Steps m i1 =
        messages-Carries w laws moves (encode_zone w) (decode_zone w) IsZone 10 _
          (λ v m. record m { zones = v }) (m.zones) i1 zone-RoundTrip refl (λ vs v. refl)
          (omega arith) refl
        ▸ done

    pub resolution-Steps :
        (m : ResolutionMessage)
        → IsResolution m
        → Steps w (resolution_cases w) (resolution_fields w m) create_base_resolution m
    unfolding select
    resolution-Steps m (i1, i2, i3, i4) =
        string-Carries w laws moves 10 _ (m.server) i1 refl (omega arith) refl
        ▸ strings-Carries w laws moves 18 _ (λ v m. record m { addresses = v }) (m.addresses) i2
            refl (λ vs v. refl) (omega arith) refl
        ▸ int64-Carries w laws moves 24 _ (m.response_time) i3 refl (omega arith) refl
        ▸ string-Carries w laws moves 34 _ (m.error) i4 refl (omega arith) refl
        ▸ done

    pub resolution-RoundTrip :
        (m : ResolutionMessage)
        → IsResolution m
        → RoundTrip w (encode_resolution w) (decode_resolution w) m
    unfolding encode_resolution decode_resolution
    resolution-RoundTrip m i =
        Steps-RoundTrip w (resolution_cases w) (resolution_fields w m) create_base_resolution m
          (resolution-Steps m i)

    pub resolution_result-Steps :
        (m : ResolutionResultMessage)
        → IsResolutionResult m
        → Steps w
            (resolution_result_cases w)
            (resolution_result_fields w m)
            create_base_resolution_result
            m
    unfolding select
    resolution_result-Steps m i1 =
        messages-Carries w laws moves (encode_resolution w) (decode_resolution w) IsResolution 10 _
          (λ v m. record m { resolutions = v }) (m.resolutions) i1 resolution-RoundTrip refl
          (λ vs v. refl) (omega arith) refl
        ▸ done

    pub log_entry-Steps :
        (m : LogEntryMessage)
        → IsLogEntry m
        → Steps w (log_entry_cases w) (log_entry_fields w m) create_base_log_entry m
    unfolding select
    log_entry-Steps m (i1, i2, i3) =
        int64-Carries w laws moves 8 _ (m.timestamp) i1 refl (omega arith) refl
        ▸ int32-Carries w laws moves 16 _ (m.level) i2 refl (omega arith) refl
        ▸ string-Carries w laws moves 26 _ (m.message) i3 refl (omega arith) refl
        ▸ done
