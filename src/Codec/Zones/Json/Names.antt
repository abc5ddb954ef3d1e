-- ===== src/Codec/Zones/Json/Names.antt =====
-- `Zone`, `ZoneList`, `Resolution`, `ResolutionResult` and `LogEntry`: `fromJSON` reads an object by these names alone.
use hdns.Prelude.{String, ◌≡◌, refl, List, [], ◌∷◌, All}
use hdns.Codec.Json.{object, Props, Host}
use hdns.Codec.Json.Agree.{Agree, messages_in-Agree, number_in-Agree, text_in-Agree}
use hdns.Codec.Zones.Json.{
  from_json_zone, from_json_zone_list, from_json_resolution, from_json_resolution_result,
  from_json_log_entry,
}

abbrev pub zone_names : List (List String)
zone_names = ("id" ∷ []) ∷ ("name" ∷ []) ∷ ("recordCount" ∷ "record_count" ∷ []) ∷ []

abbrev pub zone_list_names : List (List String)
zone_list_names = ("zones" ∷ []) ∷ []

abbrev pub resolution_names : List (List String)
resolution_names =
    ("server" ∷ [])
    ∷ ("addresses" ∷ [])
    ∷ ("responseTime" ∷ "response_time" ∷ [])
    ∷ ("error" ∷ [])
    ∷ []

abbrev pub resolution_result_names : List (List String)
resolution_result_names = ("resolutions" ∷ []) ∷ []

abbrev pub log_entry_names : List (List String)
log_entry_names = ("timestamp" ∷ []) ∷ ("level" ∷ []) ∷ ("message" ∷ []) ∷ []

module _ (host : Host) (ps qs : Props) where
  pub from_json_zone-Agree :
      All (Agree ps qs) zone_names
      → from_json_zone host (object ps) ≡ from_json_zone host (object qs)
  unfolding from_json_zone
  from_json_zone-Agree h =
      rw
        (
          number_in-Agree host ps qs ("id" ∷ []) h.0,
          text_in-Agree host ps qs ("name" ∷ []) h.1.0,
          number_in-Agree host ps qs ("recordCount" ∷ "record_count" ∷ []) h.1.1.0,
        )
        refl

  pub from_json_zone_list-Agree :
      All (Agree ps qs) zone_list_names
      → from_json_zone_list host (object ps) ≡ from_json_zone_list host (object qs)
  unfolding from_json_zone_list
  from_json_zone_list-Agree h =
      rw (messages_in-Agree host ps qs ("zones" ∷ []) (from_json_zone host) h.0) refl

  pub from_json_resolution-Agree :
      All (Agree ps qs) resolution_names
      → from_json_resolution host (object ps) ≡ from_json_resolution host (object qs)
  unfolding from_json_resolution
  from_json_resolution-Agree h =
      rw
        (
          text_in-Agree host ps qs ("server" ∷ []) h.0,
          messages_in-Agree host ps qs ("addresses" ∷ []) host.to_text h.1.0,
          number_in-Agree host ps qs ("responseTime" ∷ "response_time" ∷ []) h.1.1.0,
          text_in-Agree host ps qs ("error" ∷ []) h.1.1.1.0,
        )
        refl

  pub from_json_resolution_result-Agree :
      All (Agree ps qs) resolution_result_names
      → from_json_resolution_result host (object ps) ≡ from_json_resolution_result host (object qs)
  unfolding from_json_resolution_result
  from_json_resolution_result-Agree h =
      rw (messages_in-Agree host ps qs ("resolutions" ∷ []) (from_json_resolution host) h.0) refl

  pub from_json_log_entry-Agree :
      All (Agree ps qs) log_entry_names
      → from_json_log_entry host (object ps) ≡ from_json_log_entry host (object qs)
  unfolding from_json_log_entry
  from_json_log_entry-Agree h =
      rw
        (
          number_in-Agree host ps qs ("timestamp" ∷ []) h.0,
          number_in-Agree host ps qs ("level" ∷ []) h.1.0,
          text_in-Agree host ps qs ("message" ∷ []) h.1.1.0,
        )
        refl
