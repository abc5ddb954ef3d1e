-- ===== src/Codec/Zones/Json.antt =====
-- frontend/src/app/global/model/api.ts: `fromJSON` and `toJSON` of `Zone`, `ZoneList`, `Resolution`, `ResolutionResult` and `LogEntry`.
pub mod Back
pub mod Names
use hdns.Prelude.{Option, some, List, [], ◌∷◌}
use hdns.Codec.Messages.{
  ZoneMessage, ZoneListMessage, ResolutionMessage, ResolutionResultMessage, LogEntryMessage,
}
use hdns.Codec.Json.{Json, object, Host}
use hdns.Codec.Json.Write.{Chunk, props, messages_json, number_json, text_json, texts_json}
use hdns.Codec.Json.Read.{◌>>=◌, messages_in, number_in, text_in, texts_in}

abbrev pub zone_props : ZoneMessage → List Chunk
zone_props m =
    ("id", number_json (m.id))
    ∷ ("name", text_json (m.name))
    ∷ ("recordCount", number_json (m.record_count))
    ∷ []

unfoldable pub to_json_zone : ZoneMessage → Json
to_json_zone m = object (props (zone_props m))

abbrev pub zone_list_props : ZoneListMessage → List Chunk
zone_list_props m = ("zones", messages_json to_json_zone (m.zones)) ∷ []

unfoldable pub to_json_zone_list : ZoneListMessage → Json
to_json_zone_list m = object (props (zone_list_props m))

abbrev pub resolution_props : ResolutionMessage → List Chunk
resolution_props m =
    ("server", text_json (m.server))
    ∷ ("addresses", texts_json (m.addresses))
    ∷ ("responseTime", number_json (m.response_time))
    ∷ ("error", text_json (m.error))
    ∷ []

unfoldable pub to_json_resolution : ResolutionMessage → Json
to_json_resolution m = object (props (resolution_props m))

abbrev pub resolution_result_props : ResolutionResultMessage → List Chunk
resolution_result_props m = ("resolutions", messages_json to_json_resolution (m.resolutions)) ∷ []

unfoldable pub to_json_resolution_result : ResolutionResultMessage → Json
to_json_resolution_result m = object (props (resolution_result_props m))

abbrev pub log_entry_props : LogEntryMessage → List Chunk
log_entry_props m =
    ("timestamp", number_json (m.timestamp))
    ∷ ("level", number_json (m.level))
    ∷ ("message", text_json (m.message))
    ∷ []

unfoldable pub to_json_log_entry : LogEntryMessage → Json
to_json_log_entry m = object (props (log_entry_props m))

module _ (host : Host) where
  unfoldable pub from_json_zone : Json → Option ZoneMessage
  from_json_zone o = do
    id ← number_in host o ("id" ∷ [])
    name ← text_in host o ("name" ∷ [])
    record_count ← number_in host o ("recordCount" ∷ "record_count" ∷ [])
    some (record { id = id; name = name; record_count = record_count })

  unfoldable pub from_json_zone_list : Json → Option ZoneListMessage
  from_json_zone_list o = do
    zones ← messages_in host from_json_zone o ("zones" ∷ [])
    some (record { zones = zones })

  unfoldable pub from_json_resolution : Json → Option ResolutionMessage
  from_json_resolution o = do
    server ← text_in host o ("server" ∷ [])
    addresses ← texts_in host o ("addresses" ∷ [])
    response_time ← number_in host o ("responseTime" ∷ "response_time" ∷ [])
    error ← text_in host o ("error" ∷ [])
    some (record {
      server = server;
      addresses = addresses;
      response_time = response_time;
      error = error;
    })

  unfoldable pub from_json_resolution_result : Json → Option ResolutionResultMessage
  from_json_resolution_result o = do
    resolutions ← messages_in host from_json_resolution o ("resolutions" ∷ [])
    some (record { resolutions = resolutions })

  unfoldable pub from_json_log_entry : Json → Option LogEntryMessage
  from_json_log_entry o = do
    timestamp ← number_in host o ("timestamp" ∷ [])
    level ← number_in host o ("level" ∷ [])
    message ← text_in host o ("message" ∷ [])
    some (record { timestamp = timestamp; level = level; message = message })
