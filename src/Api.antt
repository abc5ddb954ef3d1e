-- ===== src/Api.antt =====
-- frontend/src/app/global/services/api/api.service.ts: the calls of the service, their paths and
-- errors, and the delays of the reconnecting streams.
pub mod Contract
pub mod Errors
pub mod Backoff
pub mod Stream
mod Tests
use Prim.Native.String
use hdns.Prelude.{
  ℕ, zero, suc, ◌+◌, ◌-◌, ◌*◌, ◌^◌, ◌≤◌, String, Bool, Option, none, some, leb, if◌then◌else◌, min,
}
use hdns.Model.Enums.{RecordPurpose}
use hdns.Model.Messages.{Request, Record, RecordDelete, Configuration, Task}
use hdns.Model.Methods.{MethodKey, MessageType, methods, service_name}

-- The calls that are answered once, with what the caller passes. `getZones` is called with a record
-- that has nothing but an id and a token.
pub data Call : Type 0 where
  get_zones : ℕ → String → Call
  get_records : Request → Call
  upsert_record : Record → Call
  delete_record : Record → Bool → Call
  refresh_record fetch_hetzner_record resolve_record : Record → Call
  get_address get_address_history refresh_address get_config : Call
  update_config : Configuration → Call
  get_certificates : Call
  issue_certificate : Record → Call
  get_tasks : Call
  upsert_task : Task → Call
  delete_task : ℕ → Call
  run_task : Task → Call
  get_certificate_details : Record → Call

-- The calls that open a stream.
pub data StreamCall : Type 0 where
  stream_resolve_record stream_address stream_log : StreamCall

-- The first argument of `this.rpc(…)`.
unfoldable pub key : Call → MethodKey
key (get_zones _ _) = MethodKey.get_zones
key (get_records _) = MethodKey.get_records
key (upsert_record _) = MethodKey.upsert_record
key (delete_record _ _) = MethodKey.delete_record
key (refresh_record _) = MethodKey.refresh_record
key (fetch_hetzner_record _) = MethodKey.fetch_hetzner_record
key (resolve_record _) = MethodKey.resolve_record
key get_address = MethodKey.get_address
key get_address_history = MethodKey.get_address_history
key refresh_address = MethodKey.refresh_address
key get_config = MethodKey.get_config
key (update_config _) = MethodKey.update_config
key get_certificates = MethodKey.get_certificates
key (issue_certificate _) = MethodKey.issue_certificate
key get_tasks = MethodKey.get_tasks
key (upsert_task _) = MethodKey.upsert_task
key (delete_task _) = MethodKey.delete_task
key (run_task _) = MethodKey.run_task
key (get_certificate_details _) = MethodKey.get_certificate_details

unfoldable pub stream_key : StreamCall → MethodKey
stream_key stream_resolve_record = MethodKey.stream_resolve_record
stream_key stream_address = MethodKey.stream_address
stream_key stream_log = MethodKey.stream_log

-- The body of a call, `{}` for the calls with no argument.
pub data Body : Type 0 where
  zone_query : ℕ → String → Body
  request : Request → Body
  record_body : Record → Body
  record_delete : RecordDelete → Body
  configuration : Configuration → Body
  task : Task → Body
  task_delete : ℕ → Body
  empty : Body

-- The second argument of `this.rpc(…)`.
unfoldable pub body : Call → Body
body (get_zones id token) = zone_query id token
body (get_records r) = request r
body (upsert_record r) = record_body r
body (delete_record r from_hetzner) =
    record_delete (record { record' = some r; delete_from_hetzner = from_hetzner })
body (refresh_record r) = record_body r
body (fetch_hetzner_record r) = record_body r
body (resolve_record r) = record_body r
body get_address = empty
body get_address_history = empty
body refresh_address = empty
body get_config = empty
body (update_config c) = configuration c
body get_certificates = empty
body (issue_certificate r) = record_body r
body get_tasks = empty
body (upsert_task t) = task t
body (delete_task id) = task_delete id
body (run_task t) = task t
body (get_certificate_details r) = record_body r

infixr 65 ◌+++◌
abbrev ◌+++◌ : String → String → String
s +++ t = String.◌++◌ s t

-- `/rpc/${HDNSDefinition.name}/${method.name}`, in `rpc` and in `stream`.
unfoldable pub path : MethodKey → String
unfolding methods
path k = "/rpc/" +++ service_name +++ "/" +++ (methods k).name

-- What `http.post` fails with: the status, 0 where there was no answer, and the text of the answer
-- if it is a text.
pub record HttpError : Type 0 where
  pub status : ℕ
  pub error : Option String

abbrev pub offline_text : String
offline_text =
    "Unable to connect to the server. Please check your network connection and try again."

-- `catchError` of `post` and `get`: what the callers see as `err?.error`.
unfoldable pub caught : HttpError → Option String
caught err = if leb err.status 0 then some offline_text else err.error

-- The options of `stream`.
pub record StreamOptions : Type 0 where
  pub backoff_ms : ℕ
  pub max_backoff_ms : ℕ

abbrev pub default_options : StreamOptions
default_options = record { backoff_ms = 1000; max_backoff_ms = 10000 }

-- The delay before the retry, or the repetition, with the given number; the calls for both are the
-- same. `random` is `Math.floor(Math.random() * 300)`. The numbers are exact: up to the cap they
-- are integers below 2 ^ 53.
unfoldable pub backoff : StreamOptions → ℕ → ℕ
backoff opts count = min opts.max_backoff_ms (opts.backoff_ms * 2 ^ (count - 1))

unfoldable pub retry_delay : StreamOptions → ℕ → ℕ → ℕ
unfolding backoff
retry_delay opts count random = backoff opts count + random
