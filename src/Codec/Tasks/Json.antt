-- ===== src/Codec/Tasks/Json.antt =====
-- frontend/src/app/global/model/api.ts: `fromJSON` and `toJSON` of `Task`, `TaskList`, `TaskDelete` and `TaskResult`.
pub mod Back
pub mod Names
use hdns.Prelude.{Option, some, List, [], ◌∷◌}
use hdns.Codec.Messages.{TaskMessage, TaskListMessage, TaskDeleteMessage, TaskResultMessage}
use hdns.Codec.Json.{Json, object, Host}
use hdns.Codec.Json.Write.{
  Chunk, props, boolean_json, messages_json, number_json, text_json, trigger_json,
}
use hdns.Codec.Json.Read.{◌>>=◌, boolean_in, messages_in, number_in, text_in, trigger_in}

abbrev pub task_props : TaskMessage → List Chunk
task_props m =
    ("id", number_json (m.id))
    ∷ ("createdAt", number_json (m.created_at))
    ∷ ("updatedAt", number_json (m.updated_at))
    ∷ ("recordId", number_json (m.record_id))
    ∷ ("name", text_json (m.name))
    ∷ ("triggerOn", trigger_json (m.trigger_on))
    ∷ ("method", text_json (m.method))
    ∷ ("url", text_json (m.url))
    ∷ ("headers", text_json (m.headers))
    ∷ ("body", text_json (m.body))
    ∷ ("enabled", boolean_json (m.enabled))
    ∷ ("lastRun", number_json (m.last_run))
    ∷ ("lastStatus", text_json (m.last_status))
    ∷ ("lastError", text_json (m.last_error))
    ∷ ("includeCertificate", boolean_json (m.include_certificate))
    ∷ ("certificateFormat", text_json (m.certificate_format))
    ∷ []

unfoldable pub to_json_task : TaskMessage → Json
to_json_task m = object (props (task_props m))

abbrev pub task_list_props : TaskListMessage → List Chunk
task_list_props m = ("tasks", messages_json to_json_task (m.tasks)) ∷ []

unfoldable pub to_json_task_list : TaskListMessage → Json
to_json_task_list m = object (props (task_list_props m))

abbrev pub task_delete_props : TaskDeleteMessage → List Chunk
task_delete_props m = ("id", number_json (m.id)) ∷ []

unfoldable pub to_json_task_delete : TaskDeleteMessage → Json
to_json_task_delete m = object (props (task_delete_props m))

abbrev pub task_result_props : TaskResultMessage → List Chunk
task_result_props m = ("status", text_json (m.status)) ∷ ("error", text_json (m.error)) ∷ []

unfoldable pub to_json_task_result : TaskResultMessage → Json
to_json_task_result m = object (props (task_result_props m))

module _ (host : Host) where
  unfoldable pub from_json_task : Json → Option TaskMessage
  from_json_task o = do
    id ← number_in host o ("id" ∷ [])
    created_at ← number_in host o ("createdAt" ∷ "created_at" ∷ [])
    updated_at ← number_in host o ("updatedAt" ∷ "updated_at" ∷ [])
    record_id ← number_in host o ("recordId" ∷ "record_id" ∷ [])
    name ← text_in host o ("name" ∷ [])
    trigger_on ← trigger_in host o ("triggerOn" ∷ "trigger_on" ∷ [])
    method ← text_in host o ("method" ∷ [])
    url ← text_in host o ("url" ∷ [])
    headers ← text_in host o ("headers" ∷ [])
    body ← text_in host o ("body" ∷ [])
    enabled ← boolean_in host o ("enabled" ∷ [])
    last_run ← number_in host o ("lastRun" ∷ "last_run" ∷ [])
    last_status ← text_in host o ("lastStatus" ∷ "last_status" ∷ [])
    last_error ← text_in host o ("lastError" ∷ "last_error" ∷ [])
    include_certificate ← boolean_in host o ("includeCertificate" ∷ "include_certificate" ∷ [])
    certificate_format ← text_in host o ("certificateFormat" ∷ "certificate_format" ∷ [])
    some (record {
      id = id;
      created_at = created_at;
      updated_at = updated_at;
      record_id = record_id;
      name = name;
      trigger_on = trigger_on;
      method = method;
      url = url;
      headers = headers;
      body = body;
      enabled = enabled;
      last_run = last_run;
      last_status = last_status;
      last_error = last_error;
      include_certificate = include_certificate;
      certificate_format = certificate_format;
    })

  unfoldable pub from_json_task_list : Json → Option TaskListMessage
  from_json_task_list o = do
    tasks ← messages_in host from_json_task o ("tasks" ∷ [])
    some (record { tasks = tasks })

  unfoldable pub from_json_task_delete : Json → Option TaskDeleteMessage
  from_json_task_delete o = do id ← number_in host o ("id" ∷ []); some (record { id = id })

  unfoldable pub from_json_task_result : Json → Option TaskResultMessage
  from_json_task_result o = do
    status ← text_in host o ("status" ∷ [])
    error ← text_in host o ("error" ∷ [])
    some (record { status = status; error = error })
