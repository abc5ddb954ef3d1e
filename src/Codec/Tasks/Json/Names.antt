-- ===== src/Codec/Tasks/Json/Names.antt =====
-- `Task`, `TaskList`, `TaskDelete` and `TaskResult`: `fromJSON` reads an object by these names alone.
use hdns.Prelude.{String, ◌≡◌, refl, List, [], ◌∷◌, All}
use hdns.Codec.Json.{object, Props, Host}
use hdns.Codec.Json.Agree.{
  Agree, boolean_in-Agree, messages_in-Agree, number_in-Agree, text_in-Agree, trigger_in-Agree,
}
use hdns.Codec.Tasks.Json.{
  from_json_task, from_json_task_list, from_json_task_delete, from_json_task_result,
}

abbrev pub task_names : List (List String)
task_names =
    ("id" ∷ [])
    ∷ ("createdAt" ∷ "created_at" ∷ [])
    ∷ ("updatedAt" ∷ "updated_at" ∷ [])
    ∷ ("recordId" ∷ "record_id" ∷ [])
    ∷ ("name" ∷ [])
    ∷ ("triggerOn" ∷ "trigger_on" ∷ [])
    ∷ ("method" ∷ [])
    ∷ ("url" ∷ [])
    ∷ ("headers" ∷ [])
    ∷ ("body" ∷ [])
    ∷ ("enabled" ∷ [])
    ∷ ("lastRun" ∷ "last_run" ∷ [])
    ∷ ("lastStatus" ∷ "last_status" ∷ [])
    ∷ ("lastError" ∷ "last_error" ∷ [])
    ∷ ("includeCertificate" ∷ "include_certificate" ∷ [])
    ∷ ("certificateFormat" ∷ "certificate_format" ∷ [])
    ∷ []

abbrev pub task_list_names : List (List String)
task_list_names = ("tasks" ∷ []) ∷ []

abbrev pub task_delete_names : List (List String)
task_delete_names = ("id" ∷ []) ∷ []

abbrev pub task_result_names : List (List String)
task_result_names = ("status" ∷ []) ∷ ("error" ∷ []) ∷ []

module _ (host : Host) (ps qs : Props) where
  pub from_json_task-Agree :
      All (Agree ps qs) task_names
      → from_json_task host (object ps) ≡ from_json_task host (object qs)
  unfolding from_json_task
  from_json_task-Agree h =
      rw
        (
          number_in-Agree host ps qs ("id" ∷ []) h.0,
          number_in-Agree host ps qs ("createdAt" ∷ "created_at" ∷ []) h.1.0,
          number_in-Agree host ps qs ("updatedAt" ∷ "updated_at" ∷ []) h.1.1.0,
          number_in-Agree host ps qs ("recordId" ∷ "record_id" ∷ []) h.1.1.1.0,
          text_in-Agree host ps qs ("name" ∷ []) h.1.1.1.1.0,
          trigger_in-Agree host ps qs ("triggerOn" ∷ "trigger_on" ∷ []) h.1.1.1.1.1.0,
          text_in-Agree host ps qs ("method" ∷ []) h.1.1.1.1.1.1.0,
          text_in-Agree host ps qs ("url" ∷ []) h.1.1.1.1.1.1.1.0,
          text_in-Agree host ps qs ("headers" ∷ []) h.1.1.1.1.1.1.1.1.0,
          text_in-Agree host ps qs ("body" ∷ []) h.1.1.1.1.1.1.1.1.1.0,
          boolean_in-Agree host ps qs ("enabled" ∷ []) h.1.1.1.1.1.1.1.1.1.1.0,
          number_in-Agree host ps qs ("lastRun" ∷ "last_run" ∷ []) h.1.1.1.1.1.1.1.1.1.1.1.0,
          text_in-Agree host ps qs ("lastStatus" ∷ "last_status" ∷ []) h.1.1.1.1.1.1.1.1.1.1.1.1.0,
          text_in-Agree host ps qs ("lastError" ∷ "last_error" ∷ []) h.1.1.1.1.1.1.1.1.1.1.1.1.1.0,
          boolean_in-Agree host ps qs ("includeCertificate" ∷ "include_certificate" ∷ [])
              h.1.1.1.1.1.1.1.1.1.1.1.1.1.1.0,
          text_in-Agree host ps qs ("certificateFormat" ∷ "certificate_format" ∷ [])
              h.1.1.1.1.1.1.1.1.1.1.1.1.1.1.1.0,
        )
        refl

  pub from_json_task_list-Agree :
      All (Agree ps qs) task_list_names
      → from_json_task_list host (object ps) ≡ from_json_task_list host (object qs)
  unfolding from_json_task_list
  from_json_task_list-Agree h =
      rw (messages_in-Agree host ps qs ("tasks" ∷ []) (from_json_task host) h.0) refl

  pub from_json_task_delete-Agree :
      All (Agree ps qs) task_delete_names
      → from_json_task_delete host (object ps) ≡ from_json_task_delete host (object qs)
  unfolding from_json_task_delete
  from_json_task_delete-Agree h = rw (number_in-Agree host ps qs ("id" ∷ []) h.0) refl

  pub from_json_task_result-Agree :
      All (Agree ps qs) task_result_names
      → from_json_task_result host (object ps) ≡ from_json_task_result host (object qs)
  unfolding from_json_task_result
  from_json_task_result-Agree h =
      rw
        (
          text_in-Agree host ps qs ("status" ∷ []) h.0,
          text_in-Agree host ps qs ("error" ∷ []) h.1.0,
        )
        refl
