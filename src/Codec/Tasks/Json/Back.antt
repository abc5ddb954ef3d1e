-- ===== src/Codec/Tasks/Json/Back.antt =====
-- `Task`, `TaskList`, `TaskDelete` and `TaskResult`: what `toJSON` makes is read by `fromJSON`.
use hdns.Prelude.{◌≡◌, refl, some, [], ◌∷◌, All}
use hdns.Codec.Messages.{TaskMessage, TaskListMessage, TaskDeleteMessage, TaskResultMessage}
use hdns.Codec.Json.{Host, HostLaws}
use hdns.Codec.Json.Write.{trigger_of_code}
use hdns.Codec.Json.Read.{trigger_code}
use hdns.Codec.Json.Back.{
  boolean_in-props, messages_in-props, number_in-props, text_in-props, trigger_in-props,
}
use hdns.Codec.Tasks.Json.{
  task_props, to_json_task, from_json_task, task_list_props, to_json_task_list, from_json_task_list,
  task_delete_props, to_json_task_delete, from_json_task_delete, task_result_props,
  to_json_task_result, from_json_task_result,
}

-- The messages whose enumerations have a number that the source names.
abbrev pub IsKnownTask : TaskMessage → Type 0
IsKnownTask m = (trigger_code (trigger_of_code (m.trigger_on)) ≡ m.trigger_on)

abbrev pub IsKnownTaskList : TaskListMessage → Type 0
IsKnownTaskList m = All IsKnownTask (m.tasks)

abbrev pub IsKnownTaskDelete : TaskDeleteMessage → Type 0
IsKnownTaskDelete m = Unit

abbrev pub IsKnownTaskResult : TaskResultMessage → Type 0
IsKnownTaskResult m = Unit

module _ (host : Host) (laws : HostLaws host) where
  pub from_json-to_json_task :
      (m : TaskMessage) → IsKnownTask m → from_json_task host (to_json_task m) ≡ some m
  unfolding from_json_task to_json_task
  from_json-to_json_task m i1 =
      rw
        (
          number_in-props host laws (task_props m) ("id" ∷ []) (m.id) refl,
          number_in-props host laws (task_props m) ("createdAt" ∷ "created_at" ∷ []) (m.created_at)
              refl,
          number_in-props host laws (task_props m) ("updatedAt" ∷ "updated_at" ∷ []) (m.updated_at)
              refl,
          number_in-props host laws (task_props m) ("recordId" ∷ "record_id" ∷ []) (m.record_id)
              refl,
          text_in-props host laws (task_props m) ("name" ∷ []) (m.name) refl,
          trigger_in-props host laws (task_props m) ("triggerOn" ∷ "trigger_on" ∷ []) (m.trigger_on)
              i1 refl,
          text_in-props host laws (task_props m) ("method" ∷ []) (m.method) refl,
          text_in-props host laws (task_props m) ("url" ∷ []) (m.url) refl,
          text_in-props host laws (task_props m) ("headers" ∷ []) (m.headers) refl,
          text_in-props host laws (task_props m) ("body" ∷ []) (m.body) refl,
          boolean_in-props host laws (task_props m) ("enabled" ∷ []) (m.enabled) refl,
          number_in-props host laws (task_props m) ("lastRun" ∷ "last_run" ∷ []) (m.last_run) refl,
          text_in-props host laws (task_props m) ("lastStatus" ∷ "last_status" ∷ []) (m.last_status)
              refl,
          text_in-props host laws (task_props m) ("lastError" ∷ "last_error" ∷ []) (m.last_error)
              refl,
          boolean_in-props host laws (task_props m)
              ("includeCertificate" ∷ "include_certificate" ∷ []) (m.include_certificate) refl,
          text_in-props host laws (task_props m) ("certificateFormat" ∷ "certificate_format" ∷ [])
              (m.certificate_format) refl,
        )
        refl

  pub from_json-to_json_task_list :
      (m : TaskListMessage)
      → IsKnownTaskList m
      → from_json_task_list host (to_json_task_list m) ≡ some m
  unfolding from_json_task_list to_json_task_list
  from_json-to_json_task_list m i1 =
      rw
        (messages_in-props host (task_list_props m) ("tasks" ∷ []) (from_json_task host)
          to_json_task IsKnownTask (m.tasks) i1 (from_json-to_json_task) refl)
        refl

  pub from_json-to_json_task_delete :
      (m : TaskDeleteMessage)
      → IsKnownTaskDelete m
      → from_json_task_delete host (to_json_task_delete m) ≡ some m
  unfolding from_json_task_delete to_json_task_delete
  from_json-to_json_task_delete m i =
      rw (number_in-props host laws (task_delete_props m) ("id" ∷ []) (m.id) refl) refl

  pub from_json-to_json_task_result :
      (m : TaskResultMessage)
      → IsKnownTaskResult m
      → from_json_task_result host (to_json_task_result m) ≡ some m
  unfolding from_json_task_result to_json_task_result
  from_json-to_json_task_result m i =
      rw
        (
          text_in-props host laws (task_result_props m) ("status" ∷ []) (m.status) refl,
          text_in-props host laws (task_result_props m) ("error" ∷ []) (m.error) refl,
        )
        refl
