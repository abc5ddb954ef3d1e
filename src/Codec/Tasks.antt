-- ===== src/Codec/Tasks.antt =====
-- frontend/src/app/global/model/api.ts: `encode` and `decode` of `Task`, `TaskList`, `TaskDelete` and `TaskResult`.
pub mod RoundTrip
pub mod Ends
pub mod Json
use hdns.Prelude.{
  ℕ, ℤ, pos, String, Bool, true, false, Option, none, some, List, [], ◌∷◌, ◌++◌, ◌≡◌, ◌<◌, ◌^◌,
  refl, arith, All, length,
}
use hdns.Codec.Wire.{Wire, Bytes}
use hdns.Codec.Messages.{TaskMessage, TaskListMessage, TaskDeleteMessage, TaskResultMessage}
use hdns.Codec.Base.{
  create_base_task, create_base_task_list, create_base_task_delete, create_base_task_result,
}
use hdns.Codec.Clauses.{
  Outcome, Clause, write_all, decode_from, bool_field, int32_field, int64_field, messages_field,
  string_field, bool_case, int32_case, int64_case, message_case, string_case,
}

module _ (w : Wire) where
  abbrev pub task_fields : TaskMessage → List (Option Bytes)
  task_fields m =
      int64_field w 8 (m.id)
      ∷ int64_field w 16 (m.created_at)
      ∷ int64_field w 24 (m.updated_at)
      ∷ int64_field w 32 (m.record_id)
      ∷ string_field w 42 (m.name)
      ∷ int32_field w 48 (m.trigger_on)
      ∷ string_field w 58 (m.method)
      ∷ string_field w 66 (m.url)
      ∷ string_field w 74 (m.headers)
      ∷ string_field w 82 (m.body)
      ∷ bool_field w 88 (m.enabled)
      ∷ int64_field w 96 (m.last_run)
      ∷ string_field w 106 (m.last_status)
      ∷ string_field w 114 (m.last_error)
      ∷ bool_field w 120 (m.include_certificate)
      ∷ string_field w 130 (m.certificate_format)
      ∷ []

  unfoldable pub encode_task : TaskMessage → Option Bytes
  encode_task m = write_all (task_fields m)

  abbrev pub task_cases : List (Clause TaskMessage)
  task_cases =
      int64_case w 8 (λ v m. record m { id = v })
      ∷ int64_case w 16 (λ v m. record m { created_at = v })
      ∷ int64_case w 24 (λ v m. record m { updated_at = v })
      ∷ int64_case w 32 (λ v m. record m { record_id = v })
      ∷ string_case w 42 (λ v m. record m { name = v })
      ∷ int32_case w 48 (λ v m. record m { trigger_on = v })
      ∷ string_case w 58 (λ v m. record m { method = v })
      ∷ string_case w 66 (λ v m. record m { url = v })
      ∷ string_case w 74 (λ v m. record m { headers = v })
      ∷ string_case w 82 (λ v m. record m { body = v })
      ∷ bool_case w 88 (λ v m. record m { enabled = v })
      ∷ int64_case w 96 (λ v m. record m { last_run = v })
      ∷ string_case w 106 (λ v m. record m { last_status = v })
      ∷ string_case w 114 (λ v m. record m { last_error = v })
      ∷ bool_case w 120 (λ v m. record m { include_certificate = v })
      ∷ string_case w 130 (λ v m. record m { certificate_format = v })
      ∷ []

  unfoldable pub decode_task : ℕ → Bytes → Outcome (TaskMessage × Bytes)
  decode_task = decode_from w create_base_task task_cases

  abbrev pub task_list_fields : TaskListMessage → List (Option Bytes)
  task_list_fields m = messages_field w encode_task 10 (m.tasks) ∷ []

  unfoldable pub encode_task_list : TaskListMessage → Option Bytes
  encode_task_list m = write_all (task_list_fields m)

  abbrev pub task_list_cases : List (Clause TaskListMessage)
  task_list_cases =
      message_case w decode_task 10 (λ v m. record m { tasks = m.tasks ++ v ∷ [] }) ∷ []

  unfoldable pub decode_task_list : ℕ → Bytes → Outcome (TaskListMessage × Bytes)
  decode_task_list = decode_from w create_base_task_list task_list_cases

  abbrev pub task_delete_fields : TaskDeleteMessage → List (Option Bytes)
  task_delete_fields m = int64_field w 8 (m.id) ∷ []

  unfoldable pub encode_task_delete : TaskDeleteMessage → Option Bytes
  encode_task_delete m = write_all (task_delete_fields m)

  abbrev pub task_delete_cases : List (Clause TaskDeleteMessage)
  task_delete_cases = int64_case w 8 (λ v m. record m { id = v }) ∷ []

  unfoldable pub decode_task_delete : ℕ → Bytes → Outcome (TaskDeleteMessage × Bytes)
  decode_task_delete = decode_from w create_base_task_delete task_delete_cases

  abbrev pub task_result_fields : TaskResultMessage → List (Option Bytes)
  task_result_fields m = string_field w 10 (m.status) ∷ string_field w 18 (m.error) ∷ []

  unfoldable pub encode_task_result : TaskResultMessage → Option Bytes
  encode_task_result m = write_all (task_result_fields m)

  abbrev pub task_result_cases : List (Clause TaskResultMessage)
  task_result_cases =
      string_case w 10 (λ v m. record m { status = v })
      ∷ string_case w 18 (λ v m. record m { error = v })
      ∷ []

  unfoldable pub decode_task_result : ℕ → Bytes → Outcome (TaskResultMessage × Bytes)
  decode_task_result = decode_from w create_base_task_result task_result_cases
