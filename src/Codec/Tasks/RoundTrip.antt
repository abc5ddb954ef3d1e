-- ===== src/Codec/Tasks/RoundTrip.antt =====
-- `Task`, `TaskList`, `TaskDelete` and `TaskResult`: what is written is read again.
use hdns.Prelude.{true, ◌≡◌, refl, arith, All}
use hdns.Codec.Wire.{Wire, WireLaws, WireMoves, IsSafe, IsInt32}
use hdns.Codec.Messages.{TaskMessage, TaskListMessage, TaskDeleteMessage, TaskResultMessage}
use hdns.Codec.Base.{
  create_base_task, create_base_task_list, create_base_task_delete, create_base_task_result,
}
use hdns.Codec.Clauses.{select}
use hdns.Codec.Clauses.Rounds.{Steps, done, ◌▸◌, RoundTrip, Steps-RoundTrip}
use hdns.Codec.Clauses.Fields.{bool-Carries, int32-Carries, int64-Carries, string-Carries}
use hdns.Codec.Clauses.Repeated.{Fits, messages-Carries}
use hdns.Codec.Tasks.{
  task_fields, encode_task, task_cases, decode_task, task_list_fields, task_list_cases,
  task_delete_fields, task_delete_cases, task_result_fields, task_result_cases,
}

-- The messages whose numbers have the range of their types, whose texts survive UTF-8, and whose parts
-- have a length that can be written.
module _ (w : Wire) where
  abbrev pub IsTask : TaskMessage → Type 0
  IsTask m =
      IsSafe (m.id)
      × IsSafe (m.created_at)
      × IsSafe (m.updated_at)
      × IsSafe (m.record_id)
      × (w.keeps (m.name) ≡ true)
      × IsInt32 (m.trigger_on)
      × (w.keeps (m.method) ≡ true)
      × (w.keeps (m.url) ≡ true)
      × (w.keeps (m.headers) ≡ true)
      × (w.keeps (m.body) ≡ true)
      × IsSafe (m.last_run)
      × (w.keeps (m.last_status) ≡ true)
      × (w.keeps (m.last_error) ≡ true)
      × (w.keeps (m.certificate_format) ≡ true)

  abbrev pub IsTaskList : TaskListMessage → Type 0
  IsTaskList m = All (λ x. IsTask x × Fits (encode_task w x)) (m.tasks)

  abbrev pub IsTaskDelete : TaskDeleteMessage → Type 0
  IsTaskDelete m = IsSafe (m.id)

  abbrev pub IsTaskResult : TaskResultMessage → Type 0
  IsTaskResult m = (w.keeps (m.status) ≡ true) × (w.keeps (m.error) ≡ true)

  module _ (laws : WireLaws w) (moves : WireMoves w) where
    pub task-Steps :
        (m : TaskMessage) → IsTask m → Steps w (task_cases w) (task_fields w m) create_base_task m
    unfolding select
    task-Steps m (i1, i2, i3, i4, i5, i6, i7, i8, i9, i10, i11, i12, i13, i14) =
        int64-Carries w laws moves 8 _ (m.id) i1 refl (omega arith) refl
        ▸ int64-Carries w laws moves 16 _ (m.created_at) i2 refl (omega arith) refl
        ▸ int64-Carries w laws moves 24 _ (m.updated_at) i3 refl (omega arith) refl
        ▸ int64-Carries w laws moves 32 _ (m.record_id) i4 refl (omega arith) refl
        ▸ string-Carries w laws moves 42 _ (m.name) i5 refl (omega arith) refl
        ▸ int32-Carries w laws moves 48 _ (m.trigger_on) i6 refl (omega arith) refl
        ▸ string-Carries w laws moves 58 _ (m.method) i7 refl (omega arith) refl
        ▸ string-Carries w laws moves 66 _ (m.url) i8 refl (omega arith) refl
        ▸ string-Carries w laws moves 74 _ (m.headers) i9 refl (omega arith) refl
        ▸ string-Carries w laws moves 82 _ (m.body) i10 refl (omega arith) refl
        ▸ bool-Carries w laws moves 88 _ (m.enabled) refl (omega arith) refl
        ▸ int64-Carries w laws moves 96 _ (m.last_run) i11 refl (omega arith) refl
        ▸ string-Carries w laws moves 106 _ (m.last_status) i12 refl (omega arith) refl
        ▸ string-Carries w laws moves 114 _ (m.last_error) i13 refl (omega arith) refl
        ▸ bool-Carries w laws moves 120 _ (m.include_certificate) refl (omega arith) refl
        ▸ string-Carries w laws moves 130 _ (m.certificate_format) i14 refl (omega arith) refl
        ▸ done

    pub task-RoundTrip :
        (m : TaskMessage) → IsTask m → RoundTrip w (encode_task w) (decode_task w) m
    unfolding encode_task decode_task
    task-RoundTrip m i =
        Steps-RoundTrip w (task_cases w) (task_fields w m) create_base_task m (task-Steps m i)

    pub task_list-Steps :
        (m : TaskListMessage)
        → IsTaskList m
        → Steps w (task_list_cases w) (task_list_fields w m) create_base_task_list m
    unfolding select
    task_list-Steps m i1 =
        messages-Carries w laws moves (encode_task w) (decode_task w) IsTask 10 _
          (λ v m. record m { tasks = v }) (m.tasks) i1 task-RoundTrip refl (λ vs v. refl)
          (omega arith) refl
        ▸ done

    pub task_delete-Steps :
        (m : TaskDeleteMessage)
        → IsTaskDelete m
        → Steps w (task_delete_cases w) (task_delete_fields w m) create_base_task_delete m
    unfolding select
    task_delete-Steps m i1 = int64-Carries w laws moves 8 _ (m.id) i1 refl (omega arith) refl ▸ done

    pub task_result-Steps :
        (m : TaskResultMessage)
        → IsTaskResult m
        → Steps w (task_result_cases w) (task_result_fields w m) create_base_task_result m
    unfolding select
    task_result-Steps m (i1, i2) =
        string-Carries w laws moves 10 _ (m.status) i1 refl (omega arith) refl
        ▸ string-Carries w laws moves 18 _ (m.error) i2 refl (omega arith) refl
        ▸ done
