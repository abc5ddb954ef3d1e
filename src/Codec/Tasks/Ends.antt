-- ===== src/Codec/Tasks/Ends.antt =====
-- `Task`, `TaskList`, `TaskDelete` and `TaskResult`: reading ends.
use hdns.Prelude.{ℕ, length}
use hdns.Codec.Wire.{Wire, WireMoves, Bytes}
use hdns.Codec.Base.{
  create_base_task, create_base_task_list, create_base_task_delete, create_base_task_result,
}
use hdns.Codec.Clauses.Ends.{
  Ends, decode_from-Ends, bool_case-ClauseEnds, int32_case-ClauseEnds, int64_case-ClauseEnds,
  message_case-ClauseEnds, string_case-ClauseEnds,
}
use hdns.Codec.Tasks.{
  task_cases, decode_task, task_list_cases, decode_task_list, task_delete_cases, decode_task_delete,
  task_result_cases, decode_task_result,
}

module _ (w : Wire) (moves : WireMoves w) where
  pub task-Ends : (n : ℕ) (b : Bytes) → Ends (length b) (decode_task w n b)
  unfolding decode_task
  task-Ends n b = decode_from-Ends w moves create_base_task (task_cases w) n b (
    int64_case-ClauseEnds w moves 8 _,
    (
      int64_case-ClauseEnds w moves 16 _,
      (
        int64_case-ClauseEnds w moves 24 _,
        (
          int64_case-ClauseEnds w moves 32 _,
          (
            string_case-ClauseEnds w moves 42 _,
            (
              int32_case-ClauseEnds w moves 48 _,
              (
                string_case-ClauseEnds w moves 58 _,
                (
                  string_case-ClauseEnds w moves 66 _,
                  (
                    string_case-ClauseEnds w moves 74 _,
                    (
                      string_case-ClauseEnds w moves 82 _,
                      (
                        bool_case-ClauseEnds w moves 88 _,
                        (
                          int64_case-ClauseEnds w moves 96 _,
                          (
                            string_case-ClauseEnds w moves 106 _,
                            (
                              string_case-ClauseEnds w moves 114 _,
                              (
                                bool_case-ClauseEnds w moves 120 _,
                                (string_case-ClauseEnds w moves 130 _, tt),
                              ),
                            ),
                          ),
                        ),
                      ),
                    ),
                  ),
                ),
              ),
            ),
          ),
        ),
      ),
    ),
  )

  pub task_list-Ends : (n : ℕ) (b : Bytes) → Ends (length b) (decode_task_list w n b)
  unfolding decode_task_list
  task_list-Ends n b =
      decode_from-Ends w moves create_base_task_list (task_list_cases w) n b
        (message_case-ClauseEnds w moves 10 _ _ task-Ends, tt)

  pub task_delete-Ends : (n : ℕ) (b : Bytes) → Ends (length b) (decode_task_delete w n b)
  unfolding decode_task_delete
  task_delete-Ends n b =
      decode_from-Ends w moves create_base_task_delete (task_delete_cases w) n b
        (int64_case-ClauseEnds w moves 8 _, tt)

  pub task_result-Ends : (n : ℕ) (b : Bytes) → Ends (length b) (decode_task_result w n b)
  unfolding decode_task_result
  task_result-Ends n b =
      decode_from-Ends w moves create_base_task_result (task_result_cases w) n b
        (string_case-ClauseEnds w moves 10 _, (string_case-ClauseEnds w moves 18 _, tt))
