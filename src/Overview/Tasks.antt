-- ===== src/Overview/Tasks.antt =====
-- Which tasks the page shows for a record, and what the form sends for it.
use hdns.Prelude.{Bool, true, false, Option, some}
use hdns.Model.Enums.{RecordPurpose, TaskTrigger}
use hdns.Model.Messages.{Record, Task}
use hdns.RecordsTable.Purpose.{purpose_of}

-- `task.triggerOn === trigger`
abbrev pub is_ip : Option TaskTrigger → Bool
is_ip (some TaskTrigger.ip) = true
is_ip _ = false

abbrev pub is_cert : Option TaskTrigger → Bool
is_cert (some TaskTrigger.cert) = true
is_cert _ = false

abbrev pub matches : Option TaskTrigger → RecordPurpose → Bool
matches t RecordPurpose.ddns = is_ip t
matches t RecordPurpose.cert = is_cert t
matches t _ = true

unfoldable pub task_matches_record_purpose : Task → Record → Bool
task_matches_record_purpose t r = matches t.trigger_on (purpose_of r)
