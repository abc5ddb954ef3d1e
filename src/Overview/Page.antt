-- ===== src/Overview/Page.antt =====
-- The state of the page, what it waits for, and its operations.
use hdns.Prelude.{
  ℕ, suc, String, Bool, true, false, ◌&&◌, Option, none, some, List, [], ◌∷◌, ◌++◌, get_or, ◌==◌,
  leb, str_eq, if◌then◌else◌, find, filter,
}
use hdns.Prelude.IdSet
use hdns.Model.Enums.{RecordPurpose}
use hdns.Model.Messages.{Record, Address, Task, TaskResult, CertificateDetails, Resolution}
use hdns.RecordsTable.Purpose.{record_does_ddns}
use hdns.RecordsTable.State.{Answer, success, failure, address_text}
use hdns.Overview.Resolve.{add_resolution}
use hdns.Overview.Tasks.{task_matches_record_purpose}

-- A continuation that waits for an answer.
pub data Pending : Type 0 where
  await_address : Pending
  await_records : ℕ → Pending
  await_tasks await_details : Record → Pending
  await_run : Task → Pending
  await_delete : ℕ → Pending

-- What the page does to the rest of the program; the texts that name a task or a status are left to
-- the view.
pub data Effect : Type 0 where
  message : String → Effect
  run_succeeded run_failed : TaskResult → Effect
  error : Option String → String → Effect
  delete_dialog : Task → Effect
  edit_record : Record → Effect
  edit_task : ℕ → RecordPurpose → Option Task → Effect
  send : ℕ → Record → Effect
  open_artifact : ℕ → String → Effect

-- A stream is known by the number of the call of `streamResolveRecord` that made it. `open_streams`
-- has those that were made and not closed; a subscription is known by its stream, and that of
-- `connect$` keeps the record that it sends.
pub record Overview : Type 0 where
  pub current : Option Record
  pub loading_record : Bool
  pub current_ip : String
  pub tasks : List Task
  pub certificate_details : Option CertificateDetails
  pub resolve_results : List Resolution
  pub resolving : Bool
  pub stream : Option ℕ
  pub messages_sub : Option ℕ
  pub connected_sub : Option (ℕ × Record)
  pub streams_made : ℕ
  pub open_streams : List ℕ
  pub pending : List Pending
  pub effects : List Effect

abbrev pub new_page : Overview
new_page = record {
  current = none;
  loading_record = true;
  current_ip = "";
  tasks = [];
  certificate_details = none;
  resolve_results = [];
  resolving = false;
  stream = none;
  messages_sub = none;
  connected_sub = none;
  streams_made = 0;
  open_streams = [];
  pending = [];
  effects = [];
}

abbrev pub wait : Pending → Overview → Overview
wait p s = record s { pending = s.pending ++ p ∷ [] }

abbrev pub emit : Effect → Overview → Overview
emit e s = record s { effects = s.effects ++ e ∷ [] }

-- `this.stream?.close()`
abbrev pub close : Option ℕ → List ℕ → List ℕ
close none open_streams = open_streams
close (some i) open_streams = IdSet.delete open_streams i

unfoldable pub stop_resolve : Overview → Overview
stop_resolve s = record s {
  messages_sub = none;
  connected_sub = none;
  open_streams = close s.stream s.open_streams;
  stream = none;
  resolving = false;
}

-- The rest of `startResolve`, after its guard.
unfoldable pub open_stream : Record → Overview → Overview
unfolding stop_resolve
open_stream r s =
    let t = stop_resolve s in
    record t {
      resolve_results = [];
      resolving = true;
      stream = some t.streams_made;
      connected_sub = some (t.streams_made, r);
      messages_sub = some t.streams_made;
      streams_made = suc t.streams_made;
      open_streams = IdSet.add t.open_streams t.streams_made;
    }

unfoldable pub start_resolve : Overview → Overview
unfolding open_stream
start_resolve s = elim s.current [
  | none ↦ s
  | some r ↦ if record_does_ddns r then open_stream r s else s
]

-- What a stream reports; a subscription that is gone hears nothing.
unfoldable pub on_connected : Overview → Overview
on_connected s = elim s.connected_sub [
  | none ↦ s
  | some c ↦ elim s.stream [ none ↦ s | some j ↦ emit (send j c.1) s ]
]

unfoldable pub on_resolution : Resolution → Overview → Overview
unfolding add_resolution
on_resolution msg s = elim s.messages_sub [
  | none ↦ s
  | some i ↦ record s { resolve_results = add_resolution s.resolve_results msg }
]

unfoldable pub on_stream_error : Option String → Overview → Overview
unfolding stop_resolve
on_stream_error e s = elim s.messages_sub [
  | none ↦ s
  | some i ↦ stop_resolve (emit (error e "Resolve stream error") s)
]

unfoldable pub load_record : ℕ → Overview → Overview
load_record id s = wait (await_records id) (record s { loading_record = true })

-- `Number(paramMap.get('recordId'))` is `none` where it is not a finite number.
unfoldable pub on_init : Option ℕ → Overview → Overview
unfolding load_record
on_init recordId s =
    let t = wait await_address s in
    let invalid =
      emit (error (some "Invalid record id") "Overview") (record t { loading_record = false }) in
    elim recordId [ none ↦ invalid | some id ↦ if leb id 0 then invalid else load_record id t ]

unfoldable pub reload_record : Overview → Overview
unfolding load_record
reload_record s = elim s.current [ none ↦ s | some r ↦ load_record r.id s ]

unfoldable pub load_tasks_and_certificate : Overview → Overview
load_tasks_and_certificate s = elim s.current [
  | none ↦ s
  | some r ↦ wait (await_details r) (wait (await_tasks r) s)
]

unfoldable pub on_address : Answer (Option Address) → Overview → Overview
on_address (success addr) s = record s { current_ip = address_text addr }
on_address (failure e) s = record s { current_ip = "" }

-- What `loadRecord` does with the record that it found.
unfoldable pub on_found : Option Record → Overview → Overview
unfolding load_tasks_and_certificate start_resolve
on_found none s = s
on_found (some r) s =
    let t = load_tasks_and_certificate s in if record_does_ddns r then start_resolve t else t

unfoldable pub on_records : ℕ → Answer (Option (List Record)) → Overview → Overview
unfolding on_found
on_records id (success res) s =
    let found = find (λ r. r.id == id) (get_or res []) in
    on_found found (record s { current = found; loading_record = false })
on_records id (failure e) s =
    emit (error e "Failed to load record") (record s { loading_record = false })

unfoldable pub shown_tasks : Record → List Task → List Task
unfolding task_matches_record_purpose
shown_tasks r tasks = filter (λ t. t.record_id == r.id && task_matches_record_purpose t r) tasks

unfoldable pub on_tasks : Record → Answer (Option (List Task)) → Overview → Overview
unfolding shown_tasks
on_tasks r (success res) s = record s { tasks = shown_tasks r (get_or res []) }
on_tasks r (failure e) s = emit (error e "Failed to load tasks") s

unfoldable pub on_details : Answer (Option CertificateDetails) → Overview → Overview
on_details (success details) s = record s { certificate_details = details }
on_details (failure e) s = emit (error e "Failed to load certificate details") s

unfoldable pub on_run : Answer TaskResult → Overview → Overview
unfolding load_tasks_and_certificate
on_run (success res) s =
    load_tasks_and_certificate
      (emit (if str_eq res.error "" then run_succeeded res else run_failed res) s)
on_run (failure e) s = emit (error e "Run failed") s

unfoldable pub on_delete : Answer (Unit {0}) → Overview → Overview
unfolding load_tasks_and_certificate
on_delete (success _) s = load_tasks_and_certificate (emit (message "Task deleted.") s)
on_delete (failure e) s = emit (error e "Delete failed") s
