-- ===== src/Overview/Runs.antt =====
-- What the user does, what arrives, and the runs of the page.
use hdns.Prelude.{ℕ, String, ◌≡◌, Option, none, some, List, ◌∷◌, ◌++◌}
use hdns.Model.Messages.{Record, Address, Task, TaskResult, CertificateDetails, Resolution}
use hdns.RecordsTable.Purpose.{purpose_of}
use hdns.RecordsTable.State.{Answer}
use hdns.Overview.Page.{
  Pending, await_address, await_records, await_tasks, await_details, await_run, await_delete,
  Overview, wait, emit, delete_dialog, edit_record, edit_task, open_artifact, stop_resolve,
  start_resolve, on_connected, on_resolution, on_stream_error, on_init, reload_record,
  load_tasks_and_certificate, on_address, on_records, on_tasks, on_details, on_run, on_delete,
}

-- `init` has the number of the route; `confirm_delete` is the handler of the dialog; `saved_record`
-- and `saved_task` are the outputs of the drawers.
pub data Action : Type 0 where
  init : Option ℕ → Action
  destroy start stop edit saved_record saved_task add_task : Action
  change_task run_task remove_task : Task → Action
  confirm_delete : ℕ → Action
  download : String → Action

-- `const record = this.record(); if (!record) return;`
abbrev with_record : (Record → Overview → Overview) → Overview → Overview
with_record f s = elim s.current [ none ↦ s | some r ↦ f r s ]

unfoldable pub act : Action → Overview → Overview
unfolding on_init stop_resolve start_resolve reload_record load_tasks_and_certificate
act (init recordId) s = on_init recordId s
act destroy s = stop_resolve s
act start s = start_resolve s
act stop s = stop_resolve s
act edit s = with_record (λ r. emit (edit_record r)) s
act saved_record s = reload_record s
act saved_task s = load_tasks_and_certificate s
act add_task s = with_record (λ r. emit (edit_task r.id (purpose_of r) none)) s
act (change_task t) s = with_record (λ r. emit (edit_task r.id (purpose_of r) (some t))) s
act (run_task t) s = wait (await_run t) s
act (remove_task t) s = emit (delete_dialog t) s
act (confirm_delete id) s = wait (await_delete id) s
act (download artifact) s = with_record (λ r. emit (open_artifact r.id artifact)) s

pub data Event : Type 0 where
  address : Answer (Option Address) → Event
  record_list : ℕ → Answer (Option (List Record)) → Event
  task_list : Record → Answer (Option (List Task)) → Event
  details : Record → Answer (Option CertificateDetails) → Event
  ran : Task → Answer TaskResult → Event
  deleted : ℕ → Answer (Unit {0}) → Event

-- The continuation that an event runs.
abbrev pub awaited : Event → Pending
awaited (address _) = await_address
awaited (record_list id _) = await_records id
awaited (task_list r _) = await_tasks r
awaited (details r _) = await_details r
awaited (ran t _) = await_run t
awaited (deleted id _) = await_delete id

unfoldable pub handle : Event → Overview → Overview
unfolding on_address on_records on_tasks on_details on_run on_delete
handle (address a) s = on_address a s
handle (record_list id a) s = on_records id a s
handle (task_list r a) s = on_tasks r a s
handle (details r a) s = on_details a s
handle (ran t a) s = on_run a s
handle (deleted id a) s = on_delete a s

-- What a stream reports.
pub data StreamEvent : Type 0 where
  connected : StreamEvent
  resolution : Resolution → StreamEvent
  failed : Option String → StreamEvent

unfoldable pub hear : StreamEvent → Overview → Overview
unfolding on_connected on_resolution on_stream_error
hear connected s = on_connected s
hear (resolution msg) s = on_resolution msg s
hear (failed e) s = on_stream_error e s

-- Answers come in any order, between reports of the streams and actions of the user; also after the
-- page is gone, since nothing cancels what waits for an answer.
pub data Step (s : Overview) : Overview → Type 0 where
  user : (a : Action) → Step s (act a s)
  answer :
      (before : List Pending) (e : Event) (after : List Pending)
      → s.pending ≡ before ++ awaited e ∷ after
      → Step s (handle e (record s { pending = before ++ after }))
  report : (e : StreamEvent) → Step s (hear e s)

pub data Run (s : Overview) : Overview → Type 0 where
  here : Run s s
  next : {t u : Overview} → Run s t → Step t u → Run s u
