-- ===== src/Overview/Streams.antt =====
-- The life of the stream of resolutions.
use hdns.Prelude.{
  ℕ, ◌≡◌, refl, Bool, true, false, Option, none, some, List, [], ◌∷◌, get_or, arith, if◌then◌else◌,
  ◌==◌, leb, str_eq, Bool-cases, inl, inr, find,
}
use hdns.Prelude.IdSet.{has, add, delete}
use hdns.Model.Messages.{Record}
use hdns.RecordsTable.Purpose.{record_does_ddns}
use hdns.RecordsTable.State.{Answer, success, failure}
use hdns.Overview.Page.{
  Overview, new_page, close, emit, send, message, run_succeeded, run_failed, on_found, stop_resolve,
  open_stream, start_resolve, on_connected, on_resolution, on_stream_error, on_init, load_record,
  reload_record, load_tasks_and_certificate, on_address, on_records, on_tasks, on_details, on_run,
  on_delete,
}
use hdns.Overview.Runs.{
  Action, act, init, destroy, start, stop, edit, saved_record, saved_task, add_task, change_task,
  run_task, remove_task, confirm_delete, download, Event, handle, address, record_list, task_list,
  details, ran, deleted, StreamEvent, hear, connected, resolution, failed, Step, user, answer,
  report, Run, here, next,
}

-- The streams that a page with this stream keeps open.
abbrev pub held : Option ℕ → List ℕ
held none = []
held (some i) = i ∷ []

abbrev pub is_some {ℓ} : {A : Type ℓ} → Option A → Bool
is_some none = false
is_some (some a) = true

abbrev pub stream_of : Option (ℕ × Record) → Option ℕ
stream_of none = none
stream_of (some c) = some c.0

pub record Held (open_streams : List ℕ) (stream messages_sub : Option ℕ)
    (connected_sub : Option (ℕ × Record)) (resolving : Bool) : Type 0 where
  pub streams : open_streams ≡ held stream
  pub messages : messages_sub ≡ stream
  pub connections : stream_of connected_sub ≡ stream
  pub spinner : resolving ≡ is_some stream

-- The stream that the page holds is the only one that is open, both subscriptions are to it, and
-- the page is resolving exactly when there is one.
pub record IsHeld (s : Overview) : Type 0 where
  pub holds : Held s.open_streams s.stream s.messages_sub s.connected_sub s.resolving

-- Closing the stream that is held leaves none.
close-held : (stream : Option ℕ) → close stream (held stream) ≡ []
unfolding delete
close-held none = refl
close-held (some i) = ground arith

stop_resolve-IsHeld : (s : Overview) → IsHeld s → IsHeld (stop_resolve s)
unfolding stop_resolve
stop_resolve-IsHeld s h = record {
  holds = record {
    streams = rw h.holds.streams (close-held s.stream);
    messages = refl;
    connections = refl;
    spinner = refl;
  };
}

open_stream-IsHeld : (r : Record) (s : Overview) → IsHeld s → IsHeld (open_stream r s)
unfolding open_stream stop_resolve add has
open_stream-IsHeld r s h = record {
  holds = record {
    streams = rw (h.holds.streams, close-held s.stream) refl;
    messages = refl;
    connections = refl;
    spinner = refl;
  };
}

-- The two cases of an optional value, and of a test.
cases-IsHeld {ℓ} :
    {A : Type ℓ} (o : Option A) (s : Overview) (f : A → Overview)
    → IsHeld s
    → ((a : A) → IsHeld (f a))
    → IsHeld (elim o [ none ↦ s | some a ↦ f a ])
cases-IsHeld none s f h k = h
cases-IsHeld (some a) s f h k = k a

test-IsHeld : (b : Bool) (s t : Overview) → IsHeld s → IsHeld t → IsHeld (if b then s else t)
test-IsHeld true s t h k = h
test-IsHeld false s t h k = k

start_resolve-IsHeld : (s : Overview) → IsHeld s → IsHeld (start_resolve s)
unfolding start_resolve
start_resolve-IsHeld s h =
    cases-IsHeld s.current s _ h
      (λ r. test-IsHeld (record_does_ddns r) (open_stream r s) s (open_stream-IsHeld r s h) h)

load_tasks-IsHeld : (s : Overview) → IsHeld s → IsHeld (load_tasks_and_certificate s)
unfolding load_tasks_and_certificate
load_tasks-IsHeld s h = cases-IsHeld s.current s _ h (λ r. record { holds = h.holds })

on_init-IsHeld : (id : Option ℕ) (s : Overview) → IsHeld s → IsHeld (on_init id s)
unfolding on_init load_record
on_init-IsHeld none s h = record { holds = h.holds }
on_init-IsHeld (some id) s h = elim (Bool-cases (leb id 0)) [
  | inl e ↦ rw e (record { holds = h.holds })
  | inr e ↦ rw e (record { holds = h.holds })
]

act-IsHeld : (a : Action) (s : Overview) → IsHeld s → IsHeld (act a s)
unfolding act reload_record load_record
act-IsHeld (init id) s h = on_init-IsHeld id s h
act-IsHeld destroy s h = stop_resolve-IsHeld s h
act-IsHeld start s h = start_resolve-IsHeld s h
act-IsHeld stop s h = stop_resolve-IsHeld s h
act-IsHeld edit s h = cases-IsHeld s.current s _ h (λ r. record { holds = h.holds })
act-IsHeld saved_record s h = cases-IsHeld s.current s _ h (λ r. record { holds = h.holds })
act-IsHeld saved_task s h = load_tasks-IsHeld s h
act-IsHeld add_task s h = cases-IsHeld s.current s _ h (λ r. record { holds = h.holds })
act-IsHeld (change_task t) s h = cases-IsHeld s.current s _ h (λ r. record { holds = h.holds })
act-IsHeld (run_task t) s h = record { holds = h.holds }
act-IsHeld (remove_task t) s h = record { holds = h.holds }
act-IsHeld (confirm_delete id) s h = record { holds = h.holds }
act-IsHeld (download artifact) s h = cases-IsHeld s.current s _ h (λ r. record { holds = h.holds })

on_found-IsHeld : (found : Option Record) (s : Overview) → IsHeld s → IsHeld (on_found found s)
unfolding on_found
on_found-IsHeld none s h = h
on_found-IsHeld (some r) s h =
    let t = load_tasks_and_certificate s in
    let loaded = load_tasks-IsHeld s h in
    test-IsHeld (record_does_ddns r) (start_resolve t) t (start_resolve-IsHeld t loaded) loaded

on_records-IsHeld :
    (id : ℕ) (a : Answer (Option (List Record))) (s : Overview)
    → IsHeld s
    → IsHeld (on_records id a s)
unfolding on_records
on_records-IsHeld id (failure e) s h = record { holds = h.holds }
on_records-IsHeld id (success res) s h =
    let found = find (λ r. r.id == id) (get_or res []) in
    on_found-IsHeld found (record s { current = found; loading_record = false })
      (record { holds = h.holds })

handle-IsHeld : (e : Event) (s : Overview) → IsHeld s → IsHeld (handle e s)
unfolding handle on_address on_tasks on_details on_run on_delete
handle-IsHeld (address (success a)) s h = record { holds = h.holds }
handle-IsHeld (address (failure e)) s h = record { holds = h.holds }
handle-IsHeld (record_list id a) s h = on_records-IsHeld id a s h
handle-IsHeld (task_list r (success a)) s h = record { holds = h.holds }
handle-IsHeld (task_list r (failure e)) s h = record { holds = h.holds }
handle-IsHeld (details r (success a)) s h = record { holds = h.holds }
handle-IsHeld (details r (failure e)) s h = record { holds = h.holds }
handle-IsHeld (ran t (success a)) s h =
    load_tasks-IsHeld (emit (if str_eq a.error "" then run_succeeded a else run_failed a) s)
      (record { holds = h.holds })
handle-IsHeld (ran t (failure e)) s h = record { holds = h.holds }
handle-IsHeld (deleted id (success a)) s h =
    load_tasks-IsHeld (emit (message "Task deleted.") s) (record { holds = h.holds })
handle-IsHeld (deleted id (failure e)) s h = record { holds = h.holds }

hear-IsHeld : (e : StreamEvent) (s : Overview) → IsHeld s → IsHeld (hear e s)
unfolding hear on_connected on_resolution on_stream_error
hear-IsHeld connected s h =
    cases-IsHeld s.connected_sub s _ h
      (λ c. cases-IsHeld s.stream s (λ j. emit (send j c.1) s) h (λ j. record { holds = h.holds }))
hear-IsHeld (resolution msg) s h =
    cases-IsHeld s.messages_sub s _ h (λ i. record { holds = h.holds })
hear-IsHeld (failed e) s h =
    cases-IsHeld s.messages_sub s _ h (λ i. stop_resolve-IsHeld _ (record { holds = h.holds }))

Step-IsHeld : {s t : Overview} → Step s t → IsHeld s → IsHeld t
Step-IsHeld {s} (user a) h = act-IsHeld a s h
Step-IsHeld {s} (answer before e after eq) h = handle-IsHeld e _ (record { holds = h.holds })
Step-IsHeld {s} (report e) h = hear-IsHeld e s h

-- In every run of the page, whatever the order of the answers, of the reports of its streams and of
-- what the user does: no stream is open but the one that the page holds, both subscriptions are to
-- that stream, and the page is resolving exactly when there is one.
pub Run-IsHeld : {s : Overview} → Run new_page s → IsHeld s
Run-IsHeld here = record {
  holds = record { streams = refl; messages = refl; connections = refl; spinner = refl };
}
Run-IsHeld (next r step) = Step-IsHeld step (Run-IsHeld r)

stop_resolve-is_deaf : (e : StreamEvent) (s : Overview) → hear e (stop_resolve s) ≡ stop_resolve s
unfolding stop_resolve hear on_connected on_resolution on_stream_error
stop_resolve-is_deaf connected s = refl
stop_resolve-is_deaf (resolution msg) s = refl
stop_resolve-is_deaf (failed text) s = refl

-- When the page is left at the end of any run, no stream is open, and a report of a stream changes
-- nothing.
pub destroy-closes :
    {s : Overview} (e : StreamEvent)
    → Run new_page s
    → ((act destroy s).open_streams ≡ []) × (hear e (act destroy s) ≡ act destroy s)
unfolding act stop_resolve
destroy-closes {s} e run =
    (rw (Run-IsHeld run).holds.streams (close-held s.stream), stop_resolve-is_deaf e s)
