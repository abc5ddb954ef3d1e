-- ===== src/RecordsTable/Certificates.antt =====
-- Refreshing, issuing, polling and deleting; the events of the component.
use hdns.Prelude.{
  ℕ, ◌+◌, ◌≡◌, String, Bool, false, not, ◌&&◌, Option, none, some, List, [], ◌∷◌, ◌++◌, get_or,
  str_eq, leb, ◌==◌, if◌then◌else◌, find,
}
use hdns.Prelude.IdSet
use hdns.Model.Messages.{Record, Address, Resolution, Certificate}
use hdns.RecordsTable.State.{
  Answer, success, failure, Pending, await_address, await_records, await_hetzner, await_resolved,
  await_refresh, await_issue, poll_timer, await_poll, await_delete, RecordsTable, message,
  issuing_message, error, renew_dialog, delete_dialog, overview, wait, show,
}
use hdns.RecordsTable.Loading.{
  load_wanted_ip, load, on_address, on_records, on_hetzner, on_resolved,
}

-- `record.certificate?.status`
abbrev pub status_of : Option Certificate → Option String
status_of none = none
status_of (some c) = some c.status

abbrev pub is_text : Option String → String → Bool
is_text none t = false
is_text (some s) t = str_eq s t

unfoldable pub do_issue_certificate : Record → RecordsTable → RecordsTable
do_issue_certificate r s =
    wait (await_issue r)
      (show (issuing_message r) (record s { issuing = IdSet.add s.issuing r.id }))

unfoldable pub issue_certificate : Record → RecordsTable → RecordsTable
unfolding do_issue_certificate
issue_certificate r s =
    if is_text (status_of r.certificate) "valid"
    then show (renew_dialog r) s
    else do_issue_certificate r s

abbrev pub max_attempts : ℕ
max_attempts = 20

unfoldable pub poll_certificate : ℕ → ℕ → RecordsTable → RecordsTable
poll_certificate id attempt s =
    if leb max_attempts attempt then s else wait (poll_timer id attempt) s

unfoldable pub on_issue : Record → Answer (Unit {0}) → RecordsTable → RecordsTable
unfolding load poll_certificate
on_issue r (success _) s =
    let t = record s { issuing = IdSet.delete s.issuing r.id } in
    poll_certificate r.id 0
      (load none (show (message "Certificate issuance started. This may take a moment…") t))
on_issue r (failure e) s =
    show (error e "Certificate issuance failed")
      (record s { issuing = IdSet.delete s.issuing r.id })

-- `record?.certificate?.status` of the polled record
unfoldable pub polled_status : ℕ → List Record → Option String
polled_status id records = elim (find (λ r. r.id == id) records) [
  | none ↦ none
  | some r ↦ status_of r.certificate
]

-- `status && status !== 'pending'`
abbrev pub has_left_pending : Option String → Bool
has_left_pending none = false
has_left_pending (some s) = not (str_eq s "") && not (str_eq s "pending")

unfoldable pub on_poll : ℕ → ℕ → Answer (Option (List Record)) → RecordsTable → RecordsTable
unfolding poll_certificate polled_status
on_poll id attempt (success res) s =
    let records = get_or res [] in
    let status = polled_status id records in
    let t = record s { records = records } in
    if has_left_pending status
    then (if is_text status "valid" then show (message "Certificate issued.") t else t)
    else poll_certificate id (attempt + 1) t
on_poll id attempt (failure e) s = poll_certificate id (attempt + 1) s

unfoldable pub refresh_record : Record → RecordsTable → RecordsTable
refresh_record r s = wait (await_refresh r) s

unfoldable pub on_refresh : Answer (Unit {0}) → RecordsTable → RecordsTable
unfolding load_wanted_ip load
on_refresh (success _) s = load none (load_wanted_ip (show (message "Record refreshed.") s))
on_refresh (failure e) s = show (error e "Refresh failed") s

unfoldable pub on_delete : Answer (Unit {0}) → RecordsTable → RecordsTable
unfolding load
on_delete (success _) s = load none (show (message "Record deleted.") s)
on_delete (failure e) s = show (error e "Delete failed") s

-- What the user does. `confirm_issue` and `confirm_delete` are the handlers of the dialogs; the
-- latter has the state of the dialog's checkbox.
pub data Action : Type 0 where
  open_page : Action
  search : String → Action
  refresh issue confirm_issue delete open_overview : Record → Action
  confirm_delete : Record → Bool → Action

unfoldable pub act : Action → RecordsTable → RecordsTable
unfolding load_wanted_ip load refresh_record issue_certificate do_issue_certificate
act open_page s = load none (load_wanted_ip s)
act (search term) s = load (some term) (record s { search_term = term })
act (refresh r) s = refresh_record r s
act (issue r) s = issue_certificate r s
act (confirm_issue r) s = do_issue_certificate r s
act (delete r) s = show (delete_dialog r) s
act (open_overview r) s = show (overview r.id) s
act (confirm_delete r from_hetzner) s = wait (await_delete r from_hetzner) s

-- An answer, or a timer that fires.
pub data Event : Type 0 where
  address : Answer (Option Address) → Event
  record_list : Option String → Answer (Option (List Record)) → Event
  hetzner : Record → Answer (Option Address) → Event
  resolved : Record → Answer (Option (List Resolution)) → Event
  refreshed : Record → Answer (Unit {0}) → Event
  issued : Record → Answer (Unit {0}) → Event
  timer_fired : ℕ → ℕ → Event
  polled : ℕ → ℕ → Answer (Option (List Record)) → Event
  deleted : Record → Bool → Answer (Unit {0}) → Event

-- The continuation that an event runs.
abbrev pub awaited : Event → Pending
awaited (address _) = await_address
awaited (record_list term _) = await_records term
awaited (hetzner r _) = await_hetzner r
awaited (resolved r _) = await_resolved r
awaited (refreshed r _) = await_refresh r
awaited (issued r _) = await_issue r
awaited (timer_fired id attempt) = poll_timer id attempt
awaited (polled id attempt _) = await_poll id attempt
awaited (deleted r b _) = await_delete r b

unfoldable pub handle : Event → RecordsTable → RecordsTable
unfolding on_address on_records on_hetzner on_resolved on_refresh on_issue on_poll on_delete
handle (address a) s = on_address a s
handle (record_list _ a) s = on_records a s
handle (hetzner r a) s = on_hetzner r a s
handle (resolved r a) s = on_resolved r a s
handle (refreshed _ a) s = on_refresh a s
handle (issued r a) s = on_issue r a s
handle (timer_fired id attempt) s = wait (await_poll id attempt) s
handle (polled id attempt a) s = on_poll id attempt a s
handle (deleted _ _ a) s = on_delete a s

-- Answers come in any order, between actions of the user.
pub data Step (s : RecordsTable) : RecordsTable → Type 0 where
  user : (a : Action) → Step s (act a s)
  answer :
      (before : List Pending) (e : Event) (after : List Pending)
      → s.pending ≡ before ++ awaited e ∷ after
      → Step s (handle e (record s { pending = before ++ after }))

pub data Run (s : RecordsTable) : RecordsTable → Type 0 where
  here : Run s s
  next : {t u : RecordsTable} → Run s t → Step t u → Run s u
