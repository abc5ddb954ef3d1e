-- ===== src/RecordsTable/Spinners/Runs.antt =====
-- No spinner of the table turns for ever.
use hdns.Prelude.{
  ℕ, ◌+◌, ◌≡◌, refl, subst, Bool, true, false, Option, none, List, [], ◌∷◌, ◌++◌, get_or,
  Bool-cases, inl, inr,
}
use mathlib.Core.Bool.{false≢true}
use hdns.Prelude.IdSet.{has}
use hdns.Model.Messages.{Record}
use hdns.RecordsTable.State.{
  Answer, success, failure, Pending, await_address, await_records, await_refresh, await_delete,
  poll_timer, await_poll, RecordsTable, message, error, new_table,
}
use hdns.RecordsTable.Certificates.{
  Event, awaited, handle, polled_status, has_left_pending, is_text, on_poll, Step, Run, here, next,
  user, answer, address, record_list, hetzner, resolved, refreshed, issued, timer_fired, polled,
  deleted,
}
use hdns.RecordsTable.Spinners.{IsServed, Served, hetzner_for, resolved_for, issue_for}
use hdns.RecordsTable.Spinners.Steps.{
  resume, resume-IsServed, hetzner-IsServed, resolved-IsServed, issued-IsServed, wait-IsServed,
  load_ips-IsServed, poll-IsServed, show-IsServed, act-IsServed,
}

absurd_bool {ℓ} : {A : Type ℓ} → false ≡ true → A
absurd_bool e = absurd (false≢true e)

-- The same state but for what no spinner depends on.
abbrev relist : List Record → RecordsTable → RecordsTable
relist records s = record s { records = records }

relist-IsServed :
    (records : List Record) (s : RecordsTable) → IsServed s → IsServed (relist records s)
relist-IsServed records s h = record { hetzner = h.hetzner; resolved = h.resolved; issue = h.issue }

on_poll-IsServed :
    (id attempt : ℕ) (a : Answer (Option (List Record))) (s : RecordsTable)
    → IsServed s
    → IsServed (on_poll id attempt a s)
unfolding on_poll
on_poll-IsServed id attempt (failure e) s h = poll-IsServed id (attempt + 1) s h
on_poll-IsServed id attempt (success res) s h =
    let t = relist (get_or res []) s in
    let ht = relist-IsServed (get_or res []) s h in
    elim (Bool-cases (has_left_pending (polled_status id (get_or res [])))) [
      | inr e ↦ rw e (poll-IsServed id (attempt + 1) t ht)
      | inl e ↦ elim (Bool-cases (is_text (polled_status id (get_or res [])) "valid")) [
        | inl v ↦ rw (e, v) (show-IsServed (message "Certificate issued.") t ht)
        | inr v ↦ rw (e, v) ht
      ]
    ]

handle-IsServed :
    (e : Event) (s : RecordsTable) (before after : List Pending)
    → IsServed (record s { pending = before ++ awaited e ∷ after })
    → IsServed (handle e (resume before after s))
unfolding handle
handle-IsServed (address (success addr)) s before after h =
    let k = resume-IsServed s before after await_address (λ i. refl, λ i. refl, λ i. refl) h in
    record { hetzner = k.hetzner; resolved = k.resolved; issue = k.issue }
handle-IsServed (address (failure x)) s before after h =
    let k = resume-IsServed s before after await_address (λ i. refl, λ i. refl, λ i. refl) h in
    record { hetzner = k.hetzner; resolved = k.resolved; issue = k.issue }
handle-IsServed (record_list t (success res)) s before after h =
    let k = resume-IsServed s before after (await_records t) (λ i. refl, λ i. refl, λ i. refl) h in
    load_ips-IsServed (get_or res []) _
      (record { hetzner = k.hetzner; resolved = k.resolved; issue = k.issue })
handle-IsServed (record_list t (failure x)) s before after h =
    show-IsServed (error x "Failed to load records") _
      (resume-IsServed s before after (await_records t) (λ i. refl, λ i. refl, λ i. refl) h)
handle-IsServed (hetzner r (success addr)) s before after h =
    let k = hetzner-IsServed s before after r h in
    record { hetzner = k.hetzner; resolved = k.resolved; issue = k.issue }
handle-IsServed (hetzner r (failure x)) s before after h = hetzner-IsServed s before after r h
handle-IsServed (resolved r (success res)) s before after h =
    let k = resolved-IsServed s before after r h in
    record { hetzner = k.hetzner; resolved = k.resolved; issue = k.issue }
handle-IsServed (resolved r (failure x)) s before after h = resolved-IsServed s before after r h
handle-IsServed (refreshed r (success u)) s before after h =
    let k = resume-IsServed s before after (await_refresh r) (λ i. refl, λ i. refl, λ i. refl) h in
    wait-IsServed (await_records none) _
      (wait-IsServed await_address _ (show-IsServed (message "Record refreshed.") _ k))
handle-IsServed (refreshed r (failure x)) s before after h =
    show-IsServed (error x "Refresh failed") _
      (resume-IsServed s before after (await_refresh r) (λ i. refl, λ i. refl, λ i. refl) h)
handle-IsServed (issued r (success u)) s before after h =
    let k = issued-IsServed s before after r h in
    poll-IsServed r.id 0 _ (
      wait-IsServed (await_records none) _
        (show-IsServed (message "Certificate issuance started. This may take a moment…") _ k))
handle-IsServed (issued r (failure x)) s before after h =
    show-IsServed (error x "Certificate issuance failed") _ (issued-IsServed s before after r h)
handle-IsServed (timer_fired id attempt) s before after h =
    wait-IsServed (await_poll id attempt) _
      (resume-IsServed s before after (poll_timer id attempt) (λ i. refl, λ i. refl, λ i. refl) h)
handle-IsServed (polled id attempt a) s before after h =
    on_poll-IsServed id attempt a _
      (resume-IsServed s before after (await_poll id attempt) (λ i. refl, λ i. refl, λ i. refl) h)
handle-IsServed (deleted r b (success u)) s before after h =
    let k = resume-IsServed s before after (await_delete r b) (λ i. refl, λ i. refl, λ i. refl) h in
    wait-IsServed (await_records none) _ (show-IsServed (message "Record deleted.") _ k)
handle-IsServed (deleted r b (failure x)) s before after h =
    show-IsServed (error x "Delete failed") _
      (resume-IsServed s before after (await_delete r b) (λ i. refl, λ i. refl, λ i. refl) h)

with_pending :
    (s : RecordsTable) (ps : List Pending)
    → s.pending ≡ ps
    → IsServed s
    → IsServed (record s { pending = ps })
with_pending s ps e h = record {
  hetzner = subst (Served hetzner_for s.loading_hetzner) e h.hetzner;
  resolved = subst (Served resolved_for s.loading_resolved) e h.resolved;
  issue = subst (Served issue_for s.issuing) e h.issue;
}

Step-IsServed : {s t : RecordsTable} → Step s t → IsServed s → IsServed t
Step-IsServed {s} (user a) h = act-IsServed a s h
Step-IsServed {s} (answer before e after p) h =
    handle-IsServed e s before after (with_pending s (before ++ awaited e ∷ after) p h)

Run-IsServed : {s : RecordsTable} → Run new_table s → IsServed s
unfolding has
Run-IsServed here = record {
  hetzner = λ i m. absurd_bool m;
  resolved = λ i m. absurd_bool m;
  issue = λ i m. absurd_bool m;
}
Run-IsServed (next r st) = Step-IsServed st (Run-IsServed r)

idle_set :
    (p : ℕ → Pending → Bool) (set : List ℕ) (pending : List Pending)
    → Served p set pending
    → pending ≡ []
    → (i : ℕ) → has set i ≡ false
idle_set p set [] h e i = elim (Bool-cases (has set i)) [ inl m ↦ absurd_bool (h i m) | inr m ↦ m ]
idle_set p set (x ∷ pending) h e i = cc

-- Whatever the user does, and in whatever order the answers come and the timers fire, when nothing
-- is awaited any more no spinner turns: no id is left in the three sets.
pub idle-no_spinner :
    {s : RecordsTable}
    → Run new_table s
    → s.pending ≡ []
    → (i : ℕ)
    → (has s.loading_hetzner i ≡ false)
      × (has s.loading_resolved i ≡ false)
      × (has s.issuing i ≡ false)
idle-no_spinner {s} r e i =
    let h = Run-IsServed r in
    (
      idle_set hetzner_for s.loading_hetzner s.pending h.hetzner e i,
      idle_set resolved_for s.loading_resolved s.pending h.resolved e i,
      idle_set issue_for s.issuing s.pending h.issue e i,
    )
