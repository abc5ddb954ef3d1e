-- ===== src/RecordsTable/Spinners/Steps.antt =====
-- Every action and every answer keeps a continuation for each spinner that turns.
use hdns.Prelude.{
  ℕ, ◌≡◌, refl, ◌==◌, true, false, none, some, List, [], ◌∷◌, ◌++◌, arith, Bool-cases, inl, inr,
  leb,
}
use hdns.Prelude.IdSet
use hdns.Prelude.IdSet.{has}
use hdns.Model.Messages.{Record}
use hdns.RecordsTable.Purpose.{record_does_ddns}
use hdns.RecordsTable.State.{
  Pending, await_hetzner, await_resolved, await_issue, await_address, await_records, await_refresh,
  await_delete, poll_timer, RecordsTable, Notice, renew_dialog, delete_dialog, overview, wait, show,
}
use hdns.RecordsTable.Loading.{load_hetzner_ip, load_resolved_ip, load_ips}
use hdns.RecordsTable.Certificates
use hdns.RecordsTable.Certificates.{
  Action, Event, awaited, act, handle, do_issue_certificate, issue_certificate, status_of, is_text,
  poll_certificate, on_poll, on_issue, Step, Run, here, next, user, answer,
}
use hdns.RecordsTable.Spinners.{
  IsServed, hetzner_for, resolved_for, issue_for, Served-wait, Served-add, Served-other,
  Served-delete,
}

pub wait-IsServed : (p : Pending) (s : RecordsTable) → IsServed s → IsServed (wait p s)
wait-IsServed p s h = record {
  hetzner = Served-wait hetzner_for s.loading_hetzner s.pending p h.hetzner;
  resolved = Served-wait resolved_for s.loading_resolved s.pending p h.resolved;
  issue = Served-wait issue_for s.issuing s.pending p h.issue;
}

self_id : (i : ℕ) → (i == i) ≡ true
self_id i = ground arith

load_hetzner_ip-IsServed :
    (r : Record) (s : RecordsTable) → IsServed s → IsServed (load_hetzner_ip r s)
unfolding load_hetzner_ip
load_hetzner_ip-IsServed r s h = record {
  hetzner =
      Served-add hetzner_for s.loading_hetzner s.pending (await_hetzner r) r.id (self_id r.id)
        h.hetzner;
  resolved = Served-wait resolved_for s.loading_resolved s.pending (await_hetzner r) h.resolved;
  issue = Served-wait issue_for s.issuing s.pending (await_hetzner r) h.issue;
}

load_resolved_ip-IsServed :
    (r : Record) (s : RecordsTable) → IsServed s → IsServed (load_resolved_ip r s)
unfolding load_resolved_ip
load_resolved_ip-IsServed r s h = record {
  hetzner = Served-wait hetzner_for s.loading_hetzner s.pending (await_resolved r) h.hetzner;
  resolved =
      Served-add resolved_for s.loading_resolved s.pending (await_resolved r) r.id (self_id r.id)
        h.resolved;
  issue = Served-wait issue_for s.issuing s.pending (await_resolved r) h.issue;
}

do_issue-IsServed :
    (r : Record) (s : RecordsTable) → IsServed s → IsServed (do_issue_certificate r s)
unfolding do_issue_certificate
do_issue-IsServed r s h = record {
  hetzner = Served-wait hetzner_for s.loading_hetzner s.pending (await_issue r) h.hetzner;
  resolved = Served-wait resolved_for s.loading_resolved s.pending (await_issue r) h.resolved;
  issue = Served-add issue_for s.issuing s.pending (await_issue r) r.id (self_id r.id) h.issue;
}

pub load_ips-IsServed :
    (rs : List Record) (s : RecordsTable) → IsServed s → IsServed (load_ips rs s)
unfolding load_ips
load_ips-IsServed [] s h = h
load_ips-IsServed (r ∷ rs) s h = elim (Bool-cases (record_does_ddns r)) [
  | inl e ↦ rw e (
      load_ips-IsServed rs (load_resolved_ip r (load_hetzner_ip r s))
        (load_resolved_ip-IsServed r (load_hetzner_ip r s) (load_hetzner_ip-IsServed r s h)))
  | inr e ↦ rw e (load_ips-IsServed rs s h)
]

pub poll-IsServed :
    (id attempt : ℕ) (s : RecordsTable) → IsServed s → IsServed (poll_certificate id attempt s)
unfolding poll_certificate
poll-IsServed id attempt s h = elim (Bool-cases (leb 20 attempt)) [
  | inl e ↦ rw e h
  | inr e ↦ rw e (wait-IsServed (poll_timer id attempt) s h)
]

pub show-IsServed : (n : Notice) (s : RecordsTable) → IsServed s → IsServed (show n s)
show-IsServed n s h = record { hetzner = h.hetzner; resolved = h.resolved; issue = h.issue }

issue-IsServed : (r : Record) (s : RecordsTable) → IsServed s → IsServed (issue_certificate r s)
unfolding issue_certificate
issue-IsServed r s h = elim (Bool-cases (is_text (status_of r.certificate) "valid")) [
  | inl e ↦ rw e (show-IsServed (renew_dialog r) s h)
  | inr e ↦ rw e (do_issue-IsServed r s h)
]

pub act-IsServed : (a : Action) (s : RecordsTable) → IsServed s → IsServed (act a s)
unfolding act
act-IsServed Certificates.open_page s h =
    wait-IsServed (await_records none) (wait await_address s) (wait-IsServed await_address s h)
act-IsServed (Certificates.search term) s h =
    wait-IsServed (await_records (some term)) (record s { search_term = term })
      (record { hetzner = h.hetzner; resolved = h.resolved; issue = h.issue })
act-IsServed (Certificates.refresh r) s h = wait-IsServed (await_refresh r) s h
act-IsServed (Certificates.issue r) s h = issue-IsServed r s h
act-IsServed (Certificates.confirm_issue r) s h = do_issue-IsServed r s h
act-IsServed (Certificates.delete r) s h = show-IsServed (delete_dialog r) s h
act-IsServed (Certificates.open_overview r) s h = show-IsServed (overview r.id) s h
act-IsServed (Certificates.confirm_delete r b) s h = wait-IsServed (await_delete r b) s h

-- The state in which the handler of a continuation starts: it is no longer in `pending`.
abbrev pub resume : List Pending → List Pending → RecordsTable → RecordsTable
resume before after s = record s { pending = before ++ after }

-- A continuation that serves no spinner can go.
abbrev pub NoSpinner : Pending → Type 0
NoSpinner x =
    ((i : ℕ) → hetzner_for i x ≡ false)
    × ((i : ℕ) → resolved_for i x ≡ false)
    × ((i : ℕ) → issue_for i x ≡ false)

module _ (s : RecordsTable) (before after : List Pending) where
  pub resume-IsServed :
      (x : Pending)
      → NoSpinner x
      → IsServed (record s { pending = before ++ x ∷ after })
      → IsServed (resume before after s)
  resume-IsServed x n h = record {
    hetzner = Served-other hetzner_for s.loading_hetzner before x after n.0 h.hetzner;
    resolved = Served-other resolved_for s.loading_resolved before x after n.1 h.resolved;
    issue = Served-other issue_for s.issuing before x after n.2 h.issue;
  }

  pub hetzner-IsServed :
      (r : Record)
      → IsServed (record s { pending = before ++ await_hetzner r ∷ after })
      → IsServed
          (record (resume before after s) { loading_hetzner = IdSet.delete s.loading_hetzner r.id })
  hetzner-IsServed r h = record {
    hetzner =
        Served-delete hetzner_for s.loading_hetzner before (await_hetzner r) after r.id (λ j. refl)
          h.hetzner;
    resolved =
        Served-other resolved_for s.loading_resolved before (await_hetzner r) after (λ i. refl)
          h.resolved;
    issue = Served-other issue_for s.issuing before (await_hetzner r) after (λ i. refl) h.issue;
  }

  pub resolved-IsServed :
      (r : Record)
      → IsServed (record s { pending = before ++ await_resolved r ∷ after })
      → IsServed (record (resume before after s) {
        loading_resolved = IdSet.delete s.loading_resolved r.id;
      })
  resolved-IsServed r h = record {
    hetzner =
        Served-other hetzner_for s.loading_hetzner before (await_resolved r) after (λ i. refl)
          h.hetzner;
    resolved =
        Served-delete resolved_for s.loading_resolved before (await_resolved r) after r.id
          (λ j. refl) h.resolved;
    issue = Served-other issue_for s.issuing before (await_resolved r) after (λ i. refl) h.issue;
  }

  pub issued-IsServed :
      (r : Record)
      → IsServed (record s { pending = before ++ await_issue r ∷ after })
      → IsServed (record (resume before after s) { issuing = IdSet.delete s.issuing r.id })
  issued-IsServed r h = record {
    hetzner =
        Served-other hetzner_for s.loading_hetzner before (await_issue r) after (λ i. refl)
          h.hetzner;
    resolved =
        Served-other resolved_for s.loading_resolved before (await_issue r) after (λ i. refl)
          h.resolved;
    issue = Served-delete issue_for s.issuing before (await_issue r) after r.id (λ j. refl) h.issue;
  }
