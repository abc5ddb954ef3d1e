-- ===== src/RecordsTable/Polling/Runs.antt =====
-- The poll requests of a whole run.
use hdns.Prelude.{
  ℕ, ◌+◌, ◌-◌, ◌*◌, ◌≤◌, ◌≡◌, refl, sym, subst, Option, none, some, List, [], ◌∷◌, ◌++◌, arith,
  get_or, Bool-cases, inl, inr, All,
}
use hdns.Model.Messages.{Record}
use hdns.RecordsTable.State.{
  Answer, success, failure, Pending, await_address, await_records, await_hetzner, await_resolved,
  await_refresh, await_issue, poll_timer, await_poll, await_delete, RecordsTable, new_table, wait,
}
use hdns.RecordsTable.Certificates
use hdns.RecordsTable.Certificates.{
  Action, Event, awaited, act, handle, max_attempts, is_text, status_of, poll_certificate, on_poll,
  polled_status, has_left_pending, issue_certificate, Step, Run, here, next, user, answer, address,
  record_list, hetzner, resolved, refreshed, issued, timer_fired, polled, deleted,
}
use hdns.RecordsTable.Polling.{
  remaining, budget, InLimit, Polls, Polls-Quiet, Polls-wait, load_ips-Polls, poll-Polls,
  budget-append,
}

issue-Polls : (r : Record) (s : RecordsTable) (n : ℕ) → Polls s n → Polls (issue_certificate r s) n
unfolding issue_certificate
issue-Polls r s n h = elim (Bool-cases (is_text (status_of r.certificate) "valid")) [
  | inl e ↦ rw e (record { within = h.within; at_most = h.at_most })
  | inr e ↦
      let k = Polls-Quiet (await_issue r) s n h (tt, refl) in
      rw e (record { within = k.within; at_most = k.at_most })
]

act-Polls : (a : Action) (s : RecordsTable) (n : ℕ) → Polls s n → Polls (act a s) n
unfolding act
act-Polls Certificates.open_page s n h =
    Polls-Quiet (await_records none) (wait await_address s) n
      (Polls-Quiet await_address s n h (tt, refl)) (tt, refl)
act-Polls (Certificates.search term) s n h =
    Polls-Quiet (await_records (some term)) (record s { search_term = term }) n
      (record { within = h.within; at_most = h.at_most }) (tt, refl)
act-Polls (Certificates.refresh r) s n h = Polls-Quiet (await_refresh r) s n h (tt, refl)
act-Polls (Certificates.issue r) s n h = issue-Polls r s n h
act-Polls (Certificates.confirm_issue r) s n h =
    let k = Polls-Quiet (await_issue r) s n h (tt, refl) in
    record { within = k.within; at_most = k.at_most }
act-Polls (Certificates.delete r) s n h = record { within = h.within; at_most = h.at_most }
act-Polls (Certificates.open_overview r) s n h = record { within = h.within; at_most = h.at_most }
act-Polls (Certificates.confirm_delete r b) s n h = Polls-Quiet (await_delete r b) s n h (tt, refl)

-- The requests of the polling that an event sends, and the successful issuances that it reports.
abbrev pub requests : Event → ℕ
requests (timer_fired id attempt) = 1
requests _ = 0

abbrev pub issuances : Event → ℕ
issuances (issued r (success u)) = 1
issuances _ = 0

All-middle :
    (xs : List Pending) (y : Pending) (zs : List Pending)
    → All InLimit (xs ++ y ∷ zs)
    → InLimit y × All InLimit (xs ++ zs)
All-middle [] y zs h = h
All-middle (x ∷ xs) y zs (p, h) = let (i, k) = All-middle xs y zs h in (i, (p, k))

module _ (s : RecordsTable) (before after : List Pending) (n : ℕ) where
  resume-Polls :
      (x : Pending)
      → Polls (record s { pending = before ++ x ∷ after }) n
      → InLimit x
        × (remaining x ≤ n)
        × Polls (record s { pending = before ++ after }) (n - remaining x)
  resume-Polls x h =
      let (i, k) = All-middle before x after h.within in
      let a = budget-append before (x ∷ after) in
      let b = budget-append before after in
      (
        i,
        omega (arith, a, h.at_most),
        record { within = k; at_most = omega (arith, a, b, h.at_most) },
      )

  resume_quiet :
      (x : Pending)
      → remaining x ≡ 0
      → Polls (record s { pending = before ++ x ∷ after }) n
      → Polls (record s { pending = before ++ after }) n
  resume_quiet x q h =
      let (_, _, k) = resume-Polls x h in
      record { within = k.within; at_most = omega (arith, k.at_most) }

  -- The handler of a quiet continuation that awaits nothing more.
  quiet_event :
      (x : Pending)
      → remaining x ≡ 0
      → Polls (record s { pending = before ++ x ∷ after }) n
      → (t : RecordsTable) → t.pending ≡ before ++ after
      → (m : ℕ) × (0 + m ≡ n + 0) × Polls t m
  quiet_event x q h t e =
      let k = resume_quiet x q h in
      (
        n,
        omega arith,
        record {
          within = subst (All InLimit) (sym e) k.within;
          at_most = subst (λ ps. budget ps ≤ n) (sym e) k.at_most;
        },
      )

on_poll-Polls :
    (id attempt : ℕ) (a : Answer (Option (List Record))) (s : RecordsTable) (n : ℕ)
    → Polls s n
    → Polls (on_poll id attempt a s) (n + (20 - (attempt + 1)))
unfolding on_poll
on_poll-Polls id attempt (failure e) s n h = poll-Polls id (attempt + 1) s n h
on_poll-Polls id attempt (success res) s n h =
    elim (Bool-cases (has_left_pending (polled_status id (get_or res [])))) [
      | inr e ↦ rw e (
          poll-Polls id (attempt + 1) (record s { records = get_or res [] }) n
            (record { within = h.within; at_most = h.at_most }))
      | inl e ↦ elim (Bool-cases (is_text (polled_status id (get_or res [])) "valid")) [
        | inl v ↦ rw (e, v) (record { within = h.within; at_most = omega (arith, h.at_most) })
        | inr v ↦ rw (e, v) (record { within = h.within; at_most = omega (arith, h.at_most) })
      ]
    ]

-- What an event does to the requests that are left.
abbrev Spends : Event → RecordsTable → ℕ → Type 0
Spends e t n = (m : ℕ) × (requests e + m ≡ n + 20 * issuances e) × Polls t m

handle-Polls :
    (e : Event) (s : RecordsTable) (before after : List Pending) (n : ℕ)
    → Polls (record s { pending = before ++ awaited e ∷ after }) n
    → Spends e (handle e (record s { pending = before ++ after })) n
unfolding handle
handle-Polls (address (success a)) s before after n h =
    quiet_event s before after n await_address refl h _ refl
handle-Polls (address (failure x)) s before after n h =
    quiet_event s before after n await_address refl h _ refl
handle-Polls (record_list t (success res)) s before after n h =
    let k = resume_quiet s before after n (await_records t) refl h in
    (
      n,
      omega arith,
      load_ips-Polls (get_or res []) _ n (record { within = k.within; at_most = k.at_most }),
    )
handle-Polls (record_list t (failure x)) s before after n h =
    quiet_event s before after n (await_records t) refl h _ refl
handle-Polls (hetzner r (success a)) s before after n h =
    quiet_event s before after n (await_hetzner r) refl h _ refl
handle-Polls (hetzner r (failure x)) s before after n h =
    quiet_event s before after n (await_hetzner r) refl h _ refl
handle-Polls (resolved r (success a)) s before after n h =
    quiet_event s before after n (await_resolved r) refl h _ refl
handle-Polls (resolved r (failure x)) s before after n h =
    quiet_event s before after n (await_resolved r) refl h _ refl
handle-Polls (refreshed r (success u)) s before after n h =
    let k = resume_quiet s before after n (await_refresh r) refl h in
    let a = Polls-Quiet await_address _ n k (tt, refl) in
    let b = Polls-Quiet (await_records none) _ n a (tt, refl) in
    (n, omega arith, record { within = b.within; at_most = b.at_most })
handle-Polls (refreshed r (failure x)) s before after n h =
    quiet_event s before after n (await_refresh r) refl h _ refl
handle-Polls (issued r (success u)) s before after n h =
    let k = resume_quiet s before after n (await_issue r) refl h in
    let a = Polls-Quiet (await_records none) _ n k (tt, refl) in
    let b = Polls-wait (poll_timer r.id 0) _ n a (omega arith) in
    (n + 20, omega arith, record { within = b.within; at_most = b.at_most })
handle-Polls (issued r (failure x)) s before after n h =
    quiet_event s before after n (await_issue r) refl h _ refl
handle-Polls (timer_fired id attempt) s before after n h =
    let (i, le, k) = resume-Polls s before after n (poll_timer id attempt) h in
    let w = Polls-wait (await_poll id attempt) _ (n - (20 - attempt)) k i in
    (n - 1, omega arith, record { within = w.within; at_most = omega (arith, w.at_most) })
handle-Polls (polled id attempt a) s before after n h =
    let (i, le, k) = resume-Polls s before after n (await_poll id attempt) h in
    let w = on_poll-Polls id attempt a _ (n - (20 - (attempt + 1))) k in
    (n, omega arith, record { within = w.within; at_most = omega (arith, w.at_most) })
handle-Polls (deleted r b (success u)) s before after n h =
    let k = resume_quiet s before after n (await_delete r b) refl h in
    let a = Polls-Quiet (await_records none) _ n k (tt, refl) in
    (n, omega arith, record { within = a.within; at_most = a.at_most })
handle-Polls (deleted r b (failure x)) s before after n h =
    quiet_event s before after n (await_delete r b) refl h _ refl

-- The poll requests of a run, and its successful issuances.
pub count_requests : {s t : RecordsTable} → Run s t → ℕ
count_requests here = 0
count_requests (next r (user a)) = count_requests r
count_requests (next r (answer before e after p)) = count_requests r + requests e

pub count_issuances : {s t : RecordsTable} → Run s t → ℕ
count_issuances here = 0
count_issuances (next r (user a)) = count_issuances r
count_issuances (next r (answer before e after p)) = count_issuances r + issuances e

-- The requests that are left after a run.
abbrev Left : ℕ → ℕ → RecordsTable → Type 0
Left sent granted t = (m : ℕ) × (sent + m ≡ 20 * granted) × Polls t m

Run-Left : {t : RecordsTable} (r : Run new_table t) → Left (count_requests r) (count_issuances r) t
unfolding count_requests count_issuances
Run-Left here = (0, omega arith, record { within = tt; at_most = omega arith })
Run-Left (next {t} r (user a)) = let (m, e, k) = Run-Left r in (m, e, act-Polls a t m k)
Run-Left (next {t} r (answer before ev after p)) =
    let (m, e, k) = Run-Left r in
    let k' : Polls (record t { pending = before ++ awaited ev ∷ after }) m = record {
      within = subst (All InLimit) p k.within;
      at_most = subst (λ ps. budget ps ≤ m) p k.at_most;
    } in
    let (m', e', l) = handle-Polls ev t before after m k' in (m', omega arith, l)

-- Whatever the user does and however the server answers, the polling for certificates sends at most
-- 20 requests for each issuance that was started.
pub polls_bounded :
    {t : RecordsTable} (r : Run new_table t) → count_requests r ≤ 20 * count_issuances r
polls_bounded r = let (m, e, k) = Run-Left r in omega arith
