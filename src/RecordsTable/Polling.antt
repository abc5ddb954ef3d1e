-- ===== src/RecordsTable/Polling.antt =====
-- How often `pollCertificate` asks the server.
pub mod Runs
use hdns.Prelude.{
  ℕ, zero, suc, ◌+◌, ◌-◌, ◌*◌, ◌≤◌, ◌<◌, ◌≡◌, refl, sym, ap, subst, Bool, true, false, Option, none,
  some, List, [], ◌∷◌, ◌++◌, arith, get_or, leb, if◌then◌else◌, Bool-cases, inl, inr, All,
  All-append,
}
use hdns.Model.Messages.{Record}
use hdns.RecordsTable.Purpose.{record_does_ddns}
use hdns.RecordsTable.State.{
  Answer, success, failure, Pending, await_address, await_records, await_hetzner, await_resolved,
  await_refresh, await_issue, poll_timer, await_poll, await_delete, RecordsTable, new_table, wait,
}
use hdns.RecordsTable.Loading.{load_hetzner_ip, load_resolved_ip, load_ips}
use hdns.RecordsTable.Certificates
use hdns.RecordsTable.Certificates.{
  Action, Event, awaited, act, handle, max_attempts, is_text, status_of, poll_certificate, on_poll,
  polled_status, has_left_pending, issue_certificate, do_issue_certificate, Step, Run, here, next,
  user, answer, address, record_list, hetzner, resolved, refreshed, issued, timer_fired, polled,
  deleted,
}

-- The requests that a continuation may still send in its chain of attempts.
abbrev pub remaining : Pending → ℕ
remaining (poll_timer id attempt) = 20 - attempt
remaining (await_poll id attempt) = 20 - (attempt + 1)
remaining _ = 0

abbrev pub budget : List Pending → ℕ
budget [] = 0
budget (p ∷ ps) = remaining p + budget ps

-- An attempt that is under way is below the limit.
abbrev pub InLimit : Pending → Type 0
InLimit (poll_timer id attempt) = attempt < max_attempts
InLimit (await_poll id attempt) = attempt < max_attempts
InLimit _ = Unit

pub budget-append : (xs ys : List Pending) → budget (xs ++ ys) ≡ budget xs + budget ys
budget-append [] ys = omega arith
budget-append (x ∷ xs) ys = omega (arith, budget-append xs ys)

budget-concat : (xs : List Pending) (x : Pending) → budget (xs ++ x ∷ []) ≡ budget xs + remaining x
budget-concat xs x = omega (arith, budget-append xs (x ∷ []))

-- The continuations of a state are in the limit, and have at most `n` requests to send.
pub record Polls (s : RecordsTable) (n : ℕ) : Type 0 where
  pub within : All InLimit s.pending
  pub at_most : budget s.pending ≤ n

pub Polls-wait :
    (p : Pending) (s : RecordsTable) (n : ℕ)
    → Polls s n
    → InLimit p
    → Polls (wait p s) (n + remaining p)
Polls-wait p s n h i = record {
  within = All-append InLimit s.pending (p ∷ []) h.within (i, tt);
  at_most = omega (arith, budget-concat s.pending p, h.at_most);
}

-- A continuation that sends no request.
abbrev pub Quiet : Pending → Type 0
Quiet p = InLimit p × (remaining p ≡ 0)

pub Polls-Quiet :
    (p : Pending) (s : RecordsTable) (n : ℕ) → Polls s n → Quiet p → Polls (wait p s) n
Polls-Quiet p s n h q = record {
  within = All-append InLimit s.pending (p ∷ []) h.within (q.0, tt);
  at_most = omega (arith, budget-concat s.pending p, h.at_most, q.1);
}

pub load_ips-Polls :
    (rs : List Record) (s : RecordsTable) (n : ℕ) → Polls s n → Polls (load_ips rs s) n
unfolding load_ips
load_ips-Polls [] s n h = h
load_ips-Polls (r ∷ rs) s n h = elim (Bool-cases (record_does_ddns r)) [
  | inr e ↦ rw e (load_ips-Polls rs s n h)
  | inl e ↦
      let a = Polls-Quiet (await_hetzner r) s n h (tt, refl) in
      let b =
        Polls-Quiet (await_resolved r) (load_hetzner_ip r s) n
          (record { within = a.within; at_most = a.at_most }) (tt, refl) in
      rw e (
        load_ips-Polls rs (load_resolved_ip r (load_hetzner_ip r s)) n
          (record { within = b.within; at_most = b.at_most }))
]

pub poll-Polls :
    (id attempt : ℕ) (s : RecordsTable) (n : ℕ)
    → Polls s n
    → Polls (poll_certificate id attempt s) (n + (20 - attempt))
unfolding poll_certificate
poll-Polls id attempt s n h = elim (Bool-cases (leb 20 attempt)) [
  | inl e ↦ rw e (record { within = h.within; at_most = omega (arith, h.at_most) })
  | inr e ↦ rw e (Polls-wait (poll_timer id attempt) s n h (ground arith))
]
