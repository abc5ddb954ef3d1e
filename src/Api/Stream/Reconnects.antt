-- ===== src/Api/Stream/Reconnects.antt =====
-- A stream that may retry without end goes on in all runs.
use hdns.Prelude.{
  ℕ, suc, ◌+◌, ◌<◌, ◌≡◌, refl, Bool, true, false, none, [], ◌∷◌, ◌++◌, if_cases, arith,
}
use hdns.Api.{retry_delay, backoff}
use hdns.Api.Stream.{closed_with, connect, finalize, on_open, on_close, send, close}
use hdns.Api.Stream.Runs.{
  Settings, Phase, idle, live, waiting, over, Pipe, start_source, subscribe_source, end_source,
  on_failure, on_completion, kill, close_pipe, leave_pipe, on_next, Run, start, subscribes, opens,
  reports, hears, fails, completes, elapses, sends, closes, leaves,
}

-- A stream by its phase, and whether it was closed: it is over only where it was closed, and a timer is
-- shorter than `limit`.
pub data Alive (limit : ℕ) : Phase → Bool → Type 0 where
  alive_idle : {completed : Bool} → Alive limit idle completed
  alive_live : {i : ℕ} {completed : Bool} → Alive limit (live i) completed
  alive_waiting : {d : ℕ} {completed : Bool} → d < limit → Alive limit (waiting d) completed
  alive_over : Alive limit over true

abbrev limit : Settings → ℕ
limit settings = settings.delays.max_backoff_ms + 300

abbrev IsAlive : {A : Type 0} → Settings → Pipe A → Type 0
IsAlive settings p = Alive (limit settings) p.phase p.stream.completed

delay_below :
    (settings : Settings) (n random : ℕ)
    → random < 300
    → retry_delay settings.delays n random < limit settings
unfolding retry_delay backoff
delay_below settings n random h = omega arith

module _ {A : Type 0} where
  abbrev pipe : Phase → Bool → Pipe A → Pipe A
  pipe phase completed p = record p {
    stream = record p.stream { completed = completed };
    phase = phase;
  }

  close-IsAlive :
      (settings : Settings) (phase : Phase) (completed : Bool) (p : Pipe A)
      → Alive (limit settings) phase completed
      → IsAlive settings (close_pipe (pipe phase completed p))
  unfolding close_pipe kill close end_source finalize
  close-IsAlive settings _ true p alive_idle = alive_idle
  close-IsAlive settings _ false p alive_idle = alive_idle
  close-IsAlive settings _ true p alive_live = alive_over
  close-IsAlive settings _ false p alive_live = alive_over
  close-IsAlive settings _ true p (alive_waiting k) = alive_over
  close-IsAlive settings _ false p (alive_waiting k) = alive_over
  close-IsAlive settings _ _ p alive_over = alive_over

  leave_pipe-IsAlive :
      (settings : Settings) (phase : Phase) (completed : Bool) (p : Pipe A)
      → Alive (limit settings) phase completed
      → IsAlive settings (leave_pipe (pipe phase completed p))
  unfolding leave_pipe end_source finalize
  leave_pipe-IsAlive settings _ completed p alive_idle = alive_idle
  leave_pipe-IsAlive settings _ completed p alive_live = alive_idle
  leave_pipe-IsAlive settings _ completed p (alive_waiting k) = alive_idle
  leave_pipe-IsAlive settings _ _ p alive_over = alive_over

  on_open-IsAlive :
      (settings : Settings) (p : Pipe A)
      → IsAlive settings p
      → IsAlive settings (record p { stream = on_open p.stream })
  unfolding on_open
  on_open-IsAlive settings p h =
      let s = p.stream in
      if_cases (λ t. IsAlive settings (record p { stream = t })) s.completed s
        (record s { connects = suc s.connects }) (λ e. h) (λ e. h)

  on_close-IsAlive :
      (settings : Settings) (code : ℕ) (p : Pipe A)
      → IsAlive settings p
      → IsAlive settings (record p { stream = on_close code p.stream })
  unfolding on_close
  on_close-IsAlive settings code p h =
      let s = p.stream in
      if_cases (λ t. IsAlive settings (record p { stream = t })) s.completed s
        (record s { terminations = s.terminations ++ closed_with code ∷ [] }) (λ e. h) (λ e. h)

module _ {A : Type 0} (settings : Settings) (again : settings.reconnect ≡ true)
    (endless : settings.max_retries ≡ none) where
  subscribe_source-IsAlive : (p : Pipe A) → IsAlive settings (subscribe_source settings p)
  unfolding subscribe_source start_source connect
  subscribe_source-IsAlive p = rw (again, endless) alive_live

  on_failure-IsAlive :
      (i random : ℕ) (p : Pipe A) → random < 300 → IsAlive settings (on_failure settings random i p)
  unfolding on_failure end_source finalize
  on_failure-IsAlive i random p h =
      rw (again, endless) (alive_waiting (delay_below settings (suc p.failures) random h))

  on_completion-IsAlive :
      (i random : ℕ) (p : Pipe A)
      → random < 300
      → IsAlive settings (on_completion settings random i p)
  unfolding on_completion end_source finalize
  on_completion-IsAlive i random p h =
      rw (again, endless) (alive_waiting (delay_below settings (suc p.completions) random h))

  Run-IsAlive : (p : Pipe A) → Run settings p → IsAlive settings p
  unfolding on_next send start_source connect
  Run-IsAlive _ start = alive_idle
  Run-IsAlive _ (subscribes {p = p} r e c) = subscribe_source-IsAlive p
  Run-IsAlive _ (opens {p = p} r) = on_open-IsAlive settings p (Run-IsAlive p r)
  Run-IsAlive _ (reports {p = p} code r) = on_close-IsAlive settings code p (Run-IsAlive p r)
  Run-IsAlive _ (hears {p = p} r) = Run-IsAlive p r
  Run-IsAlive _ (fails {p = p} i random r e k) = on_failure-IsAlive i random p k
  Run-IsAlive _ (completes {p = p} i random r e k) = on_completion-IsAlive i random p k
  Run-IsAlive _ (elapses {p = p} d r e) = alive_live
  Run-IsAlive _ (sends {p = p} msg r) = Run-IsAlive p r
  Run-IsAlive _ (closes {p = p} r) =
      close-IsAlive settings p.phase p.stream.completed p (Run-IsAlive p r)
  Run-IsAlive _ (leaves {p = p} r) =
      leave_pipe-IsAlive settings p.phase p.stream.completed p (Run-IsAlive p r)

-- The stream goes on: it has a socket, or it waits for no longer than the cap and the jitter, and then makes
-- a socket; or nobody has subscribed, or the client has closed it.
pub data GoesOn {A : Type 0} (settings : Settings) (p : Pipe A) : Type 0 where
  unsubscribed : p.phase ≡ idle → GoesOn settings p
  connected : (i : ℕ) → p.phase ≡ live i → GoesOn settings p
  reconnects :
      (d : ℕ)
      → p.phase ≡ waiting d
      → d < settings.delays.max_backoff_ms + 300
      → (start_source p).phase ≡ live p.stream.made
      → GoesOn settings p
  closed : p.stream.completed ≡ true → GoesOn settings p

GoesOn_of :
    {A : Type 0} (settings : Settings) (phase : Phase) (completed : Bool) (p : Pipe A)
    → Alive (limit settings) phase completed
    → p.phase ≡ phase
    → p.stream.completed ≡ completed
    → GoesOn settings p
unfolding start_source
GoesOn_of settings _ completed p alive_idle e c = unsubscribed e
GoesOn_of settings _ completed p (alive_live {i = i}) e c = connected i e
GoesOn_of settings _ completed p (alive_waiting {d = d} k) e c = reconnects d e k refl
GoesOn_of settings _ _ p alive_over e c = closed c

-- A stream that reconnects without a bound goes on in every run: it has a socket; or a timer of less than
-- `maxBackoffMs` and 300 ms runs, at whose end it makes a new socket; or nobody has subscribed, or the
-- client has closed it.
pub Run-GoesOn :
    {A : Type 0} (settings : Settings) (p : Pipe A)
    → settings.reconnect ≡ true
    → settings.max_retries ≡ none
    → Run settings p
    → GoesOn settings p
Run-GoesOn settings p again endless r =
    GoesOn_of settings p.phase p.stream.completed p (Run-IsAlive settings again endless p r) refl
      refl
