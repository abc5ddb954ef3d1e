-- ===== src/Api/Stream/Sockets.antt =====
-- What a stream holds in all runs.
use hdns.Prelude.{
  ℕ, suc, ◌≡◌, refl, Bool, true, false, ◌&&◌, Option, List, [], ◌∷◌, ◌++◌, if_cases, arith,
}
use hdns.Prelude.IdSet.{delete}
use hdns.Api.{retry_delay}
use hdns.Api.Stream.{closed_with, connect, finalize, on_open, on_close, send, close}
use hdns.Api.Stream.Runs.{
  Settings, Phase, idle, live, waiting, Pipe, may_retry, may_repeat, never_starts, start_source,
  subscribe_source, end_source, complete_pipe, reset, on_failure, on_completion, kill, close_pipe,
  leave_pipe, on_next, Run, start, subscribes, opens, reports, hears, fails, completes, elapses,
  sends, closes, leaves,
}
use hdns.Api.Stream.Held.{
  Held, held_idle, held_live, held_waiting, held_over, Holds, Ended, ==_self, is_free, start-Held,
  idle-Held, waiting-open, live-Ended,
}

module _ {A : Type 0} where
  end-Ended :
      (p : Pipe A) (i : ℕ)
      → Holds p
      → p.phase ≡ live i
      → Ended i p.stream.feeding p.sockets p.stream.completed
  end-Ended p i h e =
      live-Ended p.phase p.stream.current_ws p.stream.feeding p.sockets p.stream.completed i h
        (rw e (ground arith))

  start_source-Holds :
      (p : Pipe A)
      → Holds p
      → is_free p.phase ≡ true
      → p.stream.completed ≡ false
      → Holds (start_source p)
  unfolding start_source connect
  start_source-Holds p h e c =
      start-Held p.phase p.stream.current_ws p.stream.feeding p.sockets p.stream.completed
        p.stream.made h e c

  subscribe_source-Holds :
      (settings : Settings) (p : Pipe A)
      → Holds p
      → p.phase ≡ idle
      → p.stream.completed ≡ false
      → Holds (subscribe_source settings p)
  unfolding subscribe_source start_source
  subscribe_source-Holds settings p h e c =
      let s = p.stream in
      if_cases Holds (settings.reconnect && never_starts settings.max_retries) (complete_pipe p)
        (start_source p)
        (λ t. idle-Held p.phase s.current_ws s.feeding p.sockets s.completed h (rw e refl))
        (λ t. start_source-Holds p h (rw e refl) c)

  on_failure-Holds :
      (settings : Settings) (random i : ℕ) (p : Pipe A)
      → Holds p
      → p.phase ≡ live i
      → Holds (on_failure settings random i p)
  unfolding on_failure end_source finalize
  on_failure-Holds settings random i p h e =
      let k = end-Ended p i h e in
      let q = end_source i p in
      let n = suc p.failures in
      if_cases Holds (settings.reconnect && may_retry settings p.failures)
        (record q { phase = waiting (retry_delay settings.delays n random); failures = n })
        (reset q)
        (λ t.
          rw (k.fed, k.left, k.open_still) (held_waiting (retry_delay settings.delays n random)))
        (λ t. rw (k.fed, k.left) held_idle)

  on_completion-Holds :
      (settings : Settings) (random i : ℕ) (p : Pipe A)
      → Holds p
      → p.phase ≡ live i
      → Holds (on_completion settings random i p)
  unfolding on_completion end_source finalize
  on_completion-Holds settings random i p h e =
      let k = end-Ended p i h e in
      let q = end_source i p in
      let n = suc p.completions in
      if_cases Holds (settings.reconnect && may_repeat settings p.completions)
        (record q {
          phase = waiting (retry_delay settings.delays n random);
          failures = 0;
          completions = n;
        })
        (complete_pipe q)
        (λ t.
          rw (k.fed, k.left, k.open_still) (held_waiting (retry_delay settings.delays n random)))
        (λ t. rw (k.fed, k.left) held_over)

  -- A pipe by its parts.
  abbrev pipe :
      (phase : Phase) (ws : Option ℕ) (feeding sockets : List ℕ) (completed : Bool)
      → Pipe A
      → Pipe A
  pipe phase ws feeding sockets completed p = record p {
    stream = record p.stream { current_ws = ws; feeding = feeding; completed = completed };
    phase = phase;
    sockets = sockets;
  }

  close-Held :
      (phase : Phase) (ws : Option ℕ) (feeding sockets : List ℕ) (completed : Bool) (p : Pipe A)
      → Held phase ws feeding sockets completed
      → Holds (close_pipe (pipe phase ws feeding sockets completed p))
  unfolding close_pipe kill close end_source finalize delete
  close-Held _ _ _ _ true p held_idle = held_idle
  close-Held _ _ _ _ false p held_idle = held_idle
  close-Held _ _ _ _ _ p (held_live i) = let e = ==_self i in rw e held_over
  close-Held _ _ _ _ _ p (held_waiting d) = held_over
  close-Held _ _ _ _ true p held_over = held_over
  close-Held _ _ _ _ false p held_over = held_over

  leave_pipe-Held :
      (phase : Phase) (ws : Option ℕ) (feeding sockets : List ℕ) (completed : Bool) (p : Pipe A)
      → Held phase ws feeding sockets completed
      → Holds (leave_pipe (pipe phase ws feeding sockets completed p))
  unfolding leave_pipe end_source finalize delete
  leave_pipe-Held _ _ _ _ completed p held_idle = held_idle
  leave_pipe-Held _ _ _ _ _ p (held_live i) = let e = ==_self i in rw e held_idle
  leave_pipe-Held _ _ _ _ _ p (held_waiting d) = held_idle
  leave_pipe-Held _ _ _ _ completed p held_over = held_over

  on_open-Holds : (p : Pipe A) → Holds p → Holds (record p { stream = on_open p.stream })
  unfolding on_open
  on_open-Holds p h =
      let s = p.stream in
      if_cases (λ t. Holds (record p { stream = t })) s.completed s
        (record s { connects = suc s.connects }) (λ e. h) (λ e. h)

  on_close-Holds :
      (code : ℕ) (p : Pipe A) → Holds p → Holds (record p { stream = on_close code p.stream })
  unfolding on_close
  on_close-Holds code p h =
      let s = p.stream in
      if_cases (λ t. Holds (record p { stream = t })) s.completed s
        (record s { terminations = s.terminations ++ closed_with code ∷ [] }) (λ e. h) (λ e. h)

  -- In every run, a stream has one socket that is not closed while it is live, and none otherwise; this
  -- socket is its current one and the only one that its messages go to; after `close` it is not live
  -- and waits for no timer.
  pub Run-Holds : (settings : Settings) (p : Pipe A) → Run settings p → Holds p
  unfolding on_next send
  Run-Holds settings _ start = held_idle
  Run-Holds settings _ (subscribes {p = p} r e c) =
      subscribe_source-Holds settings p (Run-Holds settings p r) e c
  Run-Holds settings _ (opens {p = p} r) = on_open-Holds p (Run-Holds settings p r)
  Run-Holds settings _ (reports {p = p} code r) = on_close-Holds code p (Run-Holds settings p r)
  Run-Holds settings _ (hears {p = p} r) = Run-Holds settings p r
  Run-Holds settings _ (fails {p = p} i random r e k) =
      on_failure-Holds settings random i p (Run-Holds settings p r) e
  Run-Holds settings _ (completes {p = p} i random r e k) =
      on_completion-Holds settings random i p (Run-Holds settings p r) e
  Run-Holds settings _ (elapses {p = p} d r e) =
      let h = Run-Holds settings p r in
      let s = p.stream in
      start_source-Holds p h (rw e refl)
        (waiting-open p.phase s.current_ws s.feeding p.sockets s.completed h (rw e refl))
  Run-Holds settings _ (sends {p = p} msg r) = Run-Holds settings p r
  Run-Holds settings _ (closes {p = p} r) =
      let s = p.stream in
      close-Held p.phase s.current_ws s.feeding p.sockets s.completed p (Run-Holds settings p r)
  Run-Holds settings _ (leaves {p = p} r) =
      let s = p.stream in
      leave_pipe-Held p.phase s.current_ws s.feeding p.sockets s.completed p
        (Run-Holds settings p r)
