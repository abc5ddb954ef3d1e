-- ===== src/Api/Stream/Tests.antt =====
-- The streams at concrete inputs.
use hdns.Prelude.{ℕ, ◌≡◌, some, refl, [], ◌∷◌, ◌++◌, arith}
use hdns.Prelude.IdSet.{delete}
use hdns.Api.{default_options, retry_delay, backoff}
use hdns.Api.Stream.{connect, finalize, on_open, send, close}
use hdns.Api.Stream.Runs.{
  default_settings, waiting, over, Pipe, new_pipe, start_source, subscribe_source, end_source,
  on_failure, on_completion, kill, close_pipe, on_next, Run, start, subscribes, opens, fails,
  elapses, sends,
}
use hdns.Api.Stream.Held.{Holds}
use hdns.Api.Stream.Sockets.{Run-Holds}
use hdns.Api.Stream.Sends.{delivered, Run-sends}
use hdns.Api.Stream.Reconnects.{GoesOn, Run-GoesOn}

-- A stream is subscribed, opens, sends and fails; its timer elapses, and the second socket closes.
abbrev subscribed : Pipe ℕ
subscribed = subscribe_source default_settings new_pipe

abbrev opened : Pipe ℕ
opened = record subscribed { stream = on_open subscribed.stream }

abbrev asked : Pipe ℕ
asked = record opened { stream = send 7 opened.stream }

abbrev failed : Pipe ℕ
failed = on_failure default_settings 120 0 asked

abbrev again : Pipe ℕ
again = start_source failed

abbrev run_asked : Run default_settings asked
unfolding subscribe_source start_source connect
run_asked = sends 7 (opens (subscribes start refl refl))

abbrev run_failed : Run default_settings failed
unfolding subscribe_source start_source connect on_open send
run_failed = fails 0 120 run_asked refl (omega arith)

abbrev run_again : Run default_settings again
unfolding on_failure retry_delay backoff end_source finalize subscribe_source
run_again = elapses (retry_delay default_options 1 120) run_failed refl

Run-Holds_example : Holds again
Run-Holds_example = Run-Holds default_settings again run_again

Run-GoesOn_example : GoesOn default_settings failed
Run-GoesOn_example = Run-GoesOn default_settings failed refl refl run_failed

Run-sends_example : (send 8 failed.stream).sent ≡ failed.stream.sent ++ delivered failed.phase 8
Run-sends_example = Run-sends default_settings failed 8 run_failed

-- The message that is sent in the second before the next socket is lost.
lost_while_waiting :
    ((send 8 failed.stream).sent ≡ (0, 7) ∷ [])
    × ((send 9 again.stream).sent ≡ (0, 7) ∷ (1, 9) ∷ [])
unfolding subscribe_source start_source connect on_open send on_failure end_source finalize delete
lost_while_waiting = (refl, refl)

-- `repeat` counts on: after five closings, each with messages in between, the next socket is 10 s away.
abbrev closes_cleanly : Pipe ℕ → Pipe ℕ
closes_cleanly p = start_source (on_completion default_settings 0 0 (on_next p))

fifth_closing_waits :
    let four = closes_cleanly (closes_cleanly (closes_cleanly (closes_cleanly subscribed))) in
    (on_completion default_settings 0 4 (on_next four)).phase ≡ waiting 10000
unfolding subscribe_source start_source connect on_next on_completion end_source finalize
    retry_delay backoff
fifth_closing_waits = refl

-- With the number 0 of retries no socket is made.
no_retries_no_socket :
    (subscribe_source {A = ℕ} (record default_settings { max_retries = some 0 }) new_pipe).sockets
    ≡ []
unfolding subscribe_source
no_retries_no_socket = refl

-- A stream that is closed after its first failure makes no socket.
closed_while_waiting : (close_pipe failed).phase ≡ over
unfolding subscribe_source start_source connect on_open send on_failure end_source finalize
    close_pipe kill close
closed_while_waiting = refl
