-- ===== src/RecordForm/Steps/Tests.antt =====
-- The steps of the form at a concrete run.
use hdns.Prelude.{ℕ, ◌≡◌, refl, suc, false, none, []}
use hdns.Prelude.IdSet.{has}
use hdns.RecordForm.Steps.{
  StepAdvance, StepKey, new_steps, clear_advance_timer, clear_advance_timers, schedule_step_advance,
  prepare_steps, on_status, on_prepared_steps, on_advance_timer,
}
use hdns.RecordForm.Steps.Timers.{
  Run, start, prepares, prepared, status, fires_token, TimersHeld, Run-TimersHeld,
}

abbrev pick : ℕ → ℕ → ℕ
pick index target = target

-- A new record: a token is typed, and the timer goes on to the zone.
abbrev typed : StepAdvance
typed =
    on_status StepKey.token false (on_prepared_steps pick suc 0 [] (prepare_steps none new_steps))

abbrev run : Run pick suc (on_advance_timer pick suc StepKey.token 0 typed)
unfolding prepare_steps clear_advance_timers clear_advance_timer on_prepared_steps on_status
    schedule_step_advance has
run = fires_token 0 (status StepKey.token false (prepared 0 [] (prepares none start) refl)) refl

advanced : (on_advance_timer pick suc StepKey.token 0 typed).index ≡ 1
unfolding prepare_steps clear_advance_timers clear_advance_timer on_prepared_steps on_status
    schedule_step_advance on_advance_timer
advanced = refl

Run-TimersHeld_example : TimersHeld (on_advance_timer pick suc StepKey.token 0 typed)
Run-TimersHeld_example =
    Run-TimersHeld pick suc (on_advance_timer pick suc StepKey.token 0 typed) run
