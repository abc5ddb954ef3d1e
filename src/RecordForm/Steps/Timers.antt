-- ===== src/RecordForm/Steps/Timers.antt =====
-- The timers of the steps in all runs of the form.
use hdns.Prelude.{
  ℕ, ◌≡◌, refl, Bool, true, false, not, ◌&&◌, ◌||◌, Option, none, some, List, [], ◌∷◌, ◌==◌,
  if◌then◌else◌, arith, Bool-cases, inl, inr, if_cases, sym, ◌∙◌,
}
use hdns.Prelude.IdSet.{has, delete}
use hdns.RecordForm.Steps.{
  StepAdvance, StepKey, new_steps, clear_timeout, clear_advance_timer, clear_advance_timers,
  set_timer, schedule_step_advance, prepare_steps, on_destroy_steps, on_status, set_invalid,
  on_prepared_steps, on_advance_timer, fired, group_invalid, expected_index,
}

-- The pending timers of a step, by the reference to the last one: none, or that one, where timers
-- are allowed.
pub data Held : Bool → Option ℕ → List ℕ → Type 0 where
  idle : {allowed : Bool} {timer : Option ℕ} → Held allowed timer []
  running : (i : ℕ) → Held true (some i) (i ∷ [])

-- Timers are allowed while the component listens and has not suspended them.
abbrev pub allowed : StepAdvance → Bool
allowed s = s.listening && not s.suspended

pub record TimersHeld (s : StepAdvance) : Type 0 where
  pub token : Held (allowed s) s.token_timer s.token_pending
  pub zone : Held (allowed s) s.zone_timer s.zone_pending

clear_timeout-Held :
    (a : Bool) (timer : Option ℕ) (pending : List ℕ)
    → Held a timer pending
    → clear_timeout timer pending ≡ []
unfolding delete
clear_timeout-Held a none [] idle = refl
clear_timeout-Held a (some i) [] idle = refl
clear_timeout-Held _ _ _ (running i) = ground arith

delete-Held :
    (a : Bool) (timer : Option ℕ) (pending : List ℕ) (i : ℕ)
    → Held a timer pending
    → Held a timer (delete pending i)
unfolding delete
delete-Held a timer [] i idle = idle
delete-Held _ _ _ i (running j) = elim (Bool-cases (j == i)) [
  | inl e ↦ rw e idle
  | inr e ↦ rw e (running j)
]

-- Without pending timers, allowed or not.
no_timers :
    (a b : Bool) (timer timer' : Option ℕ) (pending : List ℕ)
    → Held a timer pending
    → Held b timer' (clear_timeout timer pending)
no_timers a b timer timer' pending h = rw (clear_timeout-Held a timer pending h) idle

clear_advance_timer-TimersHeld :
    (step : StepKey) (s : StepAdvance) → TimersHeld s → TimersHeld (clear_advance_timer step s)
unfolding clear_advance_timer
clear_advance_timer-TimersHeld StepKey.token s h = record {
  token = no_timers (allowed s) (allowed s) s.token_timer none s.token_pending h.token;
  zone = h.zone;
}
clear_advance_timer-TimersHeld StepKey.zone s h = record {
  token = h.token;
  zone = no_timers (allowed s) (allowed s) s.zone_timer none s.zone_pending h.zone;
}

-- A timer is set after the one before was cleared.
set_timer-TimersHeld :
    (step : StepKey) (s : StepAdvance)
    → allowed s ≡ true
    → TimersHeld s
    → TimersHeld (set_timer step (clear_advance_timer step s))
unfolding clear_advance_timer
set_timer-TimersHeld StepKey.token s e h = record {
  token =
      rw (clear_timeout-Held (allowed s) s.token_timer s.token_pending h.token, e) (running s.made);
  zone = h.zone;
}
set_timer-TimersHeld StepKey.zone s e h = record {
  token = h.token;
  zone = rw (clear_timeout-Held (allowed s) s.zone_timer s.zone_pending h.zone, e) (running s.made);
}

schedule-TimersHeld :
    (step : StepKey) (s : StepAdvance)
    → s.listening ≡ true
    → TimersHeld s
    → TimersHeld (schedule_step_advance step s)
unfolding schedule_step_advance
schedule-TimersHeld step s l h =
    let t = clear_advance_timer step s in
    let stops = not (t.index == expected_index step) || group_invalid step t in
    if_cases TimersHeld s.suspended s (if stops then t else set_timer step t) (λ e. h)
      (λ e.
        if_cases TimersHeld stops t (set_timer step t)
          (λ g. clear_advance_timer-TimersHeld step s h)
          (λ g. set_timer-TimersHeld step s (rw (l, e) refl) h))

set_invalid-TimersHeld :
    (step : StepKey) (b : Bool) (s : StepAdvance) → TimersHeld s → TimersHeld (set_invalid step b s)
set_invalid-TimersHeld StepKey.token b s h = record { token = h.token; zone = h.zone }
set_invalid-TimersHeld StepKey.zone b s h = record { token = h.token; zone = h.zone }

set_invalid-listening :
    (step : StepKey) (b : Bool) (s : StepAdvance) → s.listening ≡ (set_invalid step b s).listening
set_invalid-listening StepKey.token b s = refl
set_invalid-listening StepKey.zone b s = refl

on_status-TimersHeld :
    (step : StepKey) (b : Bool) (s : StepAdvance) → TimersHeld s → TimersHeld (on_status step b s)
unfolding on_status
on_status-TimersHeld step b s h =
    let t = set_invalid step b s in
    let k = set_invalid-TimersHeld step b s h in
    if_cases TimersHeld s.listening (schedule_step_advance step t) t
      (λ e. schedule-TimersHeld step t (sym (set_invalid-listening step b s) ∙ e) k) (λ e. k)

cleared-Held :
    (s : StepAdvance)
    → TimersHeld s
    → (clear_timeout s.token_timer s.token_pending ≡ [])
      × (clear_timeout s.zone_timer s.zone_pending ≡ [])
cleared-Held s h = (
  clear_timeout-Held (allowed s) s.token_timer s.token_pending h.token,
  clear_timeout-Held (allowed s) s.zone_timer s.zone_pending h.zone,
)

prepare-TimersHeld :
    (zone_id : Option ℕ) (s : StepAdvance) → TimersHeld s → TimersHeld (prepare_steps zone_id s)
unfolding prepare_steps clear_advance_timers clear_advance_timer
prepare-TimersHeld none s h =
    let (t, z) = cleared-Held s h in record { token = rw t idle; zone = rw z idle }
prepare-TimersHeld (some zone_id) s h =
    let (t, z) = cleared-Held s h in record { token = rw t idle; zone = rw z idle }

destroy-TimersHeld : (s : StepAdvance) → TimersHeld s → TimersHeld (on_destroy_steps s)
unfolding on_destroy_steps clear_advance_timers clear_advance_timer
destroy-TimersHeld s h =
    let (t, z) = cleared-Held s h in record { token = rw t idle; zone = rw z idle }

-- Resuming allows what was there.
resume-Held :
    (l a : Bool) (timer : Option ℕ) (pending : List ℕ)
    → Held (l && not a) timer pending
    → Held (l && true) timer pending
resume-Held true true timer [] idle = idle
resume-Held true true timer (i ∷ is) h = elim h [ ]
resume-Held true false timer pending h = h
resume-Held false a timer pending h = h

module _ (select : ℕ → ℕ → ℕ) (advance : ℕ → ℕ) where
  fired-TimersHeld :
      (step : StepKey) (i : ℕ) (s : StepAdvance)
      → TimersHeld s
      → TimersHeld (fired select advance step i s)
  fired-TimersHeld StepKey.token i s h = record {
    token = delete-Held (allowed s) s.token_timer s.token_pending i h.token;
    zone = h.zone;
  }
  fired-TimersHeld StepKey.zone i s h = record {
    token = h.token;
    zone = delete-Held (allowed s) s.zone_timer s.zone_pending i h.zone;
  }

  on_advance_timer-TimersHeld :
      (step : StepKey) (i : ℕ) (s : StepAdvance)
      → TimersHeld s
      → TimersHeld (on_advance_timer select advance step i s)
  unfolding on_advance_timer
  on_advance_timer-TimersHeld step i s h =
      let t = fired select advance step i s in
      let k = fired-TimersHeld step i s h in
      elim (Bool-cases
        (t.suspended || not (t.index == expected_index step) || group_invalid step t)) [
          | inl e ↦ rw e k
          | inr e ↦ rw e (record { token = k.token; zone = k.zone })
        ]

  -- The user selects a step, or empties the token; a group becomes valid or invalid; the form is
  -- prepared for a record, by the number of its zone, or for a new one; what was deferred runs; a
  -- pending timer fires; the component is destroyed.
  pub data Run : StepAdvance → Type 0 where
    start : Run new_steps
    picks : {s : StepAdvance} (i : ℕ) → Run s → Run (record s { index = i })
    status :
        {s : StepAdvance} (step : StepKey) (invalid : Bool) → Run s → Run (on_status step invalid s)
    prepares : {s : StepAdvance} (zone_id : Option ℕ) → Run s → Run (prepare_steps zone_id s)
    prepared :
        {s : StepAdvance} (target : ℕ) (rest : List ℕ)
        → Run s
        → s.deferred ≡ target ∷ rest
        → Run (on_prepared_steps select advance target rest s)
    fires_token :
        {s : StepAdvance} (i : ℕ)
        → Run s
        → has s.token_pending i ≡ true
        → Run (on_advance_timer select advance StepKey.token i s)
    fires_zone :
        {s : StepAdvance} (i : ℕ)
        → Run s
        → has s.zone_pending i ≡ true
        → Run (on_advance_timer select advance StepKey.zone i s)
    empties : {s : StepAdvance} → Run s → Run (clear_advance_timer StepKey.token s)
    destroys : {s : StepAdvance} → Run s → Run (on_destroy_steps s)

  -- In every run, each step has one pending timer at most, the one that the component refers to,
  -- and none while advancing is suspended or after the component was destroyed.
  pub Run-TimersHeld : (s : StepAdvance) → Run s → TimersHeld s
  unfolding on_prepared_steps
  Run-TimersHeld s start = record { token = idle; zone = idle }
  Run-TimersHeld s (picks {s = t} i r) =
      let h = Run-TimersHeld t r in record { token = h.token; zone = h.zone }
  Run-TimersHeld s (status {s = t} step b r) = on_status-TimersHeld step b t (Run-TimersHeld t r)
  Run-TimersHeld s (prepares {s = t} z r) = prepare-TimersHeld z t (Run-TimersHeld t r)
  Run-TimersHeld s (prepared {s = t} target rest r e) =
      let h = Run-TimersHeld t r in
      record {
        token = resume-Held t.listening t.suspended t.token_timer t.token_pending h.token;
        zone = resume-Held t.listening t.suspended t.zone_timer t.zone_pending h.zone;
      }
  Run-TimersHeld s (fires_token {s = t} i r e) =
      on_advance_timer-TimersHeld StepKey.token i t (Run-TimersHeld t r)
  Run-TimersHeld s (fires_zone {s = t} i r e) =
      on_advance_timer-TimersHeld StepKey.zone i t (Run-TimersHeld t r)
  Run-TimersHeld s (empties {s = t} r) =
      clear_advance_timer-TimersHeld StepKey.token t (Run-TimersHeld t r)
  Run-TimersHeld s (destroys {s = t} r) = destroy-TimersHeld t (Run-TimersHeld t r)
