-- ===== src/RecordForm/Steps.antt =====
-- The steps of the form, and the timers that go on to the next one.
pub mod Timers
mod Tests
use hdns.Prelude.{
  ℕ, zero, suc, ◌≡◌, refl, Bool, true, false, not, ◌&&◌, ◌||◌, Option, none, some, List, [], ◌∷◌,
  ◌++◌, ◌==◌, if◌then◌else◌, arith, Bool-cases, inl, inr,
}
use hdns.Prelude.IdSet.{has, add, delete}

-- The parameter of `scheduleStepAdvance`.
pub data StepKey : Type 0 where
  token zone : StepKey

abbrev pub expected_index : StepKey → ℕ
expected_index StepKey.token = 0
expected_index StepKey.zone = 1

-- A timer is known by its number; `made` is how many there were. `token_pending` and `zone_pending`
-- have the timers of each step that neither fired nor were cleared. `deferred` has the index that
-- each pending `setTimeout(…)` of `prepareForm` selects; `listening` says whether the subscriptions
-- of the constructor are there. `index` is `stepper.selectedIndex`, and the stepper is there.
pub record StepAdvance : Type 0 where
  pub suspended : Bool
  pub index : ℕ
  pub token_invalid : Bool
  pub zone_invalid : Bool
  pub token_timer : Option ℕ
  pub zone_timer : Option ℕ
  pub token_pending : List ℕ
  pub zone_pending : List ℕ
  pub made : ℕ
  pub deferred : List ℕ
  pub listening : Bool

abbrev pub group_invalid : StepKey → StepAdvance → Bool
group_invalid StepKey.token s = s.token_invalid
group_invalid StepKey.zone s = s.zone_invalid

abbrev pub clear_timeout : Option ℕ → List ℕ → List ℕ
clear_timeout none pending = pending
clear_timeout (some i) pending = delete pending i

unfoldable pub clear_advance_timer : StepKey → StepAdvance → StepAdvance
clear_advance_timer StepKey.token s = record s {
  token_pending = clear_timeout s.token_timer s.token_pending;
  token_timer = none;
}
clear_advance_timer StepKey.zone s = record s {
  zone_pending = clear_timeout s.zone_timer s.zone_pending;
  zone_timer = none;
}

unfoldable pub clear_advance_timers : StepAdvance → StepAdvance
unfolding clear_advance_timer
clear_advance_timers s = clear_advance_timer StepKey.zone (clear_advance_timer StepKey.token s)

abbrev pub set_timer : StepKey → StepAdvance → StepAdvance
set_timer StepKey.token s = record s {
  token_timer = some s.made;
  token_pending = s.token_pending ++ s.made ∷ [];
  made = suc s.made;
}
set_timer StepKey.zone s = record s {
  zone_timer = some s.made;
  zone_pending = s.zone_pending ++ s.made ∷ [];
  made = suc s.made;
}

unfoldable pub schedule_step_advance : StepKey → StepAdvance → StepAdvance
unfolding clear_advance_timer
schedule_step_advance step s =
    let t = clear_advance_timer step s in
    if s.suspended
    then s
    else if not (t.index == expected_index step) || group_invalid step t
    then t
    else set_timer step t

abbrev pub new_steps : StepAdvance
new_steps = record {
  suspended = false;
  index = 0;
  token_invalid = true;
  zone_invalid = true;
  token_timer = none;
  zone_timer = none;
  token_pending = [];
  zone_pending = [];
  made = 0;
  deferred = [];
  listening = true;
}

-- The part of `prepareForm` that the steps depend on: the zone of the record that is edited, or
-- none. The control of the zone wants 1 at least.
unfoldable pub prepare_steps : Option ℕ → StepAdvance → StepAdvance
unfolding clear_advance_timers
prepare_steps (some zone_id) s = record (clear_advance_timers s) {
  suspended = true;
  token_invalid = false;
  zone_invalid = zone_id == 0;
  deferred = s.deferred ++ 2 ∷ [];
}
prepare_steps none s = record (clear_advance_timers s) {
  suspended = true;
  token_invalid = true;
  zone_invalid = true;
  deferred = s.deferred ++ 0 ∷ [];
}

unfoldable pub on_destroy_steps : StepAdvance → StepAdvance
unfolding clear_advance_timers
on_destroy_steps s = record (clear_advance_timers s) { listening = false }

abbrev pub set_invalid : StepKey → Bool → StepAdvance → StepAdvance
set_invalid StepKey.token b s = record s { token_invalid = b }
set_invalid StepKey.zone b s = record s { zone_invalid = b }

-- The subscriptions to `statusChanges`.
unfoldable pub on_status : StepKey → Bool → StepAdvance → StepAdvance
unfolding schedule_step_advance
on_status step invalid s =
    let t = set_invalid step invalid s in if s.listening then schedule_step_advance step t else t

-- The stepper is the library's: `select` is what it makes of the index that is assigned, and
-- `advance` what `next` makes of it.
module _ (select : ℕ → ℕ → ℕ) (advance : ℕ → ℕ) where
  -- The `setTimeout(…)` of `prepareForm`; `rest` are those that were made later.
  unfoldable pub on_prepared_steps : ℕ → List ℕ → StepAdvance → StepAdvance
  on_prepared_steps target rest s = record s {
    index = select s.index target;
    suspended = false;
    deferred = rest;
  }

  abbrev pub fired : StepKey → ℕ → StepAdvance → StepAdvance
  fired StepKey.token i s = record s { token_pending = delete s.token_pending i }
  fired StepKey.zone i s = record s { zone_pending = delete s.zone_pending i }

  unfoldable pub on_advance_timer : StepKey → ℕ → StepAdvance → StepAdvance
  on_advance_timer step i s =
      let t = fired step i s in
      if t.suspended || not (t.index == expected_index step) || group_invalid step t
      then t
      else record t { index = advance t.index }
