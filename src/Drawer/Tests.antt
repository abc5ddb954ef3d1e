-- ===== src/Drawer/Tests.antt =====
-- The theorems on the drawer at concrete inputs.
use hdns.Prelude.{false, ◌≡◌, refl, List, [], ◌∷◌}
use hdns.Drawer.{Breakpoint, calculate_width, closed, open_drawer, close, on_timer, on_navigation}
use hdns.Drawer.Width.{narrowest, calculate_width-narrowest}
use hdns.Drawer.Service
use hdns.Drawer.Service.{DrawerService, no_drawers, set_at, register, makes}
use hdns.Drawer.Runs.{
  IsShown, Traced, fresh, Run, here, next, opens, closes, tick, navigates, Run-IsShown,
}

abbrev breakpoints : List Breakpoint
breakpoints =
    (record { max_width = 1200; width = 70 }) ∷ (record { max_width = 768; width = 100 }) ∷ []

calculate_width-narrowest_example : calculate_width 640 breakpoints 50 ≡ 100
unfolding narrowest
calculate_width-narrowest_example = calculate_width-narrowest 640 breakpoints 50

-- The overlay is lost in the history; the drawer has to be closed before it opens again.
abbrev reopened : Traced
unfolding open_drawer close on_navigation on_timer
reopened = record {
  drawer = open_drawer (on_timer 0 (close (open_drawer (on_navigation (open_drawer closed)))));
  lost = false;
}

abbrev reopened_run : Run fresh reopened
unfolding open_drawer close on_navigation on_timer
reopened_run =
    next (next (next (next (next (next here opens) navigates) opens) closes) (tick 0 refl)) opens

Run-IsShown_example : IsShown reopened
Run-IsShown_example = Run-IsShown reopened_run

-- Two drawers are made, and the second is opened.
abbrev two_drawers : DrawerService
unfolding register
two_drawers =
    let t = register 4 (register 2 no_drawers) in
    record t { state = set_at t.state 4 (open_drawer (t.state 4)) }

abbrev two_drawers_run : Service.Run two_drawers
unfolding register
two_drawers_run = Service.opens 4 (makes 4 (makes 2 Service.start))
