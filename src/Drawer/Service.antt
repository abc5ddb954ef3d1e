-- ===== src/Drawer/Service.antt =====
-- frontend/src/app/global/services/drawer/drawer.service.ts: the service that knows all drawers, with the
-- constructor and `ngOnDestroy` of frontend/src/app/components/drawer/drawer.component.ts. A drawer is known
-- by a number.
use hdns.Prelude.{ℕ, ◌≡◌, false, List, [], ◌∷◌, ◌==◌, if◌then◌else◌}
use hdns.Prelude.IdSet.{has, add, delete}
use hdns.Drawer.{Drawer, closed, open_drawer, close, on_timer, on_navigation}

-- `drawers` has those that are registered, and `state` the drawer of each number.
pub record DrawerService : Type 0 where
  pub drawers : List ℕ
  pub state : ℕ → Drawer

abbrev pub no_drawers : DrawerService
no_drawers = record { drawers = []; state = λ i. closed }

abbrev pub set_at : (ℕ → Drawer) → ℕ → Drawer → ℕ → Drawer
set_at f i d j = if i == j then d else f j

unfoldable pub register : ℕ → DrawerService → DrawerService
register i s = record s { drawers = add s.drawers i }

unfoldable pub unregister : ℕ → DrawerService → DrawerService
unregister i s = record s { drawers = delete s.drawers i }

-- `forEach`
unfoldable pub close_each : List ℕ → (ℕ → Drawer) → ℕ → Drawer
close_each [] f = f
close_each (i ∷ is) f = close_each is (set_at f i (close (f i)))

unfoldable pub close_all : DrawerService → DrawerService
unfolding close_each
close_all s = record s { state = close_each s.drawers s.state }

-- `ngOnDestroy`
unfoldable pub destroy : ℕ → DrawerService → DrawerService
unfolding unregister
destroy i s = let t = unregister i s in record t { state = set_at t.state i (close (t.state i)) }

-- The runs of all drawers: one is made, opened, closed or destroyed, a timer
-- of it fires, the user goes back or forward in the history, or all are closed.
pub data Run : DrawerService → Type 0 where
  start : Run no_drawers
  makes : {s : DrawerService} (i : ℕ) → Run s → Run (register i s)
  destroys : {s : DrawerService} (i : ℕ) → Run s → Run (destroy i s)
  opens :
      {s : DrawerService} (i : ℕ)
      → Run s
      → Run (record s { state = set_at s.state i (open_drawer (s.state i)) })
  closes :
      {s : DrawerService} (i : ℕ)
      → Run s
      → Run (record s { state = set_at s.state i (close (s.state i)) })
  ticks :
      {s : DrawerService} (i timers : ℕ)
      → Run s
      → Run (record s { state = set_at s.state i (on_timer timers (s.state i)) })
  navigates :
      {s : DrawerService} → Run s → Run (record s { state = λ i. on_navigation (s.state i) })
  closes_all : {s : DrawerService} → Run s → Run (close_all s)

-- No number stands twice.
abbrev IsUnique : List ℕ → Type 0
IsUnique [] = Unit
IsUnique (x ∷ xs) = (has xs x ≡ false) × IsUnique xs
