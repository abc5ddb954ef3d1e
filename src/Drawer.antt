-- ===== src/Drawer.antt =====
-- frontend/src/app/components/drawer/drawer.component.ts: the width of a drawer, and opening and
-- closing it. An overlay is known by the number of the call of `create` that made it; its looks
-- are left to the library.
pub mod Width
pub mod Runs
pub mod Service
mod Tests
use hdns.Prelude.{
  ℕ, zero, suc, ◌+◌, Bool, true, false, Option, none, some, List, [], ◌∷◌, get_or, leb,
  if◌then◌else◌,
}
use hdns.Prelude.IdSet

pub record Breakpoint : Type 0 where
  pub max_width : ℕ
  pub width : ℕ

-- `[…].sort((a, b) => a.maxWidth - b.maxWidth)`, which is stable.
pub insert : Breakpoint → List Breakpoint → List Breakpoint
insert b [] = b ∷ []
insert b (x ∷ xs) =
    let rest = insert b xs in if leb b.max_width x.max_width then b ∷ x ∷ xs else x ∷ rest

unfoldable pub sort : List Breakpoint → List Breakpoint
unfolding insert
sort [] = []
sort (b ∷ bs) = insert b (sort bs)

-- The loop of `calculateWidth`.
pub first_fit : ℕ → List Breakpoint → Option ℕ
first_fit current [] = none
first_fit current (b ∷ bs) =
    let rest = first_fit current bs in if leb current b.max_width then some b.width else rest

-- `calculateWidth` for the width of the window, the breakpoints and the width of the drawer.
unfoldable pub calculate_width : ℕ → List Breakpoint → ℕ → ℕ
unfolding sort first_fit
calculate_width current breakpoints width = get_or (first_fit current (sort breakpoints)) width

-- `timers` counts the pending `setTimeout(…)` of `close`. `live` has the overlays that were made
-- and not disposed of.
pub record Drawer : Type 0 where
  pub reference : Option ℕ
  pub visible : Bool
  pub made : ℕ
  pub live : List ℕ
  pub timers : ℕ

abbrev pub closed : Drawer
closed = record { reference = none; visible = false; made = 0; live = []; timers = 0 }

unfoldable pub open_drawer : Drawer → Drawer
open_drawer s = elim s.reference [
  | some i ↦ s
  | none ↦ record s {
    reference = some s.made;
    visible = true;
    made = suc s.made;
    live = IdSet.add s.live s.made;
  }
]

unfoldable pub close : Drawer → Drawer
close s = elim s.reference [ none ↦ s | some i ↦ record s { timers = suc s.timers } ]

-- `this.reference?.dispose()`
abbrev pub dispose : Option ℕ → List ℕ → List ℕ
dispose none live = live
dispose (some i) live = IdSet.delete live i

-- The callback of a timer; `timers` is the number of those that are left.
unfoldable pub on_timer : ℕ → Drawer → Drawer
on_timer timers s = record s {
  live = dispose s.reference s.live;
  reference = none;
  visible = false;
  timers = timers;
}

-- `disposeOnNavigation` of `buildConfig`: when the user goes back or forward in the history, the
-- library disposes of the overlays. The component does not hear of it.
unfoldable pub on_navigation : Drawer → Drawer
on_navigation s = record s { live = [] }

unfoldable pub is_open : Drawer → Bool
is_open s = s.visible
