-- ===== src/Drawer/Runs.antt =====
-- Opening and closing, the timers of `close`, and the user's steps in the history, in any order.
use hdns.Prelude.{
  ◌∙◌, ◌&&◌, if◌then◌else◌, ℕ, suc, ◌≡◌, refl, Bool, true, false, Option, none, some, List, [], ◌∷◌,
  arith,
}
use hdns.Prelude.IdSet.{has, add, delete}
use hdns.Drawer.{Drawer, closed, open_drawer, close, dispose, on_timer, on_navigation, is_open}

abbrev pub is_some : Option ℕ → Bool
is_some none = false
is_some (some i) = true

-- A drawer in a run. `lost` says whether its user has gone back or forward in the history since the
-- overlay was made that it refers to, or was to be made last.
pub record Traced : Type 0 where
  pub drawer : Drawer
  pub lost : Bool

abbrev pub fresh : Traced
fresh = record { drawer = closed; lost = false }

pub data Step (s : Traced) : Traced → Type 0 where
  opens :
      Step s (record { drawer = open_drawer s.drawer; lost = s.lost && is_some s.drawer.reference })
  closes : Step s (record s { drawer = close s.drawer })
  tick :
      (timers : ℕ)
      → s.drawer.timers ≡ suc timers
      → Step s (record s { drawer = on_timer timers s.drawer })
  navigates : Step s (record { drawer = on_navigation s.drawer; lost = true })

pub data Run (s : Traced) : Traced → Type 0 where
  here : Run s s
  next : {t u : Traced} → Run s t → Step t u → Run s u

abbrev pub held : Option ℕ → List ℕ
held none = []
held (some i) = i ∷ []

-- The overlay that the drawer refers to is the only one there is, unless navigation has disposed of
-- it; and the drawer says that it is open exactly while it refers to an overlay.
pub record IsShown (s : Traced) : Type 0 where
  pub overlays : s.drawer.live ≡ (if s.lost then [] else held s.drawer.reference)
  pub shown : is_open s.drawer ≡ is_some s.drawer.reference

dispose-held :
    (lost : Bool) (reference : Option ℕ)
    → dispose reference (if lost then [] else held reference) ≡ []
unfolding delete
dispose-held lost none = ground arith
dispose-held lost (some i) = ground arith

module _ (visible lost : Bool) (made : ℕ) (live : List ℕ) (timers : ℕ) where
  abbrev with_reference : Option ℕ → Drawer
  with_reference reference = record {
    reference = reference;
    visible = visible;
    made = made;
    live = live;
    timers = timers;
  }

  open-IsShown :
      (reference : Option ℕ)
      → IsShown (record { drawer = with_reference reference; lost = lost })
      → IsShown (record {
        drawer = open_drawer (with_reference reference);
        lost = lost && is_some reference;
      })
  unfolding open_drawer is_open add has
  open-IsShown none h = record { overlays = ground (arith, h.overlays); shown = refl }
  open-IsShown (some i) h = record { overlays = ground (arith, h.overlays); shown = h.shown }

  close-IsShown :
      (reference : Option ℕ)
      → IsShown (record { drawer = with_reference reference; lost = lost })
      → IsShown (record { drawer = close (with_reference reference); lost = lost })
  unfolding close is_open
  close-IsShown none h = record { overlays = h.overlays; shown = h.shown }
  close-IsShown (some i) h = record { overlays = h.overlays; shown = h.shown }

empty : (lost : Bool) → ◌≡◌ {A = List ℕ} [] (if lost then [] else held none)
empty lost = ground arith

Step-IsShown : {s t : Traced} → Step s t → IsShown s → IsShown t
unfolding on_timer on_navigation is_open
Step-IsShown {s} opens h =
    let d = s.drawer in open-IsShown d.visible s.lost d.made d.live d.timers d.reference h
Step-IsShown {s} closes h =
    let d = s.drawer in close-IsShown d.visible s.lost d.made d.live d.timers d.reference h
Step-IsShown {s} (tick timers e) h = record {
  overlays = rw h.overlays (dispose-held s.lost s.drawer.reference ∙ empty s.lost);
  shown = refl;
}
Step-IsShown navigates h = record { overlays = refl; shown = h.shown }

-- However a drawer is opened and closed, whenever the timers of closing fire, and whenever the user
-- goes back or forward in the history: no overlay is left behind, and the drawer says that it is
-- open exactly while it refers to an overlay. This overlay is the only one there is; but if the
-- user has gone back or forward since the drawer made an overlay last, there is none.
pub Run-IsShown : {s : Traced} → Run fresh s → IsShown s
unfolding is_open
Run-IsShown here = record { overlays = refl; shown = refl }
Run-IsShown (next r step) = Step-IsShown step (Run-IsShown r)
