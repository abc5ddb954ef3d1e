-- ===== src/Notify/Timers.antt =====
-- The automatic dismissal of notifications: the timers of `addNotification` fire in any order,
-- between requests of the user.
use hdns.Prelude.{
  ℕ, zero, suc, ◌-◌, ◌<◌, ◌≡◌, refl, sym, subst, String, true, List, [], ◌∷◌, ◌++◌, arith, ltb, inl,
  inr, All, In, All-append, In-append_left, In-append_right, In-append_cases, drop, length, eq_iff,
  Bool-cases, ◌≢◌,
}
use hdns.Notify.{
  NotificationItem, NotifyService, init, slice_last, push, without, add_notification,
  dismiss_notification, dismiss_all,
}

-- A timer runs its callback and is gone.
unfoldable pub fire : String → List String → NotifyService → NotifyService
unfolding dismiss_notification
fire id others s = record (dismiss_notification id s) { timers = others }

pub data Step (s : NotifyService) : NotifyService → Type 0 where
  show :
      (item : NotificationItem) (duration : ℕ)
      → 0 < duration
      → Step s (add_notification item duration s)
  close : (id : String) → Step s (dismiss_notification id s)
  close_all : Step s (dismiss_all s)
  tick :
      (before : List String) (id : String) (after : List String)
      → s.timers ≡ before ++ id ∷ after
      → Step s (fire id (before ++ after) s)

pub data Run (s : NotifyService) : NotifyService → Type 0 where
  here : Run s s
  next : {t u : NotifyService} → Run s t → Step t u → Run s u

-- Each notification on the screen has its timer.
abbrev pub Covered : List String → List NotificationItem → Type 0
Covered timers items = All (λ n. In n.id timers) items

Covered-drop :
    (n : ℕ) (timers : List String) (items : List NotificationItem)
    → Covered timers items
    → Covered timers (drop n items)
Covered-drop zero timers items h = h
Covered-drop (suc n) timers [] h = h
Covered-drop (suc n) timers (x ∷ items) h = Covered-drop n timers items h.1

Covered-append :
    (timers : List String) (id : String) (items : List NotificationItem)
    → Covered timers items
    → Covered (timers ++ id ∷ []) items
Covered-append timers id [] h = tt
Covered-append timers id (x ∷ items) h =
    (In-append_left x.id timers (id ∷ []) h.0, Covered-append timers id items h.1)

push-Covered :
    (timers : List String) (item : NotificationItem) (items : List NotificationItem)
    → Covered timers items
    → In item.id timers
    → Covered timers (push items item)
unfolding push slice_last
push-Covered timers item items h i =
    let all = All-append (λ (n : NotificationItem). In n.id timers) items (item ∷ []) h (i, tt) in
    elim (Bool-cases (ltb 5 (length (items ++ item ∷ [])))) [
      | inl e ↦
          rw e (Covered-drop (length (items ++ item ∷ []) - 5) timers (items ++ item ∷ []) all)
      | inr e ↦ rw e all
    ]

without-Covered :
    (timers : List String) (id : String) (items : List NotificationItem)
    → Covered timers items
    → Covered timers (without id items)
unfolding without
without-Covered timers id [] h = tt
without-Covered timers id (x ∷ items) h = ground (arith, without-Covered timers id items h.1)

-- A timer that has fired is missed by no notification that is left.
In-other :
    (before : List String) (id : String) (after : List String) (j : String)
    → j ≢ id
    → In j (before ++ id ∷ after)
    → In j (before ++ after)
In-other before id after j h i = elim (In-append_cases j before (id ∷ after) i) [
  | inl l ↦ In-append_left j before after l
  | inr (inl e) ↦ absurd (h (sym e))
  | inr (inr r) ↦ In-append_right j before after r
]

fire-Covered :
    (before : List String) (id : String) (after : List String) (items : List NotificationItem)
    → Covered (before ++ id ∷ after) items
    → Covered (before ++ after) (without id items)
unfolding without
fire-Covered before id after [] h = tt
fire-Covered before id after (x ∷ items) h = ground (
  arith,
  fire-Covered before id after items h.1,
  eq_iff x.id id,
  λ (ne : x.id ≢ id). In-other before id after x.id ne h.0,
)

Step-Covered :
    {s t : NotifyService}
    → Step s t
    → Covered s.timers s.notifications
    → Covered t.timers t.notifications
unfolding add_notification dismiss_notification dismiss_all fire
Step-Covered {s} (show item duration h) c =
    let e : ltb 0 duration ≡ true = ground arith in
    rw e (
      push-Covered (s.timers ++ item.id ∷ []) item s.notifications
        (Covered-append s.timers item.id s.notifications c)
        (In-append_right item.id s.timers (item.id ∷ []) (inl refl)))
Step-Covered {s} (close id) c = without-Covered s.timers id s.notifications c
Step-Covered close_all c = tt
Step-Covered {s} (tick before id after e) c =
    fire-Covered before id after s.notifications (subst (λ ts. Covered ts s.notifications) e c)

Run-Covered : {s : NotifyService} → Run init s → Covered s.timers s.notifications
Run-Covered here = tt
Run-Covered (next r st) = Step-Covered st (Run-Covered r)

no_timer_no_item :
    (timers : List String) (items : List NotificationItem)
    → Covered timers items
    → timers ≡ []
    → items ≡ []
no_timer_no_item timers [] c e = refl
no_timer_no_item timers (x ∷ items) c e = absurd (subst (λ ts. In x.id ts) e c.0)

-- However notifications with a positive duration are shown and dismissed, and in whatever order the
-- timers fire, a state in which no timer is pending shows no notification.
pub Run-clears : {s : NotifyService} → Run init s → s.timers ≡ [] → s.notifications ≡ []
Run-clears {s} r = no_timer_no_item s.timers s.notifications (Run-Covered r)
