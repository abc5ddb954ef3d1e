-- ===== src/Notify.antt =====
-- frontend/src/app/global/services/notify/notify.service.ts: the notifications that are shown, and
-- the counter of requests in flight. The identifiers that `crypto.randomUUID()` makes are
-- arguments, and the callbacks that `setTimeout` keeps are a part of the state.
pub mod Extract
pub mod Queue
pub mod Show
pub mod Loading
pub mod Timers
mod Tests
use hdns.Prelude.{
  ℕ, zero, suc, ◌+◌, ◌-◌, ◌≡◌, refl, String, Bool, true, false, not, Option, none, some, List, [],
  ◌∷◌, ◌++◌, arith, ltb, ◌==◌, str_eq, if◌then◌else◌, length, drop, filter,
}

-- notify.model.ts
pub data NotificationKind : Type 0 where
  info error : NotificationKind

pub record NotificationItem : Type 0 where
  pub id : String
  pub kind : NotificationKind
  pub message : String
  pub title : Option String
  pub raw_error : Option String

-- `timers` holds the argument of each pending `setTimeout(() => this.dismissNotification(id), …)`.
pub record NotifyService : Type 0 where
  pub notifications : List NotificationItem
  pub loading_count : ℕ
  pub is_loading : Bool
  pub timers : List String

abbrev pub init : NotifyService
init = record { notifications = []; loading_count = 0; is_loading = false; timers = [] }

abbrev pub max_visible : ℕ
max_visible = 5

-- `xs.slice(-n)` for a positive `n`
unfoldable pub slice_last : ℕ → List NotificationItem → List NotificationItem
slice_last n xs = drop (length xs - n) xs

-- The update of the list in `addNotification`.
unfoldable pub push : List NotificationItem → NotificationItem → List NotificationItem
unfolding slice_last
push items item =
    let next = items ++ item ∷ [] in
    if ltb max_visible (length next) then slice_last max_visible next else next

unfoldable pub add_notification : NotificationItem → ℕ → NotifyService → NotifyService
unfolding push
add_notification item duration s = record s {
  notifications = push s.notifications item;
  timers = if ltb 0 duration then s.timers ++ item.id ∷ [] else s.timers;
}

unfoldable pub without : String → List NotificationItem → List NotificationItem
without id items = filter (λ n. not (str_eq n.id id)) items

unfoldable pub dismiss_notification : String → NotifyService → NotifyService
unfolding without
dismiss_notification id s = record s { notifications = without id s.notifications }

unfoldable pub dismiss_all : NotifyService → NotifyService
dismiss_all s = record s { notifications = [] }

unfoldable pub loading : NotifyService → NotifyService
loading s = record s { loading_count = s.loading_count + 1; is_loading = true }

unfoldable pub dismiss : NotifyService → NotifyService
dismiss s =
    let count = s.loading_count - 1 in
    record s { loading_count = count; is_loading = if count == 0 then false else s.is_loading }
