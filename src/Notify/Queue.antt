-- ===== src/Notify/Queue.antt =====
-- The list of notifications under `addNotification`, `dismissNotification` and `dismissAll`.
use hdns.Prelude.{
  ℕ, suc, ◌-◌, ◌≤◌, ◌<◌, ◌≡◌, sym, ap, ◌∙◌, String, List, [], ◌∷◌, ◌++◌, arith, length, drop,
  length-append, length-drop, length-filter, drop-append, drop-drop_one,
}
use native.Mathlib.Decide.{dec_le}
use mathlib.Core.List.{append_assoc, append-nil}
use hdns.Notify.{
  NotificationItem, NotifyService, max_visible, slice_last, push, add_notification,
  dismiss_notification, dismiss_all, without,
}

slice_last_all : (n : ℕ) (xs : List NotificationItem) → length xs ≤ n → slice_last n xs ≡ xs
unfolding slice_last
slice_last_all n xs h = let e : length xs - n ≡ 0 = omega arith in rw e

push_short :
    (xs : List NotificationItem) (y : NotificationItem)
    → length xs < max_visible
    → push xs y ≡ xs ++ y ∷ []
unfolding push
push_short xs y h = ground (arith, length-append xs (y ∷ []))

push_full :
    (xs : List NotificationItem) (y : NotificationItem)
    → length xs ≡ max_visible
    → push xs y ≡ drop 1 (xs ++ y ∷ [])
unfolding push slice_last
push_full xs y h =
    let e : length (xs ++ y ∷ []) ≡ 6 = omega (arith, length-append xs (y ∷ [])) in rw e

slice_last_concat :
    (n : ℕ) (xs : List NotificationItem) (y : NotificationItem)
    → n ≤ length xs
    → slice_last n (xs ++ y ∷ []) ≡ drop 1 (slice_last n xs ++ y ∷ [])
unfolding slice_last
slice_last_concat n xs y h =
    let e : length (xs ++ y ∷ []) - n ≡ suc (length xs - n) =
      omega (arith, length-append xs (y ∷ [])) in
    rw (
      e,
      ← drop-drop_one (length xs - n) (xs ++ y ∷ []),
      drop-append (length xs - n) xs (y ∷ []) (omega arith),
    )

length-slice_last :
    (n : ℕ) (xs : List NotificationItem) → n ≤ length xs → length (slice_last n xs) ≡ n
unfolding slice_last
length-slice_last n xs h = omega (arith, length-drop (length xs - n) xs)

push-slice_last :
    (xs : List NotificationItem) (y : NotificationItem)
    → push (slice_last max_visible xs) y ≡ slice_last max_visible (xs ++ y ∷ [])
push-slice_last xs y = elim (dec_le 5 (length xs)) [
  | yes h ↦
      push_full (slice_last 5 xs) y (length-slice_last 5 xs h) ∙ sym (slice_last_concat 5 xs y h)
  | no h ↦
      rw
        (
          slice_last_all 5 xs (omega arith),
          slice_last_all 5 (xs ++ y ∷ []) (omega (arith, length-append xs (y ∷ []))),
        )
        (push_short xs y (omega arith))
]

-- `addNotification` for each of the items in turn.
unfoldable pub push_all : List NotificationItem → List NotificationItem → List NotificationItem
push_all shown [] = shown
push_all shown (item ∷ items) = push_all (push shown item) items

push_all-slice_last :
    (old items : List NotificationItem)
    → push_all (slice_last max_visible old) items ≡ slice_last max_visible (old ++ items)
unfolding push_all
push_all-slice_last old [] = rw append-nil
push_all-slice_last old (item ∷ items) = rw push-slice_last (
    push_all-slice_last (old ++ item ∷ []) items
    ∙ ap (slice_last 5) (append_assoc old (item ∷ []) items))

-- Whatever was notified since the list was empty, and nothing dismissed, the list shows the last
-- five notifications in their order, or all of them where they are fewer.
pub push_all-eq-slice_last :
    (items : List NotificationItem) → push_all [] items ≡ slice_last max_visible items
unfolding slice_last
push_all-eq-slice_last items = push_all-slice_last [] items

-- What the user asks for and what the program shows.
pub data Request : Type 0 where
  add : NotificationItem → ℕ → Request
  close : String → Request
  close_all : Request

unfoldable pub serve : Request → NotifyService → NotifyService
unfolding add_notification dismiss_notification dismiss_all
serve (add item duration) s = add_notification item duration s
serve (close id) s = dismiss_notification id s
serve close_all s = dismiss_all s

unfoldable pub serve_all : List Request → NotifyService → NotifyService
unfolding serve
serve_all [] s = s
serve_all (r ∷ rs) s = serve_all rs (serve r s)

push-length : (xs : List NotificationItem) (y : NotificationItem) → length (push xs y) ≤ max_visible
unfolding push slice_last
push-length xs y = ground (arith, length-drop (length (xs ++ y ∷ []) - 5) (xs ++ y ∷ []))

serve-length :
    (r : Request) (s : NotifyService)
    → length s.notifications ≤ max_visible
    → length (serve r s).notifications ≤ max_visible
unfolding serve without
serve-length (add item duration) s h = push-length s.notifications item
serve-length (close id) s h = omega (arith, length-filter {A = NotificationItem})
serve-length close_all s h = omega arith

-- From at most five notifications, any requests leave at most five.
pub serve_all-bounded :
    (rs : List Request) (s : NotifyService)
    → length s.notifications ≤ max_visible
    → length (serve_all rs s).notifications ≤ max_visible
unfolding serve_all
serve_all-bounded [] s h = h
serve_all-bounded (r ∷ rs) s h = serve_all-bounded rs (serve r s) (serve-length r s h)
