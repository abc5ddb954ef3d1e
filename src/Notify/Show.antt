-- ===== src/Notify/Show.antt =====
-- `message` and `error` of notify.service.ts, with the identifier that `crypto.randomUUID()` makes.
use hdns.Prelude.{
  ℕ, ◌-◌, ◌≤◌, ◌≡◌, refl, String, Option, none, List, [], ◌∷◌, ◌++◌, arith, ltb, Bool-cases, inl,
  inr, length, drop, length-append, drop-append,
}
use hdns.Notify.{
  NotificationKind, NotificationItem, NotifyService, max_visible, slice_last, push,
  add_notification,
}
use hdns.Notify.Extract.{extract_error_message}

abbrev pub message_item : String → String → Option String → NotificationItem
message_item id msg title = record {
  id = id;
  kind = NotificationKind.info;
  message = msg;
  title = title;
  raw_error = none;
}

abbrev pub error_item : String → Option String → Option String → NotificationItem
error_item id msg title = record {
  id = id;
  kind = NotificationKind.error;
  message = extract_error_message msg;
  title = title;
  raw_error = msg;
}

unfoldable pub message : String → String → Option String → ℕ → NotifyService → NotifyService
unfolding add_notification
message id msg title duration s = add_notification (message_item id msg title) duration s

unfoldable pub error : String → Option String → Option String → ℕ → NotifyService → NotifyService
unfolding add_notification
error id msg title duration s = add_notification (error_item id msg title) duration s

drop-length :
    (xs : List NotificationItem) (y : NotificationItem) → drop (length xs) (xs ++ y ∷ []) ≡ y ∷ []
drop-length [] y = refl
drop-length (x ∷ xs) y = drop-length xs y

slice_last-concat :
    (xs : List NotificationItem) (y : NotificationItem) → slice_last 1 (xs ++ y ∷ []) ≡ y ∷ []
unfolding slice_last
slice_last-concat xs y =
    let e : length (xs ++ y ∷ []) - 1 ≡ length xs = omega (arith, length-append xs (y ∷ [])) in
    rw e (drop-length xs y)

slice_last-push :
    (xs : List NotificationItem) (y : NotificationItem) → slice_last 1 (push xs y) ≡ y ∷ []
unfolding push
slice_last-push xs y = elim (Bool-cases (ltb max_visible (length (xs ++ y ∷ [])))) [
  | inl e ↦
      let n = length (xs ++ y ∷ []) - max_visible in
      let h : n ≤ length xs = omega (arith, length-append xs (y ∷ [])) in
      let shorter = drop-append n xs (y ∷ []) h in
      rw e (unfold slice_last in rw shorter (slice_last-concat (drop n xs) y))
  | inr e ↦ rw e (slice_last-concat xs y)
]

-- However many notifications there are, a new error is shown as the last one, with the message that
-- was extracted of its text, and keeps the whole text for the details; a message is shown as the
-- last one as it is.
shown_last :
    (id : String) (duration : ℕ) (title text : Option String) (msg : String) (s : NotifyService)
    → (slice_last 1 (error id text title duration s).notifications ≡ error_item id text title ∷ [])
      × (slice_last 1 (message id msg title duration s).notifications
          ≡ message_item id msg title ∷ [])
unfolding error message add_notification
shown_last id duration title text msg s = (
  slice_last-push s.notifications (error_item id text title),
  slice_last-push s.notifications (message_item id msg title),
)
