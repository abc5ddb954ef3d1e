-- ===== src/Notify/Tests.antt =====
-- The theorems on the notifications at concrete inputs.
use hdns.Prelude.{
  ◌≡◌, ◌≤◌, refl, String, List, [], ◌∷◌, ◌++◌, length, none, some, arith, trim, is_space, is_blank,
}
use hdns.Notify.{
  NotificationKind, NotificationItem, NotifyService, init, slice_last, add_notification,
}
use hdns.Notify.Extract.{extract_error_message, one_line}
use hdns.Notify.Extract.Details.{extract-details}
use hdns.Notify.Queue.{push_all, push_all-eq-slice_last, serve_all, serve_all-bounded, add, close}
use hdns.Notify.Show.{}
use hdns.Notify.Timers
use hdns.Notify.Timers.{fire, Run-clears}
use hdns.Notify.Loading
use hdns.Notify.Loading.{Client, IsCounted, idle, intercept, finish, Run-IsCounted}

extract-details_example :
    extract_error_message (some "api.go:12 | failed [10 | token | expired]")
    ≡ "failed: token | expired"
unfolding trim is_space is_blank one_line extract_error_message
extract-details_example =
    extract-details "[" "]" refl refl " " "|" refl refl "api.go:12" " failed "
      "10 | token | expired" (ground arith) refl (ground arith) (λ e. cc) refl

abbrev notification : String → NotificationItem
notification id = record {
  id = id;
  kind = NotificationKind.info;
  message = "done";
  title = none;
  raw_error = none;
}

abbrev six : List NotificationItem
six =
    notification "1"
    ∷ notification "2"
    ∷ notification "3"
    ∷ notification "4"
    ∷ notification "5"
    ∷ notification "6"
    ∷ []

push_all-eq-slice_last_example : push_all [] six ≡ slice_last 5 six
push_all-eq-slice_last_example = push_all-eq-slice_last six

serve_all-bounded_example :
    length (serve_all (add (notification "1") 5000 ∷ close "1" ∷ []) init).notifications ≤ 5
serve_all-bounded_example =
    serve_all-bounded (add (notification "1") 5000 ∷ close "1" ∷ []) init (omega arith)

abbrev second_left : Client
second_left = finish ([] ++ 2 ∷ []) (intercept 2 (intercept 1 idle))

abbrev two_requests : Loading.Run idle second_left
unfolding intercept
two_requests =
    Loading.next (Loading.next (Loading.next Loading.here (Loading.begin 1)) (Loading.begin 2))
      (Loading.finalize [] 1 (2 ∷ []) refl)

Run-IsCounted_example : IsCounted second_left
Run-IsCounted_example = Run-IsCounted two_requests

abbrev shown_once : NotifyService
shown_once = fire "1" ([] ++ []) (add_notification (notification "1") 5000 init)

abbrev shown_run : Timers.Run init shown_once
unfolding add_notification
shown_run =
    Timers.next (Timers.next Timers.here (Timers.show (notification "1") 5000 (omega arith)))
      (Timers.tick [] "1" [] refl)

Run-clears_example : shown_once.notifications ≡ []
unfolding fire
Run-clears_example = Run-clears shown_run refl
