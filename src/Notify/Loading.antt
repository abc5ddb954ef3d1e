-- ===== src/Notify/Loading.antt =====
-- frontend/src/app/global/interceptors/loading.interceptor.ts with the counter of
-- notify.service.ts: requests begin and end in any order.
use hdns.Prelude.{ℕ, ◌<◌, ◌≡◌, ap, true, List, [], ◌∷◌, ◌++◌, arith, length, length-append, ◌↔◌}
use hdns.Notify.{NotifyService, init, loading, dismiss}

-- The service, and the requests that `next(req)` has not finished, by numbers that tell them apart.
pub record Client : Type 0 where
  pub notify : NotifyService
  pub in_flight : List ℕ

-- The call of `loadingInterceptor`: `notify.loading(); return next(req)…`.
unfoldable pub intercept : ℕ → Client → Client
unfolding loading
intercept req c = record { notify = loading c.notify; in_flight = c.in_flight ++ req ∷ [] }

-- `finalize(() => notify.dismiss())`, when the request completes, fails or is cancelled.
unfoldable pub finish : List ℕ → Client → Client
unfolding dismiss
finish others c = record { notify = dismiss c.notify; in_flight = others }

pub data Step (c : Client) : Client → Type 0 where
  begin : (req : ℕ) → Step c (intercept req c)
  finalize :
      (before : List ℕ) (req : ℕ) (after : List ℕ)
      → c.in_flight ≡ before ++ req ∷ after
      → Step c (finish (before ++ after) c)

pub data Run (c : Client) : Client → Type 0 where
  here : Run c c
  next : {d e : Client} → Run c d → Step d e → Run c e

abbrev pub idle : Client
idle = record { notify = init; in_flight = [] }

-- The counter is the number of requests in flight, and the flag says whether there are any.
pub record IsCounted (c : Client) : Type 0 where
  pub counted : c.notify.loading_count ≡ length c.in_flight
  pub shown : (c.notify.is_loading ≡ true) ↔ (0 < length c.in_flight)

intercept-IsCounted : (req : ℕ) (c : Client) → IsCounted c → IsCounted (intercept req c)
unfolding intercept
intercept-IsCounted req c h = ground (arith, length-append c.in_flight (req ∷ []))

finish-IsCounted :
    (before : List ℕ) (req : ℕ) (after : List ℕ) (c : Client)
    → c.in_flight ≡ before ++ req ∷ after
    → IsCounted c
    → IsCounted (finish (before ++ after) c)
unfolding finish
finish-IsCounted before req after c e h =
    let n = ap length e in
    ground (arith, n, length-append before (req ∷ after), length-append before after)

Step-IsCounted : {c d : Client} → Step c d → IsCounted c → IsCounted d
Step-IsCounted {c} (begin req) h = intercept-IsCounted req c h
Step-IsCounted {c} (finalize before req after e) h = finish-IsCounted before req after c e h

-- Whatever requests have begun and ended since the client was idle, in whatever order, the counter
-- is the number of requests in flight, and the indicator is on exactly while there is one.
pub Run-IsCounted : {c : Client} → Run idle c → IsCounted c
Run-IsCounted here = ground arith
Run-IsCounted (next r s) = Step-IsCounted s (Run-IsCounted r)
