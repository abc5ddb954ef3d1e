-- ===== src/AddressCard/Runs.antt =====
-- The card in all runs: what the stream reports, and what the user does.
use hdns.Prelude.{
  ℕ, suc, ◌+◌, ◌-◌, ◌≡◌, refl, sym, ap, ◌∙◌, String, Bool, true, false, not, some, List, [], ◌∷◌,
  ◌++◌, if◌then◌else◌, if_cases, arith, Bool-cases, inl, inr, subst, ◌≤◌,
}
use hdns.Model.Messages.{Address}
use hdns.RecordsTable.State.{Answer, success, failure}
use hdns.AddressCard.{
  AddressCard, Effect, send, close_stream, message, error, new_card, emit, on_connect, on_terminate,
  on_current_address, on_messages_error, leave, refresh, on_refreshed,
}

-- The number of requests that were sent by the stream.
abbrev pub sends : List Effect → ℕ
sends [] = 0
sends (send ∷ es) = suc (sends es)
sends (close_stream ∷ es) = sends es
sends (message text ∷ es) = sends es
sends (error text title ∷ es) = sends es

-- The number of times that the stream was closed.
abbrev pub closes : List Effect → ℕ
closes [] = 0
closes (send ∷ es) = closes es
closes (close_stream ∷ es) = suc (closes es)
closes (message text ∷ es) = closes es
closes (error text title ∷ es) = closes es

abbrev pub count : Bool → ℕ
count b = if b then 1 else 0

-- The runs, with the number of connections that the card heard of. The button is disabled while
-- `refreshing`, and an answer arrives where one is awaited; the card is left once.
pub data Run : ℕ → AddressCard → Type 0 where
  start : Run 0 new_card
  connects : {n : ℕ} {s : AddressCard} → Run n s → Run (count s.listening + n) (on_connect s)
  terminates : {n : ℕ} {s : AddressCard} → Run n s → Run n (on_terminate s)
  reports : {n : ℕ} {s : AddressCard} (a : Address) → Run n s → Run n (on_current_address a s)
  fails : {n : ℕ} {s : AddressCard} (text : String) → Run n s → Run n (on_messages_error text s)
  leaves : {n : ℕ} {s : AddressCard} → Run n s → s.listening ≡ true → Run n (leave s)
  clicks : {n : ℕ} {s : AddressCard} → Run n s → s.refreshing ≡ false → Run n (refresh s)
  answers :
      {n k : ℕ} {s : AddressCard} (answer : Answer Address)
      → Run n s
      → s.pending ≡ suc k
      → Run n (on_refreshed answer s)

-- `n` connections were heard of.
pub record IsServed (n : ℕ) (s : AddressCard) : Type 0 where
  pub spinner : s.pending ≡ count s.refreshing
  pub requests : sends s.effects ≡ n
  pub closed : closes s.effects ≡ count (not s.listening)

sends-append : (es : List Effect) (e : Effect) → sends (es ++ e ∷ []) ≡ sends (e ∷ []) + sends es
sends-append [] e = omega arith
sends-append (send ∷ es) e = omega (arith, sends-append es e)
sends-append (close_stream ∷ es) e = sends-append es e
sends-append (message text ∷ es) e = sends-append es e
sends-append (error text title ∷ es) e = sends-append es e

closes-append :
    (es : List Effect) (e : Effect) → closes (es ++ e ∷ []) ≡ closes (e ∷ []) + closes es
closes-append [] e = omega arith
closes-append (send ∷ es) e = closes-append es e
closes-append (close_stream ∷ es) e = omega (arith, closes-append es e)
closes-append (message text ∷ es) e = closes-append es e
closes-append (error text title ∷ es) e = closes-append es e

-- An effect that is neither a request nor the end of the stream.
quiet-IsServed :
    (n : ℕ) (s t : AddressCard) (e : Effect)
    → sends (e ∷ []) ≡ 0
    → closes (e ∷ []) ≡ 0
    → IsServed n s
    → t.pending ≡ count t.refreshing
    → t.effects ≡ s.effects ++ e ∷ []
    → t.listening ≡ s.listening
    → IsServed n t
quiet-IsServed n s t e a b h p f l = record {
  spinner = p;
  requests = rw f (omega (arith, sends-append s.effects e, a, h.requests));
  closed = rw (f, l) (omega (arith, closes-append s.effects e, b, h.closed));
}

on_connect-IsServed :
    (n : ℕ) (s : AddressCard) → IsServed n s → IsServed (count s.listening + n) (on_connect s)
unfolding on_connect
on_connect-IsServed n s h = elim (Bool-cases s.listening) [
  | inl e ↦ subst (served s) (sym e) (record {
    spinner = h.spinner;
    requests = omega (arith, sends-append s.effects send, h.requests);
    closed = omega (arith, closes-append s.effects send, h.closed);
  })
  | inr e ↦
      subst (served s) (sym e)
        (record { spinner = h.spinner; requests = omega (arith, h.requests); closed = h.closed })
]
  where
    served : AddressCard → Bool → Type 0
    served s b = IsServed (count b + n) (if b then emit send (record s { connected = true }) else s)

count_le : (b : Bool) → count b ≤ 1
count_le true = omega arith
count_le false = omega arith

on_refreshed-IsServed :
    (n k : ℕ) (answer : Answer Address) (s : AddressCard)
    → s.pending ≡ suc k
    → IsServed n s
    → IsServed n (on_refreshed answer s)
unfolding on_refreshed
on_refreshed-IsServed n k (success a) s e h =
    let m = message "Address refreshed successfully." in
    let t = emit m (record s { refreshing = false; pending = s.pending - 1 }) in
    quiet-IsServed n s t m refl refl h (omega (arith, h.spinner, count_le s.refreshing)) refl refl
on_refreshed-IsServed n k (failure f) s e h =
    let m = error f "Refresh failed" in
    let t = emit m (record s { refreshing = false; pending = s.pending - 1 }) in
    quiet-IsServed n s t m refl refl h (omega (arith, h.spinner, count_le s.refreshing)) refl refl

-- In every run in which the button is pressed while it is enabled, the card waits for one answer to
-- a refresh at most and shows that it is refreshing exactly while it waits; it has sent one request
-- for each connection that it heard of; and it has closed its stream once if it was left, else
-- never.
pub Run-IsServed : (n : ℕ) (s : AddressCard) → Run n s → IsServed n s
unfolding on_terminate on_current_address on_messages_error leave refresh
Run-IsServed n s start = record { spinner = refl; requests = refl; closed = refl }
Run-IsServed n s (connects {n = n'} {s = t} r) = on_connect-IsServed n' t (Run-IsServed n' t r)
Run-IsServed n s (terminates {s = t} r) =
    let h = Run-IsServed n t r in
    if_cases (IsServed n) t.listening (record t { connected = false }) t
      (λ e. record { spinner = h.spinner; requests = h.requests; closed = h.closed }) (λ e. h)
Run-IsServed n s (reports {s = t} a r) =
    let h = Run-IsServed n t r in
    if_cases (IsServed n) t.listening (record t { address = some a }) t
      (λ e. record { spinner = h.spinner; requests = h.requests; closed = h.closed }) (λ e. h)
Run-IsServed n s (fails {s = t} text r) =
    let h = Run-IsServed n t r in
    let e = error (some text) "Address stream error" in
    let u = emit e (record t { connected = false }) in
    if_cases (IsServed n) t.listening u t
      (λ l. quiet-IsServed n t u e refl refl h h.spinner refl refl) (λ l. h)
Run-IsServed n s (leaves {s = t} r l) =
    let h = Run-IsServed n t r in
    let c : count (not t.listening) ≡ 0 = ap (λ b. count (not b)) l in
    record {
      spinner = h.spinner;
      requests = omega (arith, sends-append t.effects close_stream, h.requests);
      closed = omega (arith, closes-append t.effects close_stream, h.closed, c);
    }
Run-IsServed n s (clicks {s = t} r e) =
    let h = Run-IsServed n t r in
    record { spinner = ap suc (h.spinner ∙ ap count e); requests = h.requests; closed = h.closed }
Run-IsServed n s (answers {k = k} {s = t} answer r e) =
    on_refreshed-IsServed n k answer t e (Run-IsServed n t r)
