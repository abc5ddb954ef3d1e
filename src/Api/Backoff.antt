-- ===== src/Api/Backoff.antt =====
-- The delays with which the streams of api.service.ts reconnect.
use hdns.Prelude.{ℕ, zero, suc, ◌+◌, ◌-◌, ◌*◌, ◌^◌, ◌<◌, ◌≤◌, ◌≡◌, arith, min, leb, if◌then◌else◌}
use native.Mathlib.Nat.{pow-suc}
use hdns.Api.{StreamOptions, default_options, backoff, retry_delay}

pow_pos : (n : ℕ) → 1 ≤ 2 ^ n
pow_pos zero = omega arith
pow_pos (suc n) = rw pow-suc (omega (arith, pow_pos n))

pow_mono : (m n : ℕ) → m ≤ n → 2 ^ m ≤ 2 ^ n
pow_mono zero n h = pow_pos n
pow_mono (suc m) zero h = absurd (omega arith)
pow_mono (suc m) (suc n) h = rw (pow-suc, pow-suc) (omega (arith, pow_mono m n (omega arith)))

mul_mono : (a b c : ℕ) → b ≤ c → a * b ≤ a * c
mul_mono a b c h = grind arith

backoff_mono : (opts : StreamOptions) (m n : ℕ) → m ≤ n → backoff opts m ≤ backoff opts n
unfolding backoff
backoff_mono opts m n h =
    let p =
      mul_mono opts.backoff_ms (2 ^ (m - 1)) (2 ^ (n - 1))
        (pow_mono (m - 1) (n - 1) (omega arith)) in
    omega arith

backoff_doubles :
    (opts : StreamOptions) (n : ℕ)
    → backoff opts (suc (suc n)) ≡ min opts.max_backoff_ms (2 * backoff opts (suc n))
unfolding backoff
backoff_doubles opts n =
    let e : suc (suc n) - 1 ≡ suc n = omega arith in
    let d : suc n - 1 ≡ n = omega arith in
    let p : opts.backoff_ms * (2 * 2 ^ n) ≡ 2 * (opts.backoff_ms * 2 ^ n) = grind arith in
    rw (e, d, pow-suc) (omega (arith, p))

-- Of two attempts to reconnect, counted from 1 and each with its jitter of less than 300 ms, the
-- later one waits less than the earlier one by the jitter of that at most. No attempt waits 300 ms
-- longer than the cap. And the next attempt after one waits twice as long as that one, or for the
-- cap if that is less, both taken without their jitter, and adds its own.
pub waits_grow :
    (opts : StreamOptions) (m n jitter later : ℕ)
    → m ≤ n
    → jitter < 300
    → later < 300
    → 1 ≤ m
    → (retry_delay opts m jitter ≤ retry_delay opts n later + jitter)
      × (retry_delay opts n later < opts.max_backoff_ms + 300)
      × (retry_delay opts (suc m) later
          ≡ min opts.max_backoff_ms (2 * (retry_delay opts m jitter - jitter)) + later)
unfolding retry_delay
waits_grow opts zero n jitter later h a b one = absurd (omega arith)
waits_grow opts (suc m) n jitter later h a b one =
    let grows = backoff_mono opts (suc m) n h in
    let capped : backoff opts n ≤ opts.max_backoff_ms = unfold backoff in omega arith in
    let doubles = backoff_doubles opts m in (omega arith, omega arith, omega (arith, doubles))

default_delay :
    (n random : ℕ) → retry_delay default_options (suc n) random ≡ min 10000 (1000 * 2 ^ n) + random
unfolding retry_delay backoff
default_delay n random = let e : suc n - 1 ≡ n = omega arith in rw e

-- With the default options the delays before the attempts 1 to 4 are 1, 2, 4 and 8 seconds, and
-- from the fifth on 10 seconds, each with the jitter added.
retry_schedule :
    (count random : ℕ)
    → 1 ≤ count
    → retry_delay default_options count random
      ≡ (if leb count 4 then 500 * 2 ^ count else 10000) + random
retry_schedule zero random h = absurd (omega arith)
retry_schedule (suc zero) random h = rw default_delay (omega arith)
retry_schedule (suc (suc zero)) random h = rw default_delay (omega arith)
retry_schedule (suc (suc (suc zero))) random h = rw default_delay (omega arith)
retry_schedule (suc (suc (suc (suc zero)))) random h = rw default_delay (omega arith)
retry_schedule (suc (suc (suc (suc (suc n))))) random h =
    rw default_delay (ground (arith, pow_mono 4 (suc (suc (suc (suc n)))) (omega arith)))
