-- ===== src/Api/Stream/Runs.antt =====
-- The operators of rxjs around the callbacks of `stream`, by what their documentation says, and the runs of
-- a stream.
use hdns.Prelude.{
  ℕ, suc, ◌<◌, ◌≡◌, Bool, true, false, ◌&&◌, Option, none, some, List, [], ◌∷◌, ◌++◌, if◌then◌else◌,
  ltb, ◌==◌,
}
use hdns.Prelude.IdSet.{delete}
use hdns.Api.{StreamOptions, default_options, retry_delay}
use hdns.Api.Stream.{Stream, new_stream, connect, finalize, on_open, on_close, send, close}

-- The options of `stream`; no number of retries is `Infinity`.
pub record Settings : Type 0 where
  pub reconnect : Bool
  pub max_retries : Option ℕ
  pub delays : StreamOptions

abbrev pub default_settings : Settings
default_settings = record { reconnect = true; max_retries = none; delays = default_options }

-- Nobody has subscribed; a socket is there; a timer of so many milliseconds runs; the stream is over.
pub data Phase : Type 0 where
  idle : Phase
  live : ℕ → Phase
  waiting : ℕ → Phase
  over : Phase

-- `failures` and `completions` are what `retry` and `repeat` count, `sockets` are those that are not
-- closed.
pub record Pipe (A : Type 0) : Type 0 where
  pub stream : Stream A
  pub phase : Phase
  pub failures : ℕ
  pub completions : ℕ
  pub sockets : List ℕ

-- `retry` goes on for so many failures; `repeat` subscribes so many times in all.
abbrev pub may_retry : Settings → ℕ → Bool
may_retry settings failures = elim settings.max_retries [ none ↦ true | some n ↦ ltb failures n ]

abbrev pub may_repeat : Settings → ℕ → Bool
may_repeat settings completions = elim settings.max_retries [
  | none ↦ true
  | some n ↦ ltb (suc completions) n
]

abbrev pub never_starts : Option ℕ → Bool
never_starts none = false
never_starts (some n) = n == 0

module _ {A : Type 0} where
  abbrev pub new_pipe : Pipe A
  new_pipe = record {
    stream = new_stream;
    phase = idle;
    failures = 0;
    completions = 0;
    sockets = [];
  }

  -- The source is subscribed.
  unfoldable pub start_source : Pipe A → Pipe A
  unfolding connect
  start_source p = record p {
    stream = connect p.stream;
    phase = live p.stream.made;
    sockets = p.sockets ++ p.stream.made ∷ [];
  }

  -- The source of socket `i` has ended, or is left.
  unfoldable pub end_source : ℕ → Pipe A → Pipe A
  unfolding finalize
  end_source i p = record p { stream = finalize i p.stream; sockets = delete p.sockets i }

  -- The observable has completed, and a later subscriber gets no more than that; after an error
  -- `shareReplay` is as it was before the first subscriber.
  abbrev pub complete_pipe : Pipe A → Pipe A
  complete_pipe p = record p { phase = over }

  abbrev pub reset : Pipe A → Pipe A
  reset p = record p { phase = idle; failures = 0; completions = 0 }

  -- The first subscriber comes: `repeat` with the count 0 completes at once.
  unfoldable pub subscribe_source : Settings → Pipe A → Pipe A
  unfolding start_source
  subscribe_source settings p =
      if settings.reconnect && never_starts settings.max_retries
      then complete_pipe p
      else start_source p

  -- `retry`, after an error of the socket.
  unfoldable pub on_failure : Settings → ℕ → ℕ → Pipe A → Pipe A
  unfolding end_source
  on_failure settings random i p =
      let q = end_source i p in
      let n = suc p.failures in
      if settings.reconnect && may_retry settings p.failures
      then record q { phase = waiting (retry_delay settings.delays n random); failures = n }
      else reset q

  -- `repeat`, after the socket was closed without an error; the errors are counted anew.
  unfoldable pub on_completion : Settings → ℕ → ℕ → Pipe A → Pipe A
  unfolding end_source
  on_completion settings random i p =
      let q = end_source i p in
      let n = suc p.completions in
      if settings.reconnect && may_repeat settings p.completions
      then record q {
        phase = waiting (retry_delay settings.delays n random);
        failures = 0;
        completions = n;
      }
      else complete_pipe q

  -- `takeUntil(kill$)` ends what runs.
  unfoldable pub kill : Pipe A → Pipe A
  unfolding end_source
  kill p = elim p.phase [
    | idle ↦ p
    | live i ↦ complete_pipe (end_source i p)
    | waiting d ↦ complete_pipe p
    | over ↦ p
  ]

  unfoldable pub close_pipe : Pipe A → Pipe A
  unfolding kill close
  close_pipe p = let q = kill p in record q { stream = close q.stream }

  -- The last subscriber has gone: `shareReplay` leaves the source.
  unfoldable pub leave_pipe : Pipe A → Pipe A
  unfolding end_source
  leave_pipe p = elim p.phase [
    | idle ↦ p
    | live i ↦ reset (end_source i p)
    | waiting d ↦ reset p
    | over ↦ p
  ]

  -- `resetOnSuccess`: a message comes.
  unfoldable pub on_next : Pipe A → Pipe A
  on_next p = record p { failures = 0 }

-- The runs of a stream: it is subscribed while it is not closed; a socket opens, is closed by the server
-- with or without an error, or has a message; a timer elapses; the client sends, closes or leaves.
-- `random` is the jitter.
pub data Run {A : Type 0} (settings : Settings) : Pipe A → Type 0 where
  start : Run settings new_pipe
  subscribes :
      {p : Pipe A}
      → Run settings p
      → p.phase ≡ idle
      → p.stream.completed ≡ false
      → Run settings (subscribe_source settings p)
  opens : {p : Pipe A} → Run settings p → Run settings (record p { stream = on_open p.stream })
  reports :
      {p : Pipe A} (code : ℕ)
      → Run settings p
      → Run settings (record p { stream = on_close code p.stream })
  hears : {p : Pipe A} → Run settings p → Run settings (on_next p)
  fails :
      {p : Pipe A} (i random : ℕ)
      → Run settings p
      → p.phase ≡ live i
      → random < 300
      → Run settings (on_failure settings random i p)
  completes :
      {p : Pipe A} (i random : ℕ)
      → Run settings p
      → p.phase ≡ live i
      → random < 300
      → Run settings (on_completion settings random i p)
  elapses :
      {p : Pipe A} (d : ℕ) → Run settings p → p.phase ≡ waiting d → Run settings (start_source p)
  sends :
      {p : Pipe A} (msg : A)
      → Run settings p
      → Run settings (record p { stream = send msg p.stream })
  closes : {p : Pipe A} → Run settings p → Run settings (close_pipe p)
  leaves : {p : Pipe A} → Run settings p → Run settings (leave_pipe p)
