-- ===== src/Log/Stream.antt =====
-- Opening and closing the drawer, and the stream that its lines come from.
use hdns.Prelude.{
  ℕ, suc, ◌≡◌, refl, Bool, true, false, String, Option, none, some, List, [], ◌∷◌, ◌++◌, ◌==◌,
  if◌then◌else◌, get_or, take, arith, Bool-cases, inl, inr,
}
use hdns.Prelude.IdSet.{delete}
use hdns.Model.Messages.{Line}
use hdns.Log.Lines.{max_lines, on_line, newest_first, take-take_cons, newest_first-append}

-- What the drawer does to the rest of the program. `send` goes to the stream of that number.
pub data Effect : Type 0 where
  open_drawer close_drawer : Effect
  send : ℕ → Effect
  error : String → Effect

-- A stream is known by the number of the call of `streamLog` that made it, and a subscription by
-- its stream. `open_streams` has the streams that were made and not closed.
pub record LogDrawer (A : Type 0) : Type 0 where
  pub stream : Option ℕ
  pub messages_sub : Option ℕ
  pub lines : List A
  pub streams_made : ℕ
  pub open_streams : List ℕ
  pub effects : List Effect

abbrev close_stream : Option ℕ → List ℕ → List ℕ
close_stream none open_streams = open_streams
close_stream (some i) open_streams = delete open_streams i

-- What a stream reports reaches the drawer by its subscription.
abbrev is_heard : ℕ → Option ℕ → Bool
is_heard i none = false
is_heard i (some j) = i == j

abbrev pub new_log : {A : Type 0} → LogDrawer A
new_log = record {
  stream = none;
  messages_sub = none;
  lines = [];
  streams_made = 0;
  open_streams = [];
  effects = [];
}

abbrev held : Option ℕ → List ℕ
held none = []
held (some i) = i ∷ []

close_stream-held : (stream : Option ℕ) → close_stream stream (held stream) ≡ []
unfolding delete
close_stream-held none = refl
close_stream-held (some i) = ground arith

module _ {A : Type 0} where
  abbrev emit : Effect → LogDrawer A → LogDrawer A
  emit e s = record s { effects = s.effects ++ e ∷ [] }

  unfoldable pub cleanup_stream : LogDrawer A → LogDrawer A
  cleanup_stream s = record s {
    messages_sub = none;
    open_streams = close_stream s.stream s.open_streams;
    stream = none;
  }

  unfoldable pub open_log : LogDrawer A → LogDrawer A
  unfolding cleanup_stream
  open_log s =
      let t = cleanup_stream (emit open_drawer (record s { lines = [] })) in
      emit (send t.streams_made) (record t {
        stream = some t.streams_made;
        messages_sub = some t.streams_made;
        streams_made = suc t.streams_made;
        open_streams = t.open_streams ++ t.streams_made ∷ [];
      })

  unfoldable pub close_log : LogDrawer A → LogDrawer A
  unfolding cleanup_stream
  close_log s = cleanup_stream (record (emit close_drawer s) { lines = [] })

  unfoldable pub on_destroy : LogDrawer A → LogDrawer A
  unfolding cleanup_stream
  on_destroy s = cleanup_stream s

module _ {A : Type 0} (parse : String → A) where
  unfoldable pub on_message : ℕ → Line → LogDrawer A → LogDrawer A
  unfolding on_line
  on_message i entry s =
      if is_heard i s.messages_sub then record s { lines = on_line parse entry s.lines } else s

  unfoldable pub on_error : ℕ → LogDrawer A → LogDrawer A
  on_error i s =
      if is_heard i s.messages_sub
      then emit close_drawer (emit (error "Failed to stream log") s)
      else s

  -- The runs, with the messages that the present stream has sent: the user opens and closes the
  -- drawer, the page is left, and streams report, also those that are closed.
  pub data Run : List Line → LogDrawer A → Type 0 where
    start : Run [] new_log
    opens : {es : List Line} {s : LogDrawer A} → Run es s → Run [] (open_log s)
    closes : {es : List Line} {s : LogDrawer A} → Run es s → Run [] (close_log s)
    leaves : {es : List Line} {s : LogDrawer A} → Run es s → Run es (on_destroy s)
    hears :
        {es : List Line} {s : LogDrawer A} (i : ℕ) (entry : Line)
        → Run es s
        → is_heard i s.messages_sub ≡ true
        → Run (es ++ entry ∷ []) (on_message i entry s)
    misses :
        {es : List Line} {s : LogDrawer A} (i : ℕ) (entry : Line)
        → Run es s
        → is_heard i s.messages_sub ≡ false
        → Run es (on_message i entry s)
    fails : {es : List Line} {s : LogDrawer A} (i : ℕ) → Run es s → Run es (on_error i s)

  -- What the drawer shows and holds, where its stream has sent these messages.
  pub record Shows (es : List Line) (s : LogDrawer A) : Type 0 where
    pub shown : s.lines ≡ take max_lines (newest_first parse es)
    pub streams : s.open_streams ≡ held s.stream
    pub subscribed : s.messages_sub ≡ s.stream

  on_error-Shows : (i : ℕ) (es : List Line) (s : LogDrawer A) → Shows es s → Shows es (on_error i s)
  unfolding on_error
  on_error-Shows i es s h = elim (Bool-cases (is_heard i s.messages_sub)) [
    | inl e ↦ rw e (record { shown = h.shown; streams = h.streams; subscribed = h.subscribed })
    | inr e ↦ rw e h
  ]

  on_line-Shows :
      (entry : Line) (es : List Line) (lines : List A)
      → lines ≡ take max_lines (newest_first parse es)
      → on_line parse entry lines ≡ take max_lines (newest_first parse (es ++ entry ∷ []))
  unfolding on_line
  on_line-Shows entry es lines h =
      let p = parse (get_or entry.line "") in
      rw (h, newest_first-append parse es entry)
        (take-take_cons parse max_lines p (newest_first parse es))

  -- In every run the drawer shows the last 800 of the messages that the stream has sent since the
  -- drawer was opened or closed last, the newest first and none of an older stream; it keeps one
  -- stream open at most, the one that it holds, and is subscribed to that stream alone.
  pub Run-Shows : (es : List Line) (s : LogDrawer A) → Run es s → Shows es s
  unfolding open_log close_log on_destroy cleanup_stream on_message
  Run-Shows es s start = record { shown = refl; streams = refl; subscribed = refl }
  Run-Shows es s (opens {es = es'} {s = t} r) =
      let h = Run-Shows es' t r in
      record {
        shown = refl;
        streams = rw h.streams (rw (close_stream-held t.stream) refl);
        subscribed = refl;
      }
  Run-Shows es s (closes {es = es'} {s = t} r) =
      let h = Run-Shows es' t r in
      record {
        shown = refl;
        streams = rw (h.streams, close_stream-held t.stream) refl;
        subscribed = refl;
      }
  Run-Shows es s (leaves {s = t} r) =
      let h = Run-Shows es t r in
      record {
        shown = h.shown;
        streams = rw (h.streams, close_stream-held t.stream) refl;
        subscribed = refl;
      }
  Run-Shows es s (hears {es = es'} {s = t} i entry r e) =
      let h = Run-Shows es' t r in
      rw e (record {
        shown = on_line-Shows entry es' t.lines h.shown;
        streams = h.streams;
        subscribed = h.subscribed;
      })
  Run-Shows es s (misses {s = t} i entry r e) = let h = Run-Shows es t r in rw e h
  Run-Shows es s (fails {s = t} i r) = on_error-Shows i es t (Run-Shows es t r)
