-- ===== src/Api/Stream/Sends.antt =====
-- Where the messages of the client go in the runs of a stream.
use hdns.Prelude.{ℕ, ◌≡◌, refl, Bool, Option, List, [], ◌∷◌, ◌++◌, map}
use hdns.Api.Stream.{send}
use hdns.Api.Stream.Runs.{Settings, Phase, live, Pipe, Run}
use hdns.Api.Stream.Held.{Held, held_idle, held_live, held_waiting, held_over}
use hdns.Api.Stream.Sockets.{Run-Holds}

-- The socket of a live stream, and what it is given.
abbrev pub delivered : {A : Type 0} → Phase → A → List (ℕ × A)
delivered (live i) msg = (i, msg) ∷ []
delivered _ msg = []

feeding-delivered :
    {A : Type 0} (phase : Phase) (ws : Option ℕ) (feeding sockets : List ℕ) (completed : Bool)
    (msg : A)
    → Held phase ws feeding sockets completed
    → map (λ i. (i, msg)) feeding ≡ delivered phase msg
feeding-delivered _ _ _ _ completed msg held_idle = refl
feeding-delivered _ _ _ _ _ msg (held_live i) = refl
feeding-delivered _ _ _ _ _ msg (held_waiting d) = refl
feeding-delivered _ _ _ _ completed msg held_over = refl

-- After every run, a message that the client sends goes once, to the socket of the stream, where it is live,
-- and is lost where it is not.
pub Run-sends :
    {A : Type 0} (settings : Settings) (p : Pipe A) (msg : A)
    → Run settings p
    → (send msg p.stream).sent ≡ p.stream.sent ++ delivered p.phase msg
unfolding send
Run-sends settings p msg r =
    let s = p.stream in
    rw
      (← feeding-delivered p.phase s.current_ws s.feeding p.sockets s.completed msg
        (Run-Holds settings p r))
      refl
