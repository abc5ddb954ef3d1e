-- ===== src/Api/Stream.antt =====
-- frontend/src/app/global/services/api/api.service.ts, `stream`: the variables and subjects of one stream,
-- and what its callbacks do to them. The operators between the callbacks are those of rxjs: Runs has them.
pub mod Runs
pub mod Held
pub mod Sockets
pub mod Reconnects
pub mod Sends
mod Tests
use hdns.Prelude.{
  ℕ, suc, Bool, true, false, Option, none, some, List, [], ◌∷◌, ◌++◌, map, if◌then◌else◌,
}
use hdns.Prelude.IdSet.{delete}

-- What `terminate$` tells: a socket was closed, with the code, or the client closed the stream.
pub data Termination : Type 0 where
  closed_with : ℕ → Termination
  client : Termination

-- A socket is known by its number. `feeding` has the sockets to which the messages of `outgoing$` go,
-- `sent` what they were given, `connects` counts the values of `connect$`; `completed` says that `close`
-- completed the subjects.
pub record Stream (A : Type 0) : Type 0 where
  pub current_ws : Option ℕ
  pub made : ℕ
  pub feeding : List ℕ
  pub sent : List (ℕ × A)
  pub connects : ℕ
  pub terminations : List Termination
  pub completed : Bool

module _ {A : Type 0} where
  abbrev pub new_stream : Stream A
  new_stream = record {
    current_ws = none;
    made = 0;
    feeding = [];
    sent = [];
    connects = 0;
    terminations = [];
    completed = false;
  }

  -- The callback of `defer`: a new socket, to which the outgoing messages go. After `close` the subject of
  -- these is complete, and a subscription to it ends at once.
  unfoldable pub connect : Stream A → Stream A
  connect s = record s {
    current_ws = some s.made;
    made = suc s.made;
    feeding = if s.completed then s.feeding else s.feeding ++ s.made ∷ [];
  }

  -- The callback of `finalize`, for the socket that it was made with.
  unfoldable pub finalize : ℕ → Stream A → Stream A
  finalize i s = record s { current_ws = none; feeding = delete s.feeding i }

  -- `openObserver` and `closeObserver`
  unfoldable pub on_open : Stream A → Stream A
  on_open s = if s.completed then s else record s { connects = suc s.connects }

  unfoldable pub on_close : ℕ → Stream A → Stream A
  on_close code s =
      if s.completed then s else record s { terminations = s.terminations ++ closed_with code ∷ [] }

  -- A message goes to the sockets that are fed, and is dropped where there is none.
  unfoldable pub send : A → Stream A → Stream A
  send msg s = record s { sent = s.sent ++ map (λ i. (i, msg)) s.feeding }

  -- `close`, but for what `kill$` ends.
  unfoldable pub close : Stream A → Stream A
  close s =
      if s.completed
      then s
      else record s { terminations = s.terminations ++ client ∷ []; completed = true; feeding = [] }
