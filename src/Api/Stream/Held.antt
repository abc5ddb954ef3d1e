-- ===== src/Api/Stream/Held.antt =====
-- The variables of a stream by its phase, one lemma for each way in which the phase changes.
use hdns.Prelude.{
  ℕ, ◌≡◌, refl, Bool, true, false, Option, none, some, List, [], ◌∷◌, ◌++◌, if◌then◌else◌, arith,
  ◌==◌,
}
use hdns.Prelude.IdSet.{delete}
use mathlib.Core.Bool.{false≢true}
use hdns.Api.Stream.Runs.{Phase, idle, live, waiting, over, Pipe}

-- `current_ws`, the sockets that are fed, and those that are not closed, by the phase; a closed stream is
-- idle or over.
pub data Held : Phase → Option ℕ → List ℕ → List ℕ → Bool → Type 0 where
  held_idle : {completed : Bool} → Held idle none [] [] completed
  held_live : (i : ℕ) → Held (live i) (some i) (i ∷ []) (i ∷ []) false
  held_waiting : (d : ℕ) → Held (waiting d) none [] [] false
  held_over : {completed : Bool} → Held over none [] [] completed

abbrev pub Holds : {A : Type 0} → Pipe A → Type 0
Holds p = Held p.phase p.stream.current_ws p.stream.feeding p.sockets p.stream.completed

pub ==_self : (i : ℕ) → (i == i) ≡ true
==_self i = ground arith

delete_self : (i : ℕ) → delete (i ∷ []) i ≡ []
unfolding delete
delete_self i = ground arith

abbrev pub is_free : Phase → Bool
is_free idle = true
is_free (waiting d) = true
is_free _ = false

abbrev pub is_idle : Phase → Bool
is_idle idle = true
is_idle _ = false

abbrev pub is_waiting : Phase → Bool
is_waiting (waiting d) = true
is_waiting _ = false

abbrev pub is_live : ℕ → Phase → Bool
is_live i (live j) = j == i
is_live i _ = false

-- Without a socket, one more is the only one.
pub start-Held :
    (phase : Phase) (ws : Option ℕ) (feeding sockets : List ℕ) (completed : Bool) (n : ℕ)
    → Held phase ws feeding sockets completed
    → is_free phase ≡ true
    → completed ≡ false
    → Held
        (live n)
        (some n)
        (if completed then feeding else feeding ++ n ∷ [])
        (sockets ++ n ∷ [])
        completed
start-Held _ _ _ _ completed n held_idle e c = rw c (held_live n)
start-Held _ _ _ _ _ n (held_live i) e c = absurd (false≢true e)
start-Held _ _ _ _ _ n (held_waiting d) e c = held_live n
start-Held _ _ _ _ completed n held_over e c = absurd (false≢true e)

pub idle-Held :
    (phase : Phase) (ws : Option ℕ) (feeding sockets : List ℕ) (completed : Bool)
    → Held phase ws feeding sockets completed
    → is_idle phase ≡ true
    → Held over ws feeding sockets completed
idle-Held _ _ _ _ completed held_idle e = held_over
idle-Held _ _ _ _ _ (held_live i) e = absurd (false≢true e)
idle-Held _ _ _ _ _ (held_waiting d) e = absurd (false≢true e)
idle-Held _ _ _ _ completed held_over e = absurd (false≢true e)

pub waiting-open :
    (phase : Phase) (ws : Option ℕ) (feeding sockets : List ℕ) (completed : Bool)
    → Held phase ws feeding sockets completed
    → is_waiting phase ≡ true
    → completed ≡ false
waiting-open _ _ _ _ completed held_idle e = absurd (false≢true e)
waiting-open _ _ _ _ _ (held_live i) e = refl
waiting-open _ _ _ _ _ (held_waiting d) e = refl
waiting-open _ _ _ _ completed held_over e = absurd (false≢true e)

-- What is left when the socket of a live stream has ended.
pub record Ended (i : ℕ) (feeding sockets : List ℕ) (completed : Bool) : Type 0 where
  pub fed : delete feeding i ≡ []
  pub left : delete sockets i ≡ []
  pub open_still : completed ≡ false

pub live-Ended :
    (phase : Phase) (ws : Option ℕ) (feeding sockets : List ℕ) (completed : Bool) (i : ℕ)
    → Held phase ws feeding sockets completed
    → is_live i phase ≡ true
    → Ended i feeding sockets completed
live-Ended _ _ _ _ completed i held_idle e = absurd (false≢true e)
live-Ended _ _ _ _ _ i (held_live j) e =
    let k : j ≡ i = ground arith in
    record { fed = rw k (delete_self i); left = rw k (delete_self i); open_still = refl }
live-Ended _ _ _ _ _ i (held_waiting d) e = absurd (false≢true e)
live-Ended _ _ _ _ completed i held_over e = absurd (false≢true e)
