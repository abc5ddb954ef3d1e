-- ===== src/Overview/Resolve.antt =====
-- The table of resolutions: one row for each server, the latest message of the server.
use hdns.Prelude.{
  ◌≡◌, refl, String, true, false, not, Option, none, some, List, [], ◌∷◌, ◌++◌, arith, str_eq,
  eq_iff, if◌then◌else◌, filter, find, Bool-cases, inl, inr,
}
use hdns.Model.Messages.{Resolution}

-- `[...results.filter((r) => r.server !== msg.server), msg]`
unfoldable pub add_resolution : List Resolution → Resolution → List Resolution
add_resolution results msg = filter (λ r. not (str_eq r.server msg.server)) results ++ msg ∷ []

-- The messages of a stream, one after another.
unfoldable pub add_resolutions : List Resolution → List Resolution → List Resolution
unfolding add_resolution
add_resolutions results [] = results
add_resolutions results (msg ∷ msgs) = add_resolutions (add_resolution results msg) msgs

-- The row of a server.
abbrev pub row_of : String → List Resolution → Option Resolution
row_of server results = find (λ r. str_eq r.server server) results

-- The latest message of a server, or what was there before.
unfoldable pub latest : String → Option Resolution → List Resolution → Option Resolution
latest server before [] = before
latest server before (msg ∷ msgs) =
    latest server (if str_eq msg.server server then some msg else before) msgs

row_of-concat :
    (server : String) (msg : Resolution) (results : List Resolution)
    → str_eq msg.server server ≡ true
    → row_of server results ≡ none
    → row_of server (results ++ msg ∷ []) ≡ some msg
row_of-concat server msg [] e h = rw e
row_of-concat server msg (r ∷ results) e h = ground (arith, row_of-concat server msg results e)

row_of-concat_other :
    (server : String) (msg : Resolution) (results : List Resolution)
    → str_eq msg.server server ≡ false
    → row_of server (results ++ msg ∷ []) ≡ row_of server results
row_of-concat_other server msg [] e = rw e
row_of-concat_other server msg (r ∷ results) e =
    ground (arith, row_of-concat_other server msg results e)

row_of-filter_self :
    (server : String) (results : List Resolution)
    → row_of server (filter (λ r. not (str_eq r.server server)) results) ≡ none
row_of-filter_self server [] = refl
row_of-filter_self server (r ∷ results) = ground (arith, row_of-filter_self server results)

row_of-filter_other :
    (server other : String) (results : List Resolution)
    → str_eq other server ≡ false
    → row_of server (filter (λ r. not (str_eq r.server other)) results) ≡ row_of server results
row_of-filter_other server other [] e = refl
row_of-filter_other server other (r ∷ results) e = ground (
  arith,
  row_of-filter_other server other results e,
  eq_iff r.server other,
  eq_iff r.server server,
  eq_iff other server,
)

row_of-add :
    (server : String) (results : List Resolution) (msg : Resolution)
    → row_of server (add_resolution results msg)
      ≡ (if str_eq msg.server server then some msg else row_of server results)
unfolding add_resolution
row_of-add server results msg = elim (Bool-cases (str_eq msg.server server)) [
  | inl e ↦
      let same = (eq_iff msg.server server).0 e in
      rw (
        e,
        row_of-concat server msg (filter (λ r. not (str_eq r.server msg.server)) results) e
            (rw same (row_of-filter_self server results)),
      )
  | inr e ↦
      rw
        (
          e,
          row_of-concat_other server msg (filter (λ r. not (str_eq r.server msg.server)) results) e,
        )
        (row_of-filter_other server msg.server results e)
]

-- After any messages each server's row is its latest message, and a server with no message keeps
-- the row that it had.
pub row_of-add_resolutions :
    (server : String) (results msgs : List Resolution)
    → row_of server (add_resolutions results msgs) ≡ latest server (row_of server results) msgs
unfolding add_resolutions latest
row_of-add_resolutions server results [] = refl
row_of-add_resolutions server results (msg ∷ msgs) =
    rw (row_of-add_resolutions server (add_resolution results msg) msgs)
      (rw (row_of-add server results msg))
