-- ===== src/RecordsTable/Spinners.antt =====
-- The spinners of the table: what `loadingHetzner`, `loadingResolved` and `issuing` hold.
pub mod Steps
pub mod Runs
use hdns.Prelude.{
  ℕ, ◌≡◌, refl, sym, subst, String, Bool, true, false, ◌||◌, Option, List, [], ◌∷◌, ◌++◌, arith,
  get_or, ◌==◌, ==_iff, if◌then◌else◌, any,
}
use hdns.Prelude.IdSet
use hdns.Prelude.IdSet.{has, has-add, has-delete}
use hdns.Model.Messages.{Record}
use hdns.RecordsTable.Purpose.{record_does_ddns}
use hdns.RecordsTable.State.{
  Answer, success, failure, Pending, await_address, await_records, await_hetzner, await_resolved,
  await_refresh, await_issue, poll_timer, await_poll, await_delete, RecordsTable, new_table,
}

-- The continuation is one that takes the id out of the set of its spinner.
abbrev pub hetzner_for : ℕ → Pending → Bool
hetzner_for i (await_hetzner r) = r.id == i
hetzner_for i _ = false

abbrev pub resolved_for : ℕ → Pending → Bool
resolved_for i (await_resolved r) = r.id == i
resolved_for i _ = false

abbrev pub issue_for : ℕ → Pending → Bool
issue_for i (await_issue r) = r.id == i
issue_for i _ = false

any-append : (p : Pending → Bool) (xs ys : List Pending) → any p (xs ++ ys) ≡ (any p xs || any p ys)
any-append p [] ys = refl
any-append p (x ∷ xs) ys = ground (arith, any-append p xs ys)

-- Each id of the set has a continuation that will take it out.
abbrev pub Served : (ℕ → Pending → Bool) → List ℕ → List Pending → Type 0
Served p set pending = (i : ℕ) → has set i ≡ true → any (p i) pending ≡ true

module _ (p : ℕ → Pending → Bool) (set : List ℕ) where
  pub Served-wait :
      (pending : List Pending) (x : Pending)
      → Served p set pending
      → Served p set (pending ++ x ∷ [])
  Served-wait pending x h i m = ground (arith, any-append (p i) pending (x ∷ []), h i m)

  pub Served-add :
      (pending : List Pending) (x : Pending) (i : ℕ)
      → p i x ≡ true
      → Served p set pending
      → Served p (IdSet.add set i) (pending ++ x ∷ [])
  Served-add pending x i e h j m =
      ground (arith, any-append (p j) pending (x ∷ []), has-add set i j, h j)

  pub Served-other :
      (before : List Pending) (x : Pending) (after : List Pending)
      → ((i : ℕ) → p i x ≡ false)
      → Served p set (before ++ x ∷ after)
      → Served p set (before ++ after)
  Served-other before x after no_id h i m =
      ground
        (arith, any-append (p i) before (x ∷ after), any-append (p i) before after, no_id i, h i m)

  pub Served-delete :
      (before : List Pending) (x : Pending) (after : List Pending) (i : ℕ)
      → ((j : ℕ) → p j x ≡ (i == j))
      → Served p set (before ++ x ∷ after)
      → Served p (IdSet.delete set i) (before ++ after)
  Served-delete before x after i only h j m = ground (
    arith,
    any-append (p j) before (x ∷ after),
    any-append (p j) before after,
    only j,
    has-delete set i j,
    h j,
  )

-- A spinner that turns has an answer to wait for.
pub record IsServed (s : RecordsTable) : Type 0 where
  pub hetzner : Served hetzner_for s.loading_hetzner s.pending
  pub resolved : Served resolved_for s.loading_resolved s.pending
  pub issue : Served issue_for s.issuing s.pending
