-- ===== src/TaskForm/Headers/Distinct.antt =====
-- Rows that pass the validation are sent completely.
use hdns.Prelude.{
  ◌≡◌, String, Bool, true, false, not, ◌&&◌, ◌||◌, List, [], ◌∷◌, str_eq, eq_iff, if◌then◌else◌,
  arith, any, All,
}
use hdns.TaskForm.Headers.{HeaderRow, cell, is_empty, has, add, ValidationErrors, scan}
use hdns.TaskForm.Headers.Order.{IsFresh}

-- The headers that the user filled in: the rows with a key and a value, without white space around.
unfoldable pub filled : List HeaderRow → List (String × String)
filled [] = []
filled (row ∷ rows) =
    let rest = filled rows in
    if is_empty (cell row.key) || is_empty (cell row.value) || str_eq (cell row.key) "__proto__"
    then rest
    else (cell row.key, cell row.value) ∷ rest

module _ (lower : String → String) where
  -- The keys of an object's entries have been seen.
  abbrev pub Seen : List String → List (String × String) → Type 0
  Seen used hs = All (λ h. has used (lower h.0) ≡ true) hs

  pub Seen-IsFresh :
      (used : List String) (k : String) (hs : List (String × String))
      → Seen used hs
      → has used (lower k) ≡ false
      → IsFresh k hs
  Seen-IsFresh used k [] s h = tt
  Seen-IsFresh used k ((j, w) ∷ hs) s h =
      (ground (arith, eq_iff j k, s.0), Seen-IsFresh used k hs s.1 h)

  pub Seen-add :
      (used : List String) (k : String) (hs : List (String × String))
      → Seen used hs
      → Seen (k ∷ used) hs
  unfolding has
  Seen-add used k [] s = tt
  Seen-add used k (h ∷ hs) s = (rw s.0 (ground arith), Seen-add used k hs s.1)

  -- A row with a key and no value, or a value and no key.
  abbrev pub half_filled : HeaderRow → Bool
  half_filled row =
      (is_empty (cell row.key) || is_empty (cell row.value))
      && not (is_empty (cell row.key) && is_empty (cell row.value))

  pub incomplete-scan :
      (rows : List HeaderRow) (used : List String) (e : ValidationErrors)
      → (scan lower rows used e).incomplete ≡ (e.incomplete || any half_filled rows)
  unfolding scan
  incomplete-scan [] used e = ground arith
  incomplete-scan (row ∷ rows) used e =
      let n = lower (cell row.key) in
      let a = incomplete-scan rows used e in
      let b = incomplete-scan rows used (record e { incomplete = true }) in
      let c =
        incomplete-scan rows (add used n) (record e { duplicate = e.duplicate || has used n }) in
      ground (arith, a, b, c)

  pub duplicate_stays :
      (rows : List HeaderRow) (used : List String) (e : ValidationErrors)
      → (scan lower rows used e).duplicate ≡ false
      → e.duplicate ≡ false
  unfolding scan
  duplicate_stays [] used e h = h
  duplicate_stays (row ∷ rows) used e h =
      let n = lower (cell row.key) in
      let a = duplicate_stays rows used e in
      let b = duplicate_stays rows used (record e { incomplete = true }) in
      let c =
        duplicate_stays rows (add used n) (record e { duplicate = e.duplicate || has used n }) in
      ground (arith, a, b, c)
