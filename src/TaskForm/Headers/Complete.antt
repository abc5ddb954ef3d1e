-- ===== src/TaskForm/Headers/Complete.antt =====
-- Header rows that pass the validation are all sent, each once.
use hdns.Prelude.{
  ◌≡◌, sym, ap, subst, ◌∙◌, String, Bool, true, false, ◌&&◌, ◌||◌, none, some, List, [], ◌∷◌, ◌++◌,
  str_eq, arith, any, All-append, Bool-cases, inl, inr,
}
use text.Mathlib.TextPositions.{eq_refl}
use mathlib.Core.Bool.{true≢false}
use mathlib.Core.List.{append_assoc, append-nil}
use hdns.TaskForm.Headers.{
  HeaderRow, cell, is_empty, has, add, ValidationErrors, scan, validate_header_rows, set_header,
  collect,
}
use hdns.TaskForm.Headers.Distinct.{
  filled, Seen, Seen-IsFresh, Seen-add, incomplete-scan, duplicate_stays, half_filled,
}
use hdns.TaskForm.Headers.Order.{in_property_order, put_property-new}

-- One row of each loop, by what its cells hold.
module _ (row : HeaderRow) (rows : List HeaderRow) where
  abbrev lacking : Bool
  lacking = is_empty (cell row.key) || is_empty (cell row.value)

  abbrev blank : Bool
  blank = is_empty (cell row.key) && is_empty (cell row.value)

  collect-lacking :
      (acc : List (String × String)) → lacking ≡ true → collect (row ∷ rows) acc ≡ collect rows acc
  unfolding collect
  collect-lacking acc h = ground arith

  collect-full :
      (acc : List (String × String))
      → lacking ≡ false
      → collect (row ∷ rows) acc ≡ collect rows (set_header (cell row.key) (cell row.value) acc)
  unfolding collect
  collect-full acc h = ground arith

  filled-lacking : lacking ≡ true → filled (row ∷ rows) ≡ filled rows
  unfolding filled
  filled-lacking h = ground arith

  filled-proto : str_eq (cell row.key) "__proto__" ≡ true → filled (row ∷ rows) ≡ filled rows
  unfolding filled
  filled-proto h = ground arith

  filled-full :
      lacking ≡ false
      → str_eq (cell row.key) "__proto__" ≡ false
      → filled (row ∷ rows) ≡ (cell row.key, cell row.value) ∷ filled rows
  unfolding filled
  filled-full h p = ground arith

  module _ (lower : String → String) (used : List String) (e : ValidationErrors) where
    scan-blank : blank ≡ true → scan lower (row ∷ rows) used e ≡ scan lower rows used e
    unfolding scan
    scan-blank h = rw h

    scan-half :
        blank ≡ false
        → lacking ≡ true
        → scan lower (row ∷ rows) used e ≡ scan lower rows used (record e { incomplete = true })
    unfolding scan
    scan-half h l = rw (h, l)

    scan-full :
        lacking ≡ false
        → scan lower (row ∷ rows) used e
          ≡ scan lower rows
              (add used (lower (cell row.key)))
              (record e { duplicate = e.duplicate || has used (lower (cell row.key)) })
    unfolding scan
    scan-full l = let b : blank ≡ false = ground arith in rw (b, l)

module _ (lower : String → String) where
  -- The scan of the rows has found nothing to complain of.
  abbrev IsClean : ValidationErrors → Type 0
  IsClean e = (e.incomplete ≡ false) × (e.duplicate ≡ false)

  set_header-new :
      (used : List String) (k v : String) (hs : List (String × String))
      → Seen lower used hs
      → has used (lower k) ≡ false
      → str_eq k "__proto__" ≡ false
      → set_header k v (in_property_order hs) ≡ in_property_order (hs ++ (k, v) ∷ [])
  unfolding set_header
  set_header-new used k v hs s h p =
      rw p (put_property-new k v hs (Seen-IsFresh lower used k hs s h))

  set_header-proto :
      (k v : String) (hs : List (String × String))
      → str_eq k "__proto__" ≡ true
      → set_header k v hs ≡ hs
  unfolding set_header
  set_header-proto k v hs p = rw p

  has-add_self : (used : List String) (k : String) → has (add used k) k ≡ true
  unfolding has
  has-add_self used k = rw eq_refl (ground arith)

  Seen-concat :
      (used : List String) (k v : String) (hs : List (String × String))
      → Seen lower used hs
      → Seen lower (add used (lower k)) (hs ++ (k, v) ∷ [])
  Seen-concat used k v hs s =
      All-append (λ (h : String × String). has (add used (lower k)) (lower h.0) ≡ true) hs
        ((k, v) ∷ []) (Seen-add lower used (lower k) hs s) (has-add_self used (lower k), tt)

  collect-filled :
      (rows : List HeaderRow) (used : List String) (acc : List (String × String))
      (e : ValidationErrors)
      → Seen lower used acc
      → IsClean (scan lower rows used e)
      → collect rows (in_property_order acc) ≡ in_property_order (acc ++ filled rows)
  unfolding collect filled
  collect-filled [] used acc e s h = ap in_property_order (sym (append-nil acc))
  collect-filled (row ∷ rows) used acc e s h = elim (Bool-cases (lacking row rows)) [
    | inl l ↦ elim (Bool-cases (blank row rows)) [
      | inl b ↦
          collect-lacking row rows (in_property_order acc) l
          ∙ collect-filled rows used acc e s (subst IsClean (scan-blank row rows lower used e b) h)
          ∙ ap (λ l. in_property_order (acc ++ l)) (sym (filled-lacking row rows l))
      | inr b ↦
          let g = subst IsClean (scan-half row rows lower used e b l) h in
          absurd (
            true≢false
              (sym (incomplete-scan lower rows used (record e { incomplete = true })) ∙ g.0))
    ]
    | inr l ↦
        let k = cell row.key in
        let v = cell row.value in
        let e' : ValidationErrors = record e { duplicate = e.duplicate || has used (lower k) } in
        let g : IsClean (scan lower rows (add used (lower k)) e') =
          subst IsClean (scan-full row rows lower used e l) h in
        let d : (e.duplicate || has used (lower k)) ≡ false =
          duplicate_stays lower rows (add used (lower k)) e' g.1 in
        let fresh : has used (lower k) ≡ false = ground arith in
        elim (Bool-cases (str_eq k "__proto__")) [
          | inl p ↦
              collect-full row rows (in_property_order acc) l
              ∙ ap (collect rows) (set_header-proto k v (in_property_order acc) p)
              ∙ collect-filled rows (add used (lower k)) acc e'
                  (Seen-add lower used (lower k) acc s) g
              ∙ ap (λ l. in_property_order (acc ++ l)) (sym (filled-proto row rows p))
          | inr p ↦
              let new = set_header-new used k v acc s fresh p in
              collect-full row rows (in_property_order acc) l
              ∙ ap (collect rows) new
              ∙ collect-filled rows (add used (lower k)) (acc ++ (k, v) ∷ []) e'
                  (Seen-concat used k v acc s) g
              ∙ ap in_property_order (append_assoc acc ((k, v) ∷ []) (filled rows))
              ∙ ap (λ l. in_property_order (acc ++ l)) (sym (filled-full row rows l p))
        ]
  ]

  -- Rows that pass the validation are sent completely: the headers are the rows with a key and a
  -- value, without the white space around them, and none has overwritten another. They stand as
  -- JavaScript lists properties: those whose key is an array index first, sorted by it, then the
  -- others in the order of the rows. Rows with the key `__proto__` are left out.
  pub valid-collect :
      (rows : List HeaderRow)
      → validate_header_rows lower rows ≡ none
      → collect rows [] ≡ in_property_order (filled rows)
  unfolding validate_header_rows in_property_order
  valid-collect rows h =
      collect-filled rows [] [] (record { incomplete = false; duplicate = false }) tt
        (ground arith, ground arith)

  -- The validation complains of incomplete rows exactly if some row has a key and no value, or a
  -- value and no key.
  pub incomplete_exact :
      (rows : List HeaderRow)
      → (elim (validate_header_rows lower rows) [ none ↦ false | some e ↦ e.incomplete ])
        ≡ any (half_filled lower) rows
  unfolding validate_header_rows
  incomplete_exact rows =
      ground
        (arith, incomplete-scan lower rows [] (record { incomplete = false; duplicate = false }))
