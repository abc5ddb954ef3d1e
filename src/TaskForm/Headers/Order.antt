-- ===== src/TaskForm/Headers/Order.antt =====
-- The properties of an object that was filled with distinct keys.
use hdns.Prelude.{
  ℕ, ◌≡◌, refl, ap, sym, ◌∙◌, ◌⊎◌, String, Bool, true, false, not, Option, none, some, List, [],
  ◌∷◌, ◌++◌, get_or, ltb, str_eq, filter, All, All-append, if◌then◌else◌, Bool-cases, inl, inr,
  arith,
}
use mathlib.Core.List.{append_assoc}
use hdns.Prelude.Objects.{array_index, put_property}

abbrev Property : Type 0
Property = String × String

abbrev is_some : Option ℕ → Bool
is_some none = false
is_some (some n) = true

abbrev pub is_index : Property → Bool
is_index p = is_some (array_index p.0)

abbrev pub is_name : Property → Bool
is_name p = not (is_index p)

abbrev pub index_of : Property → ℕ
index_of p = get_or (array_index p.0) 0

-- Sorting by the index: each in front of the first that has a larger one.
unfoldable pub insert_by_index : Property → List Property → List Property
insert_by_index p [] = p ∷ []
insert_by_index p (q ∷ qs) =
    let rest = insert_by_index p qs in
    if ltb (index_of p) (index_of q) then p ∷ q ∷ qs else q ∷ rest

unfoldable pub sort_by_index : List Property → List Property → List Property
unfolding insert_by_index
sort_by_index sorted [] = sorted
sort_by_index sorted (p ∷ ps) = sort_by_index (insert_by_index p sorted) ps

-- The order of an object's properties: the array indices first and sorted, then the other names as
-- they came.
unfoldable pub in_property_order : List Property → List Property
unfolding sort_by_index
in_property_order ps = sort_by_index [] (filter is_index ps) ++ filter is_name ps

module _ (P : Property → Type 0) where
  All-filter : (f : Property → Bool) (ps : List Property) → All P ps → All P (filter f ps)
  All-filter f [] h = tt
  All-filter f (p ∷ ps) h = elim (Bool-cases (f p)) [
    | inl e ↦ rw e (h.0, All-filter f ps h.1)
    | inr e ↦ rw e (All-filter f ps h.1)
  ]

  All-insert_by_index :
      (p : Property) (ps : List Property) → P p → All P ps → All P (insert_by_index p ps)
  unfolding insert_by_index
  All-insert_by_index p [] a h = (a, tt)
  All-insert_by_index p (q ∷ qs) a h = elim (Bool-cases (ltb (index_of p) (index_of q))) [
    | inl e ↦ rw e (a, h)
    | inr e ↦ rw e (h.0, All-insert_by_index p qs a h.1)
  ]

  All-sort_by_index :
      (sorted ps : List Property) → All P sorted → All P ps → All P (sort_by_index sorted ps)
  unfolding sort_by_index
  All-sort_by_index sorted [] a h = a
  All-sort_by_index sorted (p ∷ ps) a h =
      All-sort_by_index (insert_by_index p sorted) ps (All-insert_by_index p sorted h.0 a) h.1

  All-in_property_order : (ps : List Property) → All P ps → All P (in_property_order ps)
  unfolding in_property_order
  All-in_property_order ps h =
      All-append P (sort_by_index [] (filter is_index ps)) (filter is_name ps)
        (All-sort_by_index [] (filter is_index ps) tt (All-filter is_index ps h))
        (All-filter is_name ps h)

All-filter_self : (f : Property → Bool) (ps : List Property) → All (λ p. f p ≡ true) (filter f ps)
All-filter_self f [] = tt
All-filter_self f (p ∷ ps) = elim (Bool-cases (f p)) [
  | inl e ↦ rw e (e, All-filter_self f ps)
  | inr e ↦ rw e (All-filter_self f ps)
]

filter-concat :
    (f : Property → Bool) (ps : List Property) (p : Property)
    → filter f (ps ++ p ∷ []) ≡ (if f p then filter f ps ++ p ∷ [] else filter f ps)
filter-concat f [] p = refl
filter-concat f (q ∷ ps) p = elim (Bool-cases (f q)) [
  | inl e ↦ rw (e, filter-concat f ps p) (ground arith)
  | inr e ↦ rw (e, filter-concat f ps p) refl
]

sort_by_index-concat :
    (sorted ps : List Property) (p : Property)
    → sort_by_index sorted (ps ++ p ∷ []) ≡ insert_by_index p (sort_by_index sorted ps)
unfolding sort_by_index
sort_by_index-concat sorted [] p = refl
sort_by_index-concat sorted (q ∷ ps) p = sort_by_index-concat (insert_by_index q sorted) ps p

-- No property has the key.
abbrev pub IsFresh : String → List Property → Type 0
IsFresh k ps = All (λ p. str_eq p.0 k ≡ false) ps

index-cases : (o : Option ℕ) → (o ≡ none) ⊎ ((a : ℕ) × (o ≡ some a))
index-cases none = inl refl
index-cases (some a) = inr (a, refl)

module _ (k v : String) where
  put_name :
      (ps : List Property)
      → array_index k ≡ none
      → IsFresh k ps
      → put_property k v ps ≡ ps ++ (k, v) ∷ []
  unfolding put_property
  put_name [] n h = refl
  put_name ((j, w) ∷ ps) n h = rw (h.0, n) (ap (λ l. (j, w) ∷ l) (put_name ps n h.1))

  put_index :
      (a : ℕ) (indices names : List Property)
      → array_index k ≡ some a
      → All (λ p. is_index p ≡ true) indices
      → All (λ p. is_name p ≡ true) names
      → IsFresh k (indices ++ names)
      → put_property k v (indices ++ names) ≡ insert_by_index (k, v) indices ++ names
  unfolding put_property insert_by_index
  put_index a [] [] e i n h = refl
  put_index a [] ((j, w) ∷ names) e i n h = elim (index-cases (array_index j)) [
    | inl m ↦ rw (h.0, e, m) refl
    | inr (b, m) ↦ absurd (ground (arith, n.0, m))
  ]
  put_index a ((j, w) ∷ indices) names e i n h = elim (index-cases (array_index j)) [
    | inl m ↦ absurd (ground (arith, i.0, m))
    | inr (b, m) ↦ elim (Bool-cases (ltb a b)) [
      | inl l ↦ rw (h.0, e, m, l) refl
      | inr l ↦ rw (h.0, e, m, l) (ap (λ l. (j, w) ∷ l) (put_index a indices names e i.1 n h.1))
    ]
  ]

  -- A new property takes its place in the order.
  pub put_property-new :
      (ps : List Property)
      → IsFresh k ps
      → put_property k v (in_property_order ps) ≡ in_property_order (ps ++ (k, v) ∷ [])
  unfolding in_property_order
  put_property-new ps h =
      let indices = sort_by_index [] (filter is_index ps) in
      let names = filter is_name ps in
      let fresh : IsFresh k (indices ++ names) =
        All-in_property_order (λ p. str_eq p.0 k ≡ false) ps h in
      elim (index-cases (array_index k)) [
        | inl n ↦
            put_name (indices ++ names) n fresh
            ∙ append_assoc indices names ((k, v) ∷ [])
            ∙ rw (filter-concat is_index ps (k, v), filter-concat is_name ps (k, v), n) refl
        | inr (a, e) ↦
            put_index a indices names e
              (All-sort_by_index (λ p. is_index p ≡ true) [] (filter is_index ps) tt
                (All-filter_self is_index ps))
              (All-filter_self is_name ps) fresh
            ∙ rw (filter-concat is_index ps (k, v), filter-concat is_name ps (k, v), e)
                (ap (λ l. l ++ names) (sym (sort_by_index-concat [] (filter is_index ps) (k, v))))
      ]
