-- ===== src/RecordsTable/Resolved.antt =====
-- Which of the resolved addresses the table shows.
use hdns.Prelude.{
  ◌≡◌, refl, String, Option, none, some, List, [], ◌∷◌, ◌++◌, get_or, str_eq, filter, Bool-cases,
  inl, inr,
}
use hdns.Model.Messages.{Resolution}
use hdns.RecordsTable.Loading.{pick_resolved_address, first_address}

-- The addresses of all answers, in their order.
unfoldable pub all_addresses : List Resolution → List String
all_addresses [] = []
all_addresses (r ∷ rs) = get_or r.addresses [] ++ all_addresses rs

-- The answers that have no error.
abbrev pub sound : List Resolution → List Resolution
sound rs = filter (λ r. str_eq r.error "") rs

abbrev pub first_or_empty : List String → String
first_or_empty [] = ""
first_or_empty (a ∷ as') = a

first_address-append :
    (addresses : Option (List String)) (rest : List String)
    → get_or (first_address addresses) (first_or_empty rest)
      ≡ first_or_empty (get_or addresses [] ++ rest)
first_address-append none rest = refl
first_address-append (some []) rest = refl
first_address-append (some (a ∷ as')) rest = refl

-- The table shows the first of all the addresses in the answers without an error, whichever answer
-- has it, and no text where there is none.
pub pick_resolved_address-first :
    (rs : List Resolution) → pick_resolved_address rs ≡ first_or_empty (all_addresses (sound rs))
unfolding pick_resolved_address all_addresses
pick_resolved_address-first [] = refl
pick_resolved_address-first (r ∷ rs) = elim (Bool-cases (str_eq r.error "")) [
  | inl e ↦
      rw (e, pick_resolved_address-first rs)
        (first_address-append r.addresses (all_addresses (sound rs)))
  | inr e ↦ rw e (pick_resolved_address-first rs)
]
