-- ===== src/Config/Recipients.antt =====
-- The recipients of notifications are addresses.
use hdns.Prelude.{
  ℕ, zero, suc, ◌≡◌, String, true, List, [], ◌∷◌, ◌++◌, arith, In, In-append_cases, inl, inr, subst,
  str_eq, ◌==◌, Bool-cases, trim,
}
use hdns.Prelude.Trim.{trim_idem}
use hdns.Config.Form.{
  ConfigDrawer, Field, dns_servers, ipv4_resolvers, ipv6_resolvers, notifications_recipients,
  get_list, set_list, add_to_array, is_email, add_recipient, without_index, remove_from_array,
  on_drop,
}

-- What the user does to the lists; the template adds to the recipients by `addRecipient` only.
pub data Edit : Type 0 where
  add_dns add_ipv4 add_ipv6 recipient : String → Edit
  remove : Field → ℕ → Edit
  drop : Field → ℕ → ℕ → Edit

-- Each member of a list is an address.
abbrev pub AllEmail : List String → Type 0
AllEmail xs = (a : String) → In a xs → is_email a ≡ true

abbrev pub recipients : ConfigDrawer → List String
recipients s = get_list notifications_recipients s.form

pub without_index-In : (i : ℕ) (xs : List String) (a : String) → In a (without_index i xs) → In a xs
unfolding without_index
without_index-In i [] a h = h
without_index-In zero (x ∷ xs) a h = inr h
without_index-In (suc i) (x ∷ xs) a (inl e) = inl e
without_index-In (suc i) (x ∷ xs) a (inr h) = inr (without_index-In i xs a h)

AllEmail-concat :
    (xs : List String) (x : String) → AllEmail xs → is_email x ≡ true → AllEmail (xs ++ x ∷ [])
AllEmail-concat xs x h e a i = elim (In-append_cases a xs (x ∷ []) i) [
  | inl l ↦ h a l
  | inr (inl p) ↦ subst (λ b. is_email b ≡ true) p e
  | inr (inr r) ↦ absurd r
]

add_recipient-AllEmail :
    (value : String) (s : ConfigDrawer)
    → AllEmail (recipients s)
    → AllEmail (recipients (add_recipient value s))
unfolding add_recipient add_to_array get_list set_list
add_recipient-AllEmail value s h = elim (Bool-cases (str_eq (trim value) "")) [
  | inl e ↦ rw e h
  | inr e ↦ elim (Bool-cases (is_email (trim value))) [
    | inl m ↦ rw (e, m, trim_idem value, e) (AllEmail-concat (recipients s) (trim value) h m)
    | inr m ↦ rw (e, m) h
  ]
]

-- Adding to another list.
module _ (value : String) (s : ConfigDrawer) where
  add_dns-same :
      get_list notifications_recipients (add_to_array dns_servers value s).form ≡ recipients s
  unfolding add_to_array get_list set_list
  add_dns-same = ground arith

  add_ipv4-same :
      get_list notifications_recipients (add_to_array ipv4_resolvers value s).form ≡ recipients s
  unfolding add_to_array get_list set_list
  add_ipv4-same = ground arith

  add_ipv6-same :
      get_list notifications_recipients (add_to_array ipv6_resolvers value s).form ≡ recipients s
  unfolding add_to_array get_list set_list
  add_ipv6-same = ground arith

remove-AllEmail :
    (field : Field) (i : ℕ) (s : ConfigDrawer)
    → AllEmail (recipients s)
    → AllEmail (recipients (remove_from_array field i s))
unfolding remove_from_array get_list set_list
remove-AllEmail dns_servers i s h = h
remove-AllEmail ipv4_resolvers i s h = h
remove-AllEmail ipv6_resolvers i s h = h
remove-AllEmail notifications_recipients i s h = λ a m. h a (without_index-In i (recipients s) a m)

-- The library's `moveItemInArray` is the parameter `move`.
module _ (move : List String → ℕ → ℕ → List String) where
  unfoldable pub edit : Edit → ConfigDrawer → ConfigDrawer
  unfolding add_to_array add_recipient remove_from_array on_drop
  edit (add_dns value) s = add_to_array dns_servers value s
  edit (add_ipv4 value) s = add_to_array ipv4_resolvers value s
  edit (add_ipv6 value) s = add_to_array ipv6_resolvers value s
  edit (recipient value) s = add_recipient value s
  edit (remove field i) s = remove_from_array field i s
  edit (drop field i j) s = on_drop move field i j s

  unfoldable pub edit_all : List Edit → ConfigDrawer → ConfigDrawer
  unfolding edit
  edit_all [] s = s
  edit_all (e ∷ es) s = edit_all es (edit e s)

-- `move` leaves in the array what was in it.
module _ (move : List String → ℕ → ℕ → List String)
    (move-In : (xs : List String) (i j : ℕ) (a : String) → In a (move xs i j) → In a xs) where
  moved-AllEmail :
      (field : Field) (i j : ℕ) (s : ConfigDrawer)
      → AllEmail (recipients s)
      → AllEmail (
          get_list notifications_recipients
            (set_list field (move (get_list field s.form) i j) s.form))
  unfolding get_list set_list
  moved-AllEmail dns_servers i j s h = h
  moved-AllEmail ipv4_resolvers i j s h = h
  moved-AllEmail ipv6_resolvers i j s h = h
  moved-AllEmail notifications_recipients i j s h = λ a m. h a (move-In (recipients s) i j a m)

  drop-AllEmail :
      (field : Field) (i j : ℕ) (s : ConfigDrawer)
      → AllEmail (recipients s)
      → AllEmail (recipients (on_drop move field i j s))
  unfolding on_drop
  drop-AllEmail field i j s h = elim (Bool-cases (i == j)) [
    | inl e ↦ rw e h
    | inr e ↦ rw e (moved-AllEmail field i j s h)
  ]

  edit-AllEmail :
      (e : Edit) (s : ConfigDrawer)
      → AllEmail (recipients s)
      → AllEmail (recipients (edit move e s))
  unfolding edit
  edit-AllEmail (add_dns value) s h = rw (add_dns-same value s) h
  edit-AllEmail (add_ipv4 value) s h = rw (add_ipv4-same value s) h
  edit-AllEmail (add_ipv6 value) s h = rw (add_ipv6-same value s) h
  edit-AllEmail (recipient value) s h = add_recipient-AllEmail value s h
  edit-AllEmail (remove field i) s h = remove-AllEmail field i s h
  edit-AllEmail (drop field i j) s h = drop-AllEmail field i j s h

  -- If the recipients in the form are addresses, they are so after any edits of the lists, provided
  -- that moving an item of an array leaves in it what was in it.
  pub edit_all-AllEmail :
      (es : List Edit) (s : ConfigDrawer)
      → AllEmail (recipients s)
      → AllEmail (recipients (edit_all move es s))
  unfolding edit_all
  edit_all-AllEmail [] s h = h
  edit_all-AllEmail (e ∷ es) s h = edit_all-AllEmail es (edit move e s) (edit-AllEmail e s h)
