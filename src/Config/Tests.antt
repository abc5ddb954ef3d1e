-- ===== src/Config/Tests.antt =====
-- The theorems on the configuration at concrete inputs.
use hdns.Prelude.{
  ℕ, zero, suc, ◌≡◌, refl, String, false, Option, none, some, List, [], ◌∷◌, In, inl, inr, ◌⊎◌,
}
use hdns.RecordsTable.State.{success}
use hdns.Config.Form.{
  Values, ConfigDrawer, dns_servers, notifications_recipients, get_list, payload, on_config,
  without_index,
}
use hdns.Config.Settings.{resave}
use hdns.Config.Recipients.{
  Edit, recipient, remove, drop, AllEmail, recipients, without_index-In, edit_all,
  edit_all-AllEmail,
}

abbrev unset : Values
unset = record {
  log_level = none;
  refresh_cron = none;
  dns_servers = none;
  ipv4_resolvers = none;
  ipv6_resolvers = none;
  ipv4_resolver_agreement_threshold = none;
  ipv6_resolver_agreement_threshold = none;
  ipv4_resolver_min_responses = none;
  ipv6_resolver_min_responses = none;
  notifications_enabled = none;
  notifications_on_success = none;
  notifications_recipients = none;
  notifications_cooldown_minutes = none;
  notifications_subject_prefix = none;
  acme_enabled = none;
  acme_email = none;
  acme_staging = none;
  acme_renew_before_days = none;
}

abbrev drawer : ConfigDrawer
drawer = record { loading = false; saving = false; form = unset; effects = [] }

resave_example : payload (on_config (success (payload unset)) drawer).form ≡ payload unset
resave_example = resave drawer drawer

-- An item of an array is taken out and put in at another index.
abbrev insert_at : ℕ → String → List String → List String
insert_at zero x ys = x ∷ ys
insert_at (suc j) x [] = x ∷ []
insert_at (suc j) x (y ∷ ys) = y ∷ insert_at j x ys

abbrev item : List String → ℕ → Option String
item [] i = none
item (x ∷ xs) zero = some x
item (x ∷ xs) (suc i) = item xs i

abbrev place : Option String → ℕ → List String → List String → List String
place none j before xs = before
place (some x) j before xs = insert_at j x xs

unfoldable move_item : List String → ℕ → ℕ → List String
unfolding without_index
move_item xs i j = place (item xs i) j xs (without_index i xs)

insert_at-In :
    (j : ℕ) (x : String) (ys : List String) (a : String)
    → In a (insert_at j x ys)
    → (x ≡ a) ⊎ In a ys
insert_at-In zero x ys a h = h
insert_at-In (suc j) x [] a h = h
insert_at-In (suc j) x (y ∷ ys) a (inl e) = inr (inl e)
insert_at-In (suc j) x (y ∷ ys) a (inr h) = elim (insert_at-In j x ys a h) [
  | inl e ↦ inl e
  | inr k ↦ inr (inr k)
]

item-In : (xs : List String) (i : ℕ) (x : String) → item xs i ≡ some x → In x xs
item-In [] i x e = absurd (cc e)
item-In (y ∷ xs) zero x e = inl (cc e)
item-In (y ∷ xs) (suc i) x e = inr (item-In xs i x e)

place-In :
    (o : Option String) (i j : ℕ) (xs : List String) (a : String)
    → item xs i ≡ o
    → In a (place o j xs (without_index i xs))
    → In a xs
place-In none i j xs a e h = h
place-In (some x) i j xs a e h = elim (insert_at-In j x (without_index i xs) a h) [
  | inl p ↦ item-In xs i a cc
  | inr k ↦ without_index-In i xs a k
]

move_item-In : (xs : List String) (i j : ℕ) (a : String) → In a (move_item xs i j) → In a xs
unfolding move_item
move_item-In xs i j a h = place-In (item xs i) i j xs a refl h

abbrev edits : List Edit
edits =
    recipient " a@example.org "
    ∷ recipient "nobody"
    ∷ recipient "b@example.org"
    ∷ drop notifications_recipients 0 1
    ∷ remove dns_servers 0
    ∷ []

edit_all-AllEmail_example : AllEmail (recipients (edit_all move_item edits drawer))
unfolding get_list
edit_all-AllEmail_example = edit_all-AllEmail move_item move_item-In edits drawer (λ a i. absurd i)
