-- ===== src/Codec/Json/Agree.antt =====
-- Two objects that have the same value under one of the names of a field each give it the same value.
use hdns.Prelude.{
  String, ◌≡◌, refl, sym, ap, ◌∙◌, Option, some, none, List, [], ◌∷◌, if◌then◌else◌, Bool-cases,
  inl, inr,
}
use hdns.Codec.Json.{
  Json, undefined, null, boolean, number, decimal, text, array, object, Items, nil, Props, Host,
}
use hdns.Codec.Json.Read.{
  lookup, get, get_optional, first_set, number_in, decimal_in, text_in, boolean_in, purpose_in,
  trigger_in, message_in, first_array, messages_in, is_set, items_or,
}

-- The first of the values under these names that is neither `null` nor `undefined`.
abbrev pub first_value : Props → List String → Json
first_value ps [] = undefined
first_value ps (k ∷ ks) =
    let rest = first_value ps ks in if is_set (lookup ps k) then lookup ps k else rest

abbrev list_or : Json → Items → Items
list_or (array xs) rest = xs
list_or _ rest = rest

-- The first of the lists under these names.
abbrev pub first_list : Props → List String → Items
first_list ps [] = nil
first_list ps (k ∷ ks) = list_or (lookup ps k) (first_list ps ks)

-- The same value under the names of a field, whichever of them has it.
abbrev pub Agree : Props → Props → List String → Type 0
Agree ps qs ks = (first_value ps ks ≡ first_value qs ks) × (first_list ps ks ≡ first_list qs ks)

-- The value that is read, if there is one.
abbrev found : Json → Option (Option Json)
found j = some (if is_set j then some j else none)

module _ (host : Host) (ps : Props) where
  first_set-found : (ks : List String) → first_set host (object ps) ks ≡ found (first_value ps ks)
  unfolding first_set get
  first_set-found [] = refl
  first_set-found (k ∷ ks) = elim (Bool-cases (is_set (lookup ps k))) [
    | inl e ↦ rw (e, e) refl
    | inr e ↦ rw e (first_set-found ks)
  ]

  items_or-list : (j : Json) (rest : Items) → items_or host j rest ≡ list_or j rest
  items_or-list (array xs) rest = refl
  items_or-list undefined rest = refl
  items_or-list null rest = refl
  items_or-list (boolean b) rest = refl
  items_or-list (number z) rest = refl
  items_or-list (decimal s) rest = refl
  items_or-list (text s) rest = refl
  items_or-list (object qs) rest = refl

  first_array-list : (ks : List String) → first_array host (object ps) ks ≡ first_list ps ks
  unfolding first_array get_optional
  first_array-list [] = refl
  first_array-list (k ∷ ks) =
      rw (first_array-list ks) (items_or-list (lookup ps k) (first_list ps ks))

module _ (host : Host) (ps qs : Props) where
  first_set-Agree :
      (ks : List String)
      → Agree ps qs ks
      → first_set host (object ps) ks ≡ first_set host (object qs) ks
  first_set-Agree ks h =
      first_set-found host ps ks ∙ ap found h.0 ∙ sym (first_set-found host qs ks)

  first_array-Agree :
      (ks : List String)
      → Agree ps qs ks
      → first_array host (object ps) ks ≡ first_array host (object qs) ks
  first_array-Agree ks h = first_array-list host ps ks ∙ h.1 ∙ sym (first_array-list host qs ks)

  module _ (ks : List String) where
    pub number_in-Agree :
        Agree ps qs ks → number_in host (object ps) ks ≡ number_in host (object qs) ks
    unfolding number_in
    number_in-Agree h = rw (first_set-Agree ks h) refl

    pub decimal_in-Agree :
        Agree ps qs ks → decimal_in host (object ps) ks ≡ decimal_in host (object qs) ks
    unfolding decimal_in
    decimal_in-Agree h = rw (first_set-Agree ks h) refl

    pub text_in-Agree : Agree ps qs ks → text_in host (object ps) ks ≡ text_in host (object qs) ks
    unfolding text_in
    text_in-Agree h = rw (first_set-Agree ks h) refl

    pub boolean_in-Agree :
        Agree ps qs ks → boolean_in host (object ps) ks ≡ boolean_in host (object qs) ks
    unfolding boolean_in
    boolean_in-Agree h = rw (first_set-Agree ks h) refl

    pub purpose_in-Agree :
        Agree ps qs ks → purpose_in host (object ps) ks ≡ purpose_in host (object qs) ks
    unfolding purpose_in
    purpose_in-Agree h = rw (first_set-Agree ks h) refl

    pub trigger_in-Agree :
        Agree ps qs ks → trigger_in host (object ps) ks ≡ trigger_in host (object qs) ks
    unfolding trigger_in
    trigger_in-Agree h = rw (first_set-Agree ks h) refl

    pub message_in-Agree :
        {M : Type 0} (from_json : Json → Option M)
        → Agree ps qs ks
        → message_in host from_json (object ps) ks ≡ message_in host from_json (object qs) ks
    unfolding message_in
    message_in-Agree from_json h = rw (first_set-Agree ks h) refl

    pub messages_in-Agree :
        {M : Type 0} (from_json : Json → Option M)
        → Agree ps qs ks
        → messages_in host from_json (object ps) ks ≡ messages_in host from_json (object qs) ks
    unfolding messages_in
    messages_in-Agree from_json h = rw (first_array-Agree ks h) refl
