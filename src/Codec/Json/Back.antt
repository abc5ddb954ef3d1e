-- ===== src/Codec/Json/Back.antt =====
-- What is written of a field is read: the property that was set last is not there twice, so the reader finds
-- what the writer set.
use hdns.Prelude.{
  ℤ, pos, String, ◌≡◌, refl, sym, ap, ◌∙◌, Bool, true, false, not, Option, none, some, List, [],
  ◌∷◌, map, str_eq, eq_iff, if◌then◌else◌, get_or, All, Bool-cases, inl, inr,
}
use hdns.Model.Enums.{
  record_purpose_from_json, record_purpose_to_json, task_trigger_from_json, task_trigger_to_json,
  enums_round_trip,
}
use hdns.Codec.Clauses.{is_zero}
use hdns.Codec.Clauses.Repeated.{Given}
use hdns.Codec.Clauses.Fields.{zero_default, false_default}
use hdns.Codec.Json.{
  Json, undefined, boolean, number, decimal, text, object, Items, nil, Host, HostLaws,
}
use hdns.Codec.Json.Write.{
  Chunk, props, unless_default, number_json, decimal_json, text_json, boolean_json, purpose_json,
  trigger_json, items, messages_json, texts_json, message_json, purpose_of_code, trigger_of_code,
}
use hdns.Codec.Json.Read.{
  lookup, is_set, purpose_code, trigger_code, get, get_optional, first_set, or_default, number_in,
  decimal_in, text_in, boolean_in, purpose_in, trigger_in, message_in, items_or, first_array,
  read_items, messages_in, any_value,
}

abbrev pub or_else : Option Json → Option Json → Option Json
or_else none r = r
or_else (some j) r = some j

-- What is set under a name.
abbrev pub chunk_of : List Chunk → String → Option Json
chunk_of [] k = none
chunk_of ((k', o) ∷ cs) k = if str_eq k' k then or_else o (chunk_of cs k) else chunk_of cs k

-- What the first name has that is set.
abbrev pub set_or : Option Json → Option Json → Option Json
set_or none r = r
set_or (some j) r = if is_set j then some j else r

abbrev pub first_chunk : List Chunk → List String → Option Json
first_chunk cs [] = none
first_chunk cs (k ∷ ks) = set_or (chunk_of cs k) (first_chunk cs ks)

lookup-props :
    (cs : List Chunk) (k : String) → lookup (props cs) k ≡ get_or (chunk_of cs k) undefined
unfolding lookup props
lookup-props [] k = refl
lookup-props ((k', none) ∷ cs) k = elim (Bool-cases (str_eq k' k)) [
  | inl e ↦ rw e (lookup-props cs k)
  | inr e ↦ rw e (lookup-props cs k)
]
lookup-props ((k', some j) ∷ cs) k = elim (Bool-cases (str_eq k' k)) [
  | inl e ↦ rw e refl
  | inr e ↦ rw e (lookup-props cs k)
]

set_chunk :
    (o r : Option Json)
    → (if is_set (get_or o undefined) then some (some (get_or o undefined)) else some r)
      ≡ some (set_or o r)
set_chunk none r = refl
set_chunk (some j) r = elim (Bool-cases (is_set j)) [ inl e ↦ rw e refl | inr e ↦ rw e refl ]

module _ (host : Host) where
  first_set-props :
      (cs : List Chunk) (ks : List String)
      → first_set host (object (props cs)) ks ≡ some (first_chunk cs ks)
  unfolding first_set get
  first_set-props cs [] = refl
  first_set-props cs (k ∷ ks) =
      rw (first_set-props cs ks, lookup-props cs k) (set_chunk (chunk_of cs k) (first_chunk cs ks))

  -- A field that was written and is found under one of its names.
  abbrev pub found : Option Json → Option Json
  found o = set_or (or_else o none) none

  back :
      {V : Type 0} (read : Json → Option V) (d v : V) (test : Bool) (j : Json)
      → is_set j ≡ true
      → (test ≡ true → d ≡ v)
      → read j ≡ some v
      → or_default host read d (some (found (unless_default test j))) ≡ some v
  back read d v true j e h r = ap some (h refl)
  back read d v false j e h r = rw e r

  module _ (laws : HostLaws host) (cs : List Chunk) (ks : List String) where
    pub number_in-props :
        (v : ℤ)
        → first_chunk cs ks ≡ found (number_json v)
        → number_in host (object (props cs)) ks ≡ some v
    unfolding number_in number_json
    number_in-props v e =
        rw (first_set-props cs ks, e)
          (back host.to_number (pos 0) v (is_zero v) (number v) refl (zero_default v)
            (laws.number_back v))

    pub decimal_in-props :
        (v : String)
        → first_chunk cs ks ≡ found (decimal_json v)
        → decimal_in host (object (props cs)) ks ≡ some v
    unfolding decimal_in decimal_json
    decimal_in-props v e =
        rw (first_set-props cs ks, e)
          (back host.to_decimal "0" v (str_eq v "0") (decimal v) refl
            (λ t. sym ((eq_iff v "0").0 t)) (laws.decimal_back v))

    pub text_in-props :
        (v : String)
        → first_chunk cs ks ≡ found (text_json v)
        → text_in host (object (props cs)) ks ≡ some v
    unfolding text_in text_json
    text_in-props v e =
        rw (first_set-props cs ks, e)
          (back host.to_text "" v (str_eq v "") (text v) refl (λ t. sym ((eq_iff v "").0 t))
            (laws.text_back v))

    pub boolean_in-props :
        (v : Bool)
        → first_chunk cs ks ≡ found (boolean_json v)
        → boolean_in host (object (props cs)) ks ≡ some v
    unfolding boolean_in boolean_json
    boolean_in-props v e =
        rw (first_set-props cs ks, e)
          (back (λ j. some (host.to_boolean j)) false v (not v) (boolean v) refl (false_default v)
            (ap some (laws.boolean_back v)))

    pub purpose_in-props :
        (v : ℤ)
        → purpose_code (purpose_of_code v) ≡ v
        → first_chunk cs ks ≡ found (purpose_json v)
        → purpose_in host (object (props cs)) ks ≡ some v
    unfolding purpose_in purpose_json
    purpose_in-props v i e =
        rw (first_set-props cs ks, e)
          (back (λ j. some (purpose_code (record_purpose_from_json (any_value host j)))) (pos 0) v
            (is_zero v) (text (record_purpose_to_json (purpose_of_code v))) refl (zero_default v)
            (ap some (ap purpose_code (enums_round_trip.0 (purpose_of_code v)) ∙ i)))

    pub trigger_in-props :
        (v : ℤ)
        → trigger_code (trigger_of_code v) ≡ v
        → first_chunk cs ks ≡ found (trigger_json v)
        → trigger_in host (object (props cs)) ks ≡ some v
    unfolding trigger_in trigger_json
    trigger_in-props v i e =
        rw (first_set-props cs ks, e)
          (back (λ j. some (trigger_code (task_trigger_from_json (any_value host j)))) (pos 0) v
            (is_zero v) (text (task_trigger_to_json (trigger_of_code v))) refl (zero_default v)
            (ap some (ap trigger_code (enums_round_trip.1 (trigger_of_code v)) ∙ i)))

    -- A message inside of the message.
    pub message_in-props :
        {M : Type 0} (from_json : Json → Option M) (to_json : M → Json) (P : M → Type 0)
        (v : Option M)
        → Given P v
        → ((m : M) → P m → (from_json (to_json m) ≡ some m) × (is_set (to_json m) ≡ true))
        → first_chunk cs ks ≡ found (message_json to_json v)
        → message_in host from_json (object (props cs)) ks ≡ some v
    unfolding message_in
    message_in-props from_json to_json P none i h e = rw (first_set-props cs ks, e) refl
    message_in-props from_json to_json P (some m) i h e =
        let (b, t) = h m i in rw (first_set-props cs ks, e, t, b) refl

  -- The array that is found.
  abbrev pub array_chunk : List Chunk → List String → Items
  array_chunk cs [] = nil
  array_chunk cs (k ∷ ks) = items_or host (get_or (chunk_of cs k) undefined) (array_chunk cs ks)

  first_array-props :
      (cs : List Chunk) (ks : List String)
      → first_array host (object (props cs)) ks ≡ array_chunk cs ks
  unfolding first_array get_optional
  first_array-props cs [] = refl
  first_array-props cs (k ∷ ks) = rw (first_array-props cs ks, lookup-props cs k) refl

  read_items-items :
      {M : Type 0} (from_json : Json → Option M) (to_json : M → Json) (P : M → Type 0)
      → ((m : M) → P m → from_json (to_json m) ≡ some m)
      → (vs : List M) → All P vs
      → read_items host from_json (items (map to_json vs)) ≡ some vs
  unfolding read_items items
  read_items-items from_json to_json P h [] i = refl
  read_items-items from_json to_json P h (v ∷ vs) (i, is) =
      rw (h v i, read_items-items from_json to_json P h vs is) refl

  -- The array that was written for a list.
  abbrev pub array_or_nil : Option Json → Items
  array_or_nil o = items_or host (get_or (or_else o none) undefined) nil

  pub messages_in-props :
      {M : Type 0} (cs : List Chunk) (ks : List String) (from_json : Json → Option M)
      (to_json : M → Json) (P : M → Type 0) (vs : List M)
      → All P vs
      → ((m : M) → P m → from_json (to_json m) ≡ some m)
      → array_chunk cs ks ≡ array_or_nil (messages_json to_json vs)
      → messages_in host from_json (object (props cs)) ks ≡ some vs
  unfolding messages_in messages_json items
  messages_in-props cs ks from_json to_json P [] i h e =
      rw (first_array-props cs ks, e) (read_items-items from_json to_json P h [] tt)
  messages_in-props cs ks from_json to_json P (v ∷ vs) i h e =
      rw (first_array-props cs ks, e) (read_items-items from_json to_json P h (v ∷ vs) i)

  All-texts : (vs : List String) → All (λ v. Unit {0}) vs
  All-texts [] = tt
  All-texts (v ∷ vs) = (tt, All-texts vs)

  pub texts_in-props :
      (laws : HostLaws host) (cs : List Chunk) (ks : List String) (vs : List String)
      → array_chunk cs ks ≡ array_or_nil (texts_json vs)
      → messages_in host host.to_text (object (props cs)) ks ≡ some vs
  texts_in-props laws cs ks vs e =
      messages_in-props cs ks host.to_text text (λ v. Unit {0}) vs (All-texts vs)
        (λ v i. laws.text_back v) e
