-- ===== src/Codec/Json/Read.antt =====
-- What `fromJSON` does with one field of a message.
use hdns.Prelude.{
  ℤ, pos, negsuc, String, Bool, true, false, Option, none, some, List, [], ◌∷◌, str_eq,
  if◌then◌else◌,
}
use hdns.Model.Enums.{
  AnyValue, RecordPurpose, TaskTrigger, record_purpose_from_json, task_trigger_from_json,
}
use hdns.Codec.Json.{
  Json, undefined, null, number, decimal, text, array, object, Items, nil, cons, Props, end, prop,
  Host,
}

infixl 5 ◌>>=◌
abbrev pub ◌>>=◌ {ℓ κ} : {A : Type ℓ} {B : Type κ} → Option A → (A → Option B) → Option B
none >>= f = none
some a >>= f = f a

unfoldable pub lookup : Props → String → Json
lookup end k = undefined
lookup (prop k' j ps) k = let rest = lookup ps k in if str_eq k' k then j else rest

abbrev pub is_set : Json → Bool
is_set undefined = false
is_set null = false
is_set _ = true

-- The enumerations by their numbers.
abbrev pub purpose_code : RecordPurpose → ℤ
purpose_code RecordPurpose.unspecified = pos 0
purpose_code RecordPurpose.ddns = pos 1
purpose_code RecordPurpose.cert = pos 2
purpose_code RecordPurpose.both = pos 3
purpose_code RecordPurpose.unrecognized = negsuc 0

abbrev pub trigger_code : TaskTrigger → ℤ
trigger_code TaskTrigger.unspecified = pos 0
trigger_code TaskTrigger.ip = pos 1
trigger_code TaskTrigger.cert = pos 2
trigger_code TaskTrigger.both = pos 3
trigger_code TaskTrigger.unrecognized = negsuc 0

module _ (host : Host) where
  -- `object.k`, which throws for `undefined` and `null`.
  unfoldable pub get : Json → String → Option Json
  unfolding lookup
  get undefined k = none
  get null k = none
  get (object ps) k = some (lookup ps k)
  get o k = some (host.inherited o k)

  -- `object?.k`
  unfoldable pub get_optional : Json → String → Json
  unfolding lookup
  get_optional undefined k = undefined
  get_optional null k = undefined
  get_optional (object ps) k = lookup ps k
  get_optional o k = host.inherited o k

  -- `isSet(object.a) ? … object.a … : isSet(object.b) ? … object.b … : …`, by the names that are tried.
  unfoldable pub first_set : Json → List String → Option (Option Json)
  unfolding get
  first_set o [] = some none
  first_set o (k ∷ ks) =
      let rest = first_set o ks in get o k >>= λ j. if is_set j then some (some j) else rest

  abbrev pub or_default : {V : Type 0} → (Json → Option V) → V → Option (Option Json) → Option V
  or_default read d none = none
  or_default read d (some none) = some d
  or_default read d (some (some j)) = read j

  unfoldable pub number_in : Json → List String → Option ℤ
  unfolding first_set
  number_in o ks = or_default host.to_number (pos 0) (first_set o ks)

  unfoldable pub decimal_in : Json → List String → Option String
  unfolding first_set
  decimal_in o ks = or_default host.to_decimal "0" (first_set o ks)

  unfoldable pub text_in : Json → List String → Option String
  unfolding first_set
  text_in o ks = or_default host.to_text "" (first_set o ks)

  unfoldable pub boolean_in : Json → List String → Option Bool
  unfolding first_set
  boolean_in o ks = or_default (λ j. some (host.to_boolean j)) false (first_set o ks)

  -- What the `switch` of an enumeration sees of a value.
  abbrev number_value : Option ℤ → AnyValue
  number_value (some (pos n)) = AnyValue.number n
  number_value _ = AnyValue.other

  abbrev pub any_value : Json → AnyValue
  any_value (number z) = number_value (some z)
  any_value (decimal s) = number_value (host.to_number (decimal s))
  any_value (text s) = AnyValue.text s
  any_value _ = AnyValue.other

  unfoldable pub purpose_in : Json → List String → Option ℤ
  unfolding first_set record_purpose_from_json
  purpose_in o ks =
      or_default (λ j. some (purpose_code (record_purpose_from_json (any_value j)))) (pos 0)
        (first_set o ks)

  unfoldable pub trigger_in : Json → List String → Option ℤ
  unfolding first_set task_trigger_from_json
  trigger_in o ks =
      or_default (λ j. some (trigger_code (task_trigger_from_json (any_value j)))) (pos 0)
        (first_set o ks)

  abbrev pub wrap : {M : Type 0} → Option M → Option (Option M)
  wrap none = none
  wrap (some m) = some (some m)

  unfoldable pub message_in :
      {M : Type 0} → (Json → Option M) → Json → List String → Option (Option M)
  unfolding first_set
  message_in from_json o ks = or_default (λ j. wrap (from_json j)) none (first_set o ks)

  -- `Array.isArray(object?.a) ? … : Array.isArray(object?.b) ? … : []`
  abbrev pub items_or : Json → Items → Items
  items_or (array xs) rest = xs
  items_or _ rest = rest

  unfoldable pub first_array : Json → List String → Items
  unfolding get_optional
  first_array o [] = nil
  first_array o (k ∷ ks) = let rest = first_array o ks in items_or (get_optional o k) rest

  unfoldable pub read_items : {M : Type 0} → (Json → Option M) → Items → Option (List M)
  read_items from_json nil = some []
  read_items from_json (cons j js) =
      let rest = read_items from_json js in do v ← from_json j; vs ← rest; some (v ∷ vs)

  unfoldable pub messages_in :
      {M : Type 0} → (Json → Option M) → Json → List String → Option (List M)
  unfolding first_array read_items
  messages_in from_json o ks = read_items from_json (first_array o ks)

  abbrev pub texts_in : Json → List String → Option (List String)
  texts_in = messages_in host.to_text
