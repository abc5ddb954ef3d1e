-- ===== src/Codec/Json/Write.antt =====
-- What `toJSON` does with one field of a message: the properties are set that have not their default.
use hdns.Prelude.{
  zero, suc, ℤ, pos, String, Bool, not, Option, none, some, List, [], ◌∷◌, map, str_eq,
  if◌then◌else◌,
}
use hdns.Model.Enums.{RecordPurpose, TaskTrigger, record_purpose_to_json, task_trigger_to_json}
use hdns.Codec.Clauses.{is_zero}
use hdns.Codec.Json.{
  Json, boolean, number, decimal, text, array, Items, nil, cons, Props, end, prop,
}

-- An enumeration by its number; all others are the source's `default`.
abbrev pub purpose_of_code : ℤ → RecordPurpose
purpose_of_code (pos zero) = RecordPurpose.unspecified
purpose_of_code (pos (suc zero)) = RecordPurpose.ddns
purpose_of_code (pos (suc (suc zero))) = RecordPurpose.cert
purpose_of_code (pos (suc (suc (suc zero)))) = RecordPurpose.both
purpose_of_code _ = RecordPurpose.unrecognized

abbrev pub trigger_of_code : ℤ → TaskTrigger
trigger_of_code (pos zero) = TaskTrigger.unspecified
trigger_of_code (pos (suc zero)) = TaskTrigger.ip
trigger_of_code (pos (suc (suc zero))) = TaskTrigger.cert
trigger_of_code (pos (suc (suc (suc zero)))) = TaskTrigger.both
trigger_of_code _ = TaskTrigger.unrecognized

-- A property and its value, where it is set.
abbrev pub Chunk : Type 0
Chunk = String × Option Json

unfoldable pub props : List Chunk → Props
props [] = end
props ((k, none) ∷ cs) = props cs
props ((k, some j) ∷ cs) = prop k j (props cs)

abbrev pub unless_default : Bool → Json → Option Json
unless_default test j = if test then none else some j

unfoldable pub number_json : ℤ → Option Json
number_json v = unless_default (is_zero v) (number v)

unfoldable pub decimal_json : String → Option Json
decimal_json v = unless_default (str_eq v "0") (decimal v)

unfoldable pub text_json : String → Option Json
text_json v = unless_default (str_eq v "") (text v)

unfoldable pub boolean_json : Bool → Option Json
boolean_json v = unless_default (not v) (boolean v)

unfoldable pub purpose_json : ℤ → Option Json
purpose_json v = unless_default (is_zero v) (text (record_purpose_to_json (purpose_of_code v)))

unfoldable pub trigger_json : ℤ → Option Json
trigger_json v = unless_default (is_zero v) (text (task_trigger_to_json (trigger_of_code v)))

unfoldable pub items : List Json → Items
items [] = nil
items (j ∷ js) = cons j (items js)

unfoldable pub messages_json : {M : Type 0} → (M → Json) → List M → Option Json
messages_json to_json [] = none
messages_json to_json (v ∷ vs) = some (array (items (map to_json (v ∷ vs))))

abbrev pub texts_json : List String → Option Json
texts_json = messages_json text

abbrev pub message_json : {M : Type 0} → (M → Json) → Option M → Option Json
message_json to_json none = none
message_json to_json (some v) = some (to_json v)
