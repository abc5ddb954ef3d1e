-- ===== src/Log/Parse.antt =====
-- `parseLogLine`. What is of the language's library is a parameter: `parse` is `JSON.parse`, none
-- where it throws; `lower` and `upper` change the case; `sort_keys` sorts by `localeCompare`;
-- `local_time` is the time of a date, none where the text is no date.
use hdns.Prelude.{
  String, Bool, true, false, not, ◌||◌, Option, none, some, List, [], ◌∷◌, str_eq, if◌then◌else◌,
  filter, any, map,
}

-- The value of a property. A number stands by the text that `String` makes of it, and an array or
-- an object by the text that `JSON.stringify` makes of it.
pub data Value : Type 0 where
  null : Value
  text number composite : String → Value
  boolean : Bool → Value

-- What a text in JSON holds: an object with its properties in their order, or anything else.
pub data Parsed : Type 0 where
  object : List (String × Value) → Parsed
  other : Parsed

pub record LogField : Type 0 where
  pub key : String
  pub value : String

pub record LogViewLine : Type 0 where
  pub is_json : Bool
  pub level : String
  pub level_class : String
  pub time : String
  pub message : String
  pub known_fields : List LogField
  pub extra_fields : List LogField
  pub raw : String

-- `candidate && typeof candidate === 'object' && !Array.isArray(candidate)`
abbrev pub as_object : Option Parsed → Option (List (String × Value))
as_object (some (object ps)) = some ps
as_object _ = none

abbrev pub keys : List (String × Value) → List String
keys ps = map (λ p. p.0) ps

-- `parsedData[key]`
unfoldable pub property : String → List (String × Value) → Option Value
property key [] = none
property key ((k, v) ∷ ps) = let rest = property key ps in if str_eq k key then some v else rest

abbrev boolean_text : Bool → String
boolean_text true = "true"
boolean_text false = "false"

unfoldable pub read_string : Option Value → String
read_string (some (text s)) = s
read_string (some (number s)) = s
read_string (some (boolean b)) = boolean_text b
read_string _ = ""

abbrev pub known_field_order : List String
known_field_order = "caller" ∷ "package" ∷ "remote" ∷ "method" ∷ "duration" ∷ []

-- `consumedKeys`
abbrev pub consumed_keys : List String
consumed_keys = "time" ∷ "level" ∷ "message" ∷ known_field_order

abbrev pub has_key : List String → String → Bool
has_key ks k = any (λ j. str_eq j k) ks

abbrev pub or_text : String → String → String
or_text a b = if str_eq a "" then b else a

module _ (lower : String → String) where
  unfoldable pub level_class : String → String
  level_class level =
      let l = lower level in
      if str_eq l "trace"
      then "level-trace"
      else if str_eq l "debug"
      then "level-debug"
      else if str_eq l "info"
      then "level-info"
      else if str_eq l "warn" || str_eq l "warning"
      then "level-warning"
      else if str_eq l "error" || (str_eq l "fatal" || str_eq l "panic")
      then "level-error"
      else "level-debug"

module _ (local_time : String → Option String) where
  unfoldable pub format_time : String → String
  format_time value =
      if str_eq value ""
      then "Unknown time"
      else elim (local_time value) [ none ↦ value | some t ↦ t ]

unfoldable pub format_value : Value → String
format_value null = "null"
format_value (text s) = s
format_value (number s) = s
format_value (boolean b) = boolean_text b
format_value (composite s) = s

abbrev pub value_text : Option Value → String
value_text none = ""
value_text (some v) = format_value v

-- `{ key, value: this.formatValue(parsedData[key]) }`; the key is one of the object's.
abbrev pub field_of : List (String × Value) → String → LogField
field_of ps key = record { key = key; value = value_text (property key ps) }

unfoldable pub known_fields : List (String × Value) → List LogField
known_fields ps = map (field_of ps) (filter (has_key (keys ps)) known_field_order)

module _ (sort_keys : List String → List String) where
  unfoldable pub extra_fields : List (String × Value) → List LogField
  extra_fields ps =
      map (field_of ps) (sort_keys (filter (λ k. not (has_key consumed_keys k)) (keys ps)))

  module _ (parse : String → Option Parsed) (lower upper : String → String)
      (local_time : String → Option String) where
    unfoldable pub parse_log_line : String → LogViewLine
    unfolding property read_string level_class format_time known_fields extra_fields
    parse_log_line raw = elim (as_object (parse raw)) [
      | none ↦ record {
        is_json = false;
        level = "RAW";
        level_class = "level-error";
        time = format_time local_time "";
        message = "Unable to parse log line JSON";
        known_fields = [];
        extra_fields = [];
        raw = raw;
      }
      | some ps ↦
          let level_raw = or_text (read_string (property "level" ps)) "unknown" in
          record {
            is_json = true;
            level = upper level_raw;
            level_class = level_class lower level_raw;
            time = format_time local_time (read_string (property "time" ps));
            message = or_text (read_string (property "message" ps)) "(no message)";
            known_fields = known_fields ps;
            extra_fields = extra_fields ps;
            raw = raw;
          }
    ]
