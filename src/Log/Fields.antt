-- ===== src/Log/Fields.antt =====
-- What the log shows of a line.
use hdns.Prelude.{String, Option, none, some, List, [], ◌∷◌, ◌++◌, str_eq, if◌then◌else◌}
use hdns.Log.Parse.{
  Value, LogField, LogViewLine, read_string, or_text, format_value, format_time, known_fields,
  extra_fields,
}

-- The value of the first field with the key.
abbrev pub field_value : List LogField → String → Option String
field_value [] k = none
field_value (f ∷ fs) k =
    let rest = field_value fs k in if str_eq f.key k then some f.value else rest

-- What the line shows of a key: its time, its level, its message, or the field of that name.
abbrev pub shown : LogViewLine → String → Option String
shown line k =
    if str_eq "time" k
    then some line.time
    else if str_eq "level" k
    then some line.level
    else if str_eq "message" k
    then some line.message
    else field_value (line.known_fields ++ line.extra_fields) k

abbrev pub as_text : Option Value → Option String
as_text none = none
as_text (some v) = some (format_value v)

-- What a property is to be shown as.
abbrev pub expected :
    (String → String) → (String → Option String) → String → Option Value → Option String
expected upper local_time k v =
    if str_eq "time" k
    then some (format_time local_time (read_string v))
    else if str_eq "level" k
    then some (upper (or_text (read_string v) "unknown"))
    else if str_eq "message" k
    then some (or_text (read_string v) "(no message)")
    else as_text v

abbrev first_of : Option String → Option String → Option String
first_of none b = b
first_of (some a) b = some a
