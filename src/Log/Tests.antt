-- ===== src/Log/Tests.antt =====
-- The theorems on the log at concrete inputs.
use hdns.Prelude.{refl, String, Option, none, some, List, [], ◌∷◌}
use hdns.Model.Messages.{Line}
use hdns.Log.Parse.{Value, text, number, Parsed, object, LogViewLine, parse_log_line}
use hdns.Log.Stream.{
  LogDrawer, new_log, open_log, cleanup_stream, on_message, Run, start, opens, hears, misses, Shows,
  Run-Shows,
}
use hdns.Log.Lines.{on_line}

abbrev same : String → String
same s = s

abbrev as_given : List String → List String
as_given ks = ks

abbrev no_date : String → Option String
no_date s = none

-- A parser that knows one line.
abbrev parsed : List (String × Value)
parsed = ("level", text "info") ∷ ("zone", text "example.org") ∷ ("duration", number "12") ∷ []

abbrev parse : String → Option Parsed
parse s = some (object parsed)

abbrev entries : List Line
entries = (record { line = some "first" }) ∷ (record { line = none }) ∷ []

abbrev view : String → LogViewLine
view s = parse_log_line as_given parse same same no_date s

-- The drawer is opened twice; a line of the first stream comes late.
abbrev reopened : LogDrawer LogViewLine
reopened =
    on_message view 1 (record { line = none })
      (on_message view 0 (record { line = some "late" })
        (on_message view 1 (record { line = some "first" }) (open_log (open_log new_log))))

abbrev late : Run view entries reopened
unfolding open_log cleanup_stream on_message on_line
late =
    hears 1 (record { line = none })
      (misses 0 (record { line = some "late" })
        (hears 1 (record { line = some "first" }) (opens (opens start)) refl) refl)
      refl

Run-Shows_example : Shows view entries reopened
Run-Shows_example = Run-Shows view entries reopened late
