-- ===== src/Api/Errors.antt =====
-- What the user sees of a failed call: `catchError` of api.service.ts, then `error` of
-- notify.service.ts.
use Prim.Native.Char.{Char}
use Prim.Native.String.{[], ◌∷◌}
use hdns.Prelude.{
  ℕ, String, ◌≡◌, ◌≢◌, refl, true, false, Option, none, some, arith, trim, is_space, is_blank, ◌==◌,
  if◌then◌else◌,
}
use hdns.Api.{HttpError, caught, offline_text}
use hdns.Notify.Extract.{extract_error_message, one_line, detail_of, split_bar}
use hdns.Notify.Extract.Messages.{◌+++◌, Without, match-Without, extract-plain}
use hdns.Notify.Extract.Details.{extract-details}

-- `this.notify.error(err?.error, …)` shows this text.
abbrev pub shown : HttpError → String
shown err = extract_error_message (caught err)

-- The texts that a call fails with: the error of a proxy, say, and those of the server, which have
-- an origin, a message, and details or none.
pub data Failure : Type 0 where
  foreign : String → Failure
  brief : String → String → Failure
  detailed : String → String → String → Failure

abbrev space : Char
space = " "

abbrev bar : Char
bar = "|"

abbrev open_bracket : Char
open_bracket = "["

abbrev close_bracket : Char
close_bracket = "]"

abbrev pub written : Failure → String
written (foreign s) = s
written (brief origin message) = origin +++ space ∷ bar ∷ message
written (detailed origin message part) =
    origin +++ space ∷ bar ∷ (message +++ open_bracket ∷ (part +++ close_bracket ∷ []))

-- The text of another program has no bar, nor has an origin; a message is not blank and has no
-- opening bracket; details are one line that is not blank.
abbrev pub IsWritten : Failure → Type 0
IsWritten (foreign s) = Without b'|' s
IsWritten (brief origin message) =
    Without b'|' origin × (is_blank message ≡ false) × Without b'[' message
IsWritten (detailed origin message part) =
    Without b'|' origin
    × (is_blank message ≡ false)
    × Without b'[' message
    × (trim part ≢ "")
    × (one_line part ≡ true)

-- What is to be told: without the origin, and with the details after a colon.
abbrev pub told : Failure → String
told (foreign s) = trim s
told (brief origin message) = trim message
told (detailed origin message part) = trim message +++ (": " +++ detail_of (split_bar (trim part)))

extract-told : (f : Failure) → IsWritten f → extract_error_message (some (written f)) ≡ told f
unfolding is_space
extract-told (foreign s) w = unfold extract_error_message in rw (match-Without s w) refl
extract-told (brief origin message) w = extract-plain space bar refl refl origin message w.0 w.1 w.2
extract-told (detailed origin message part) w =
    extract-details open_bracket close_bracket refl refl space bar refl refl origin message part w.0
      w.1 w.2 w.3 w.4

offline_told : extract_error_message (some offline_text) ≡ offline_text
unfolding extract_error_message trim is_space is_blank
offline_told = refl

abbrev pub text_of : Option Failure → Option String
text_of none = none
text_of (some f) = some (written f)

abbrev pub IsKnown : Option Failure → Type 0
IsKnown none = Unit
IsKnown (some f) = IsWritten f

abbrev pub told_of : Option Failure → String
told_of none = "An unknown error occurred"
told_of (some f) = told f

extract-told_of : (f : Option Failure) → IsKnown f → extract_error_message (text_of f) ≡ told_of f
extract-told_of none w = unfold extract_error_message in refl
extract-told_of (some f) w = extract-told f w

-- Of a call that got no answer the user sees the one offline text. Of any other that failed with the
-- text of another program, which has no bar, the user sees that text without the white space around
-- it; with an error of the server, its message without the origin, and after a colon its details, of
-- which the first piece is left out where bars part them in several; and with no text, the text for
-- an unknown error. An origin has no bar; a message is not blank and has no opening bracket; details
-- are one line that is not blank.
pub shown_failure :
    (status : ℕ) (f : Option Failure)
    → IsKnown f
    → shown (record { status = status; error = text_of f })
      ≡ (if status == 0 then offline_text else told_of f)
unfolding caught
shown_failure status f w = ground (arith, offline_told, extract-told_of f w)
