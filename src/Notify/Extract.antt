-- ===== src/Notify/Extract.antt =====
-- `extractErrorMessage` of notify.service.ts. Its regular expression
--   /\s\|\s*([^\[]+?)(?:\[(.+)\])?\s*$/
-- is matched by functions that try the alternatives in the order of a backtracking matcher.
pub mod Messages
pub mod Details
use Prim.Native.Char.{Char, code}
use Prim.Native.String
use Prim.Native.String.{[], ◌∷◌}
use hdns.Prelude.{
  ℕ, ◌≡◌, refl, String, Bool, true, false, not, ◌&&◌, ◌||◌, Option, none, some, List, arith, ◌==◌,
  str_eq, if◌then◌else◌, is_space, is_blank, trim, trim_start, trim_end,
}
use mathlib.Core.List
use mathlib.Core.List.{map}

-- `.` matches all but the line terminators.
is_line_end : ℕ → Bool
is_line_end c = c == 10 || c == 13 || c == 0x2028 || c == 0x2029

unfoldable pub one_line : String → Bool
unfolding is_line_end
one_line [] = true
one_line (c ∷ s) = not (is_line_end (code c)) && one_line s

-- `(.+)\]\s*$` after the bracket: the closing bracket is the last character but for white space.
bracketed : String → Option String
bracketed [] = none
bracketed (c ∷ s) =
    let rest = bracketed s in
    if code c == b']' && is_blank s
    then some []
    else elim rest [ none ↦ none | some part ↦ some (c ∷ part) ]

pub data Tail : Type 0 where
  mismatch closed : Tail
  with_part : String → Tail

-- `(?:\[(.+)\])?\s*$`
tail_match : String → Tail
unfolding bracketed one_line
tail_match [] = closed
tail_match (c ∷ s) =
    if code c == b'['
    then (elim (bracketed s) [
      | none ↦ mismatch
      | some part ↦ if not (str_eq part "") && one_line part then with_part part else mismatch
    ])
    else if is_blank (c ∷ s)
    then closed
    else mismatch

pub record Match : Type 0 where
  pub message : String
  pub part : Option String

prepend : Char → Option Match → Option Match
prepend c none = none
prepend c (some m) = some (record m { message = c ∷ m.message })

-- `([^\[]+?)` and what follows it: the group grows until the rest matches.
grow : String → Option Match
unfolding tail_match prepend
grow [] = none
grow (c ∷ s) =
    let longer = prepend c (grow s) in
    if code c == b'[' then none else elim (tail_match s) [
      | mismatch ↦ longer
      | closed ↦ some (record { message = c ∷ []; part = none })
      | with_part p ↦ some (record { message = c ∷ []; part = some p })
    ]

abbrev or_else : Option Match → Option Match → Option Match
or_else none m = m
or_else (some a) m = some a

-- `\s*`, which first takes all the white space, and gives back one character at a time.
pub skip : String → Option Match
unfolding grow
skip [] = none
skip (c ∷ s) =
    let longer = or_else (skip s) (grow (c ∷ s)) in
    if is_space (code c) then longer else grow (c ∷ s)

starts_with_bar : String → Bool
starts_with_bar [] = false
starts_with_bar (c ∷ s) = code c == b'|'

after_bar : String → Option Match
unfolding skip
after_bar [] = none
after_bar (c ∷ s) = skip s

-- `error.match(…)`: the leftmost match.
unfoldable pub match : String → Option Match
unfolding after_bar starts_with_bar
match [] = none
match (c ∷ s) =
    let rest = match s in
    if is_space (code c) && starts_with_bar s then or_else (after_bar s) rest else rest

-- `s.split('|')`: the first piece, and the others.
unfoldable pub split_bar : String → String × List String
split_bar [] = ([], List.[])
split_bar (c ∷ s) =
    let (piece, others) = split_bar s in
    if code c == b'|' then ([], List.◌∷◌ piece others) else (c ∷ piece, others)

-- `xs.join(' | ')`
join_bar : String → List String → String
join_bar x List.[] = x
join_bar x (List.◌∷◌ y ys) = String.◌++◌ x (String.◌++◌ " | " (join_bar y ys))

unfoldable pub detail_of : String × List String → String
unfolding join_bar
detail_of (first, List.[]) = trim first
detail_of (first, List.◌∷◌ x xs) = trim (join_bar (trim x) (map trim xs))

-- `part?.trim()`, where an empty text counts as none.
part_of : Option String → Option String
part_of none = none
part_of (some p) = let t = trim p in if str_eq t "" then none else some t

describe : String → Option String → String
unfolding detail_of split_bar
describe message none = message
describe message (some part) = String.◌++◌ message (String.◌++◌ ": " (detail_of (split_bar part)))

from_match : String → Option Match → String
unfolding describe part_of
from_match error none = trim error
from_match error (some m) = describe (trim m.message) (part_of m.part)

-- The argument is `none` where it is no text.
unfoldable pub extract_error_message : Option String → String
unfolding from_match match
extract_error_message none = "An unknown error occurred"
extract_error_message (some error) = from_match error (match error)

extract_tests :
    (extract_error_message (some "api | zone not found [dns.go:10 | token | expired]")
      ≡ "zone not found: token | expired")
    × (extract_error_message (some "api | failed [timeout] ") ≡ "failed: timeout")
    × (extract_error_message (some "x | plain") ≡ "plain")
    × (extract_error_message (some " no bar ") ≡ "no bar")
unfolding extract_error_message trim is_space is_blank
extract_tests = (refl, refl, refl, refl)
