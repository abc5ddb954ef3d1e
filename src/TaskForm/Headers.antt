-- ===== src/TaskForm/Headers.antt =====
-- The rows of headers: `validateHeaderRows` and `serializeHeaders`. The library's `toLowerCase` is
-- the parameter `lower`. An object is the list of its properties in their order.
pub mod Order
pub mod Distinct
pub mod Complete
use hdns.Prelude.{
  ◌≡◌, String, Bool, true, false, not, ◌&&◌, ◌||◌, Option, none, some, List, [], ◌∷◌, ◌++◌, get_or,
  str_eq, trim, if◌then◌else◌,
}
use hdns.Prelude.Objects.{put_property}

pub record HeaderRow : Type 0 where
  pub key : Option String
  pub value : Option String

abbrev pub empty_row : HeaderRow
empty_row = record { key = some ""; value = some "" }

-- `row.key?.trim() ?? ''`, and `String(… ?? '')` followed by `trim()`
abbrev pub cell : Option String → String
cell c = trim (get_or c "")

abbrev pub is_empty : String → Bool
is_empty s = str_eq s ""

pub has : List String → String → Bool
has [] k = false
has (x ∷ xs) k = str_eq x k || has xs k

-- `usedKeys.add(…)`; a second insertion is not seen by `has`.
abbrev pub add : List String → String → List String
add xs k = k ∷ xs

pub record ValidationErrors : Type 0 where
  pub incomplete : Bool
  pub duplicate : Bool

-- The loop of `validateHeaderRows`, with what it has seen.
unfoldable pub scan :
    (String → String) → List HeaderRow → List String → ValidationErrors → ValidationErrors
unfolding has
scan lower [] used errors = errors
scan lower (row ∷ rows) used errors =
    let key = cell row.key in
    let value = cell row.value in
    let normalized = lower key in
    let skipped = scan lower rows used errors in
    let incomplete = scan lower rows used (record errors { incomplete = true }) in
    let counted =
      scan lower rows (add used normalized)
        (record errors { duplicate = errors.duplicate || has used normalized }) in
    if is_empty key && is_empty value
    then skipped
    else if is_empty key || is_empty value
    then incomplete
    else counted

unfoldable pub validate_header_rows : (String → String) → List HeaderRow → Option ValidationErrors
unfolding scan
validate_header_rows lower rows =
    let errors = scan lower rows [] (record { incomplete = false; duplicate = false }) in
    if not errors.incomplete && not errors.duplicate then none else some errors

-- `headers[key] = value`. An assignment of a text to `__proto__` makes no property.
unfoldable pub set_header : String → String → List (String × String) → List (String × String)
set_header k v hs = if str_eq k "__proto__" then hs else put_property k v hs

-- The loop of `serializeHeaders`.
unfoldable pub collect : List HeaderRow → List (String × String) → List (String × String)
unfolding set_header
collect [] headers = headers
collect (row ∷ rows) headers =
    let key = cell row.key in
    let value = cell row.value in
    collect rows (
      if is_empty key && is_empty value
      then headers
      else if is_empty key || is_empty value
      then headers
      else set_header key value headers)

-- `JSON.stringify` of the object is the parameter `stringify`.
unfoldable pub serialize_headers : (List (String × String) → String) → List HeaderRow → String
unfolding collect
serialize_headers stringify rows =
    let headers = collect rows [] in elim headers [ [] ↦ "" | h ∷ hs ↦ stringify (h ∷ hs) ]
