-- ===== src/Prelude/Objects.antt =====
-- Objects of the source whose properties are texts, in the order in which JavaScript lists them.
use Prim.Native.Char.{code}
use Prim.Native.Nat.{ℕ, ◌+◌, ◌-◌, ◌*◌}
use Prim.Native.String.{String}
use mathlib.Core.Bool.{Bool, true, false, ◌&&◌}
use mathlib.Core.List.{List, [], ◌∷◌}
use mathlib.Core.Option.{Option, none, some}
use mathlib.Core.Path.{◌≡◌, refl}
use text.Mathlib.Text.{◌==◌ as str_eq}
use hdns.Prelude.Tests.{ltb, leb, ◌==◌, if◌then◌else◌}

-- The number that a text of decimal digits stands for, behind digits that stand for `n`.
decimal : ℕ → String → Option ℕ
decimal n String.[] = some n
decimal n (String.◌∷◌ c s) =
    let rest = decimal (n * 10 + (code c - 48)) s in
    if leb 48 (code c) && leb (code c) 57 then rest else none

below_limit : Option ℕ → Option ℕ
below_limit none = none
below_limit (some n) = if ltb n 4_294_967_295 then some n else none

-- An array index: a number below 2 ^ 32 - 1, in decimal digits with no zero in front.
unfoldable pub array_index : String → Option ℕ
unfolding decimal below_limit
array_index String.[] = none
array_index (String.◌∷◌ c s) =
    if code c == 48
    then (if str_eq s "" then some 0 else none)
    else below_limit (decimal 0 (String.◌∷◌ c s))

-- A property with the first index is listed before one with the second that is there: the array
-- indices in ascending order, then the others in the order of insertion.
abbrev pub precedes : Option ℕ → Option ℕ → Bool
precedes (some a) (some b) = ltb a b
precedes (some a) none = true
precedes none j = false

-- `object[key] = value`
unfoldable pub put_property : String → String → List (String × String) → List (String × String)
put_property k v [] = (k, v) ∷ []
put_property k v ((j, w) ∷ ps) =
    let rest = put_property k v ps in
    if str_eq j k
    then (k, v) ∷ ps
    else if precedes (array_index k) (array_index j)
    then (k, v) ∷ (j, w) ∷ ps
    else (j, w) ∷ rest

listed :
    put_property "9" "d"
      (put_property "10" "c" (put_property "01" "b" (put_property "X-Key" "a" [])))
    ≡ ("9", "d") ∷ ("10", "c") ∷ ("X-Key", "a") ∷ ("01", "b") ∷ []
unfolding put_property array_index
listed = refl
