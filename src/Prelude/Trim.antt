-- ===== src/Prelude/Trim.antt =====
-- Lemmas on `trim`.
use Prim.Native.Char.{Char, code}
use Prim.Native.String.{String, [], ◌∷◌}
use mathlib.Core.Path.{◌≡◌, refl, ap}
use mathlib.Core.Logic.{inl, inr}
use mathlib.Core.Bool.{true, false}
use hdns.Prelude.Tests.{Bool-cases}
use hdns.Prelude.Text.{is_space, trim_start, is_blank, trim_end, trim}

pub trim_end_blank : (s : String) → is_blank s ≡ true → trim_end s ≡ []
unfolding trim_end
trim_end_blank [] h = refl
trim_end_blank (c ∷ s) h = rw h

is_blank-trim_end : (s : String) → is_blank (trim_end s) ≡ is_blank s
unfolding trim_end is_blank
is_blank-trim_end [] = refl
is_blank-trim_end (c ∷ s) = elim (Bool-cases (is_blank (c ∷ s))) [
  | inl e ↦ rw e
  | inr e ↦ rw e (rw (is_blank-trim_end s) e)
]

trim_end_idem : (s : String) → trim_end (trim_end s) ≡ trim_end s
unfolding trim_end is_blank
trim_end_idem [] = refl
trim_end_idem (c ∷ s) = elim (Bool-cases (is_blank (c ∷ s))) [
  | inl e ↦ rw e
  | inr e ↦ rw (e, is_blank-trim_end s, e, trim_end_idem s)
]

module _ (c : Char) (s : String) (solid : is_space (code c) ≡ false) where
  trim_start_solid : trim_start (c ∷ s) ≡ c ∷ s
  unfolding trim_start
  trim_start_solid = rw solid

  trim_end_solid : trim_end (c ∷ s) ≡ c ∷ trim_end s
  unfolding trim_end is_blank
  trim_end_solid = rw solid

solid_round :
    (c : Char) (s : String)
    → is_space (code c) ≡ false
    → trim_start (trim_end (trim_start (c ∷ s))) ≡ trim_end (trim_start (c ∷ s))
solid_round c s e =
    rw (trim_start_solid c s e, trim_end_solid c s e, trim_start_solid c (trim_end s) e)

trim_start-trim_end : (s : String) → trim_start (trim_end (trim_start s)) ≡ trim_end (trim_start s)
unfolding trim_start trim_end is_blank
trim_start-trim_end [] = refl
trim_start-trim_end (c ∷ s) = elim (Bool-cases (is_space (code c))) [
  | inl e ↦ rw e (trim_start-trim_end s)
  | inr e ↦ solid_round c s e
]

trim_start_idem : (s : String) → trim_start (trim_start s) ≡ trim_start s
unfolding trim_start
trim_start_idem [] = refl
trim_start_idem (c ∷ s) = elim (Bool-cases (is_space (code c))) [
  | inl e ↦ rw e (trim_start_idem s)
  | inr e ↦ rw (e, e)
]

pub trim-trim : (s : String) → trim (trim_end (trim_start s)) ≡ trim s
unfolding trim
trim-trim s = rw trim_start-trim_end (trim_end_idem (trim_start s))

pub trim-trim_start : (s : String) → trim (trim_start s) ≡ trim s
unfolding trim
trim-trim_start s = ap trim_end (trim_start_idem s)

pub trim_idem : (s : String) → trim (trim s) ≡ trim s
unfolding trim
trim_idem s = trim-trim s
