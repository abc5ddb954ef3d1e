-- ===== src/Notify/Extract/Messages.antt =====
-- What `extractErrorMessage` makes of the errors of the server, which are written
-- `<origin> | <message>` or `<origin> | <message>[<details>]`.
use Prim.Native.Char.{Char, code}
use Prim.Native.String
use Prim.Native.String.{[], ◌∷◌}
use text.Mathlib.TextLemmas.{nil-append, cons-append}
use hdns.Prelude.{
  ℕ, ◌≡◌, ◌≢◌, refl, String, true, false, none, some, arith, ◌==◌, if◌then◌else◌, is_space,
  is_blank, trim, trim_start, trim_end, Bool-cases, inl, inr,
}
use hdns.Prelude.Trim.{trim_end_blank, trim-trim}
use hdns.Notify.Extract.{
  Match, Tail, tail_match, grow, skip, match, extract_error_message, describe, part_of,
  starts_with_bar,
}

infixr 65 ◌+++◌
abbrev pub ◌+++◌ : String → String → String
s +++ t = String.◌++◌ s t

-- No character of the text is the given one.
abbrev pub Without : ℕ → String → Type 0
Without a [] = Unit
Without a (c ∷ s) = (code c ≢ a) × Without a s

-- Of a text with no bar no part matches.
pub match-Without : (s : String) → Without b'|' s → match s ≡ none
unfolding match starts_with_bar
match-Without [] w = refl
match-Without (c ∷ []) w = ground arith
match-Without (c ∷ d ∷ s) w = let ih = match-Without (d ∷ s) w.1 in ground (arith, ih, w.1.0)

tail_plain :
    (s : String)
    → Without b'[' s
    → tail_match s ≡ (if is_blank s then Tail.closed else Tail.mismatch)
unfolding tail_match is_blank
tail_plain [] w = refl
tail_plain (c ∷ s) w = ground arith

-- A message with no details: the group takes all but the white space at the end.
grow_plain :
    (s : String)
    → is_blank s ≡ false
    → Without b'[' s
    → grow s ≡ some (record { message = trim_end s; part = none })
unfolding grow trim_end is_blank
grow_plain [] h w = cc
grow_plain (c ∷ s) h w =
    let b : (code c == b'[') ≡ false = ground arith in
    elim (Bool-cases (is_blank s)) [
      | inl e ↦ rw (b, tail_plain s w.1, h, e, trim_end_blank s e)
      | inr e ↦ rw (b, tail_plain s w.1, h, e, grow_plain s e w.1)
    ]

skip_plain :
    (s : String)
    → is_blank s ≡ false
    → Without b'[' s
    → skip s ≡ some (record { message = trim_end (trim_start s); part = none })
unfolding skip trim_start is_blank
skip_plain [] h w = cc
skip_plain (c ∷ s) h w = elim (Bool-cases (is_space (code c))) [
  | inl e ↦ rw (e, skip_plain s (rw e at h) w.1)
  | inr e ↦ rw e (grow_plain (c ∷ s) h w)
]

space_not_bar : (c : ℕ) → is_space c ≡ true → (c == b'|') ≡ false
unfolding is_space
space_not_bar c h = ground arith

module _ (sp bar : Char) (space : is_space (code sp) ≡ true) (is_bar : code bar ≡ b'|') where
  no_bar_first :
      (pre rest : String) → Without b'|' pre → starts_with_bar (pre +++ sp ∷ rest) ≡ false
  unfolding starts_with_bar
  no_bar_first [] rest w = rw nil-append (space_not_bar (code sp) space)
  no_bar_first (c ∷ pre) rest w = rw cons-append (ground arith)

  -- The leftmost match is at the first white space before a bar.
  pub match_origin :
      (pre rest : String) (m : Match)
      → Without b'|' pre
      → skip rest ≡ some m
      → match (pre +++ sp ∷ bar ∷ rest) ≡ some m
  unfolding match
  match_origin [] rest m w h =
      let e : (code bar == b'|') ≡ true = ground arith in rw (nil-append, space, e, h)
  match_origin (c ∷ pre) rest m w h = rw cons-append (
      let b = no_bar_first pre (bar ∷ rest) w.1 in
      let ih = match_origin pre rest m w.1 h in ground (arith, b, ih))

  -- An error of the server with no details is shown as its message, without the white space around
  -- it: the origin holds no bar, and the message is not blank and holds no opening bracket.
  pub extract-plain :
      (origin message : String)
      → Without b'|' origin
      → is_blank message ≡ false
      → Without b'[' message
      → extract_error_message (some (origin +++ sp ∷ bar ∷ message)) ≡ trim message
  unfolding extract_error_message describe part_of
  extract-plain origin message w h v =
      rw (match_origin origin message _ w (skip_plain message h v)) (trim-trim message)
