-- ===== src/Notify/Extract/Details.antt =====
-- What `extractErrorMessage` makes of an error with details, `<origin> | <message>[<details>]`.
use Prim.Native.Char.{Char, code}
use Prim.Native.String.{[], ◌∷◌}
use text.Mathlib.TextLemmas.{nil-append, cons-append}
use hdns.Prelude.{
  ℕ, ◌≡◌, ◌≢◌, refl, ap, ◌⊎◌, String, true, false, some, arith, ◌==◌, str_eq, eq_iff, is_space,
  is_blank, trim, trim_start, Bool-cases, inl, inr,
}
use hdns.Notify.Extract.{
  Tail, bracketed, one_line, tail_match, grow, skip, extract_error_message, describe, part_of,
  detail_of, split_bar, prepend,
}
use hdns.Notify.Extract.Messages.{◌+++◌, Without, match_origin}
use hdns.Prelude.Trim.{trim-trim_start}

solid_not_blank :
    (m : String) (c : Char) (r : String)
    → is_space (code c) ≡ false
    → is_blank (m +++ c ∷ r) ≡ false
unfolding is_blank
solid_not_blank [] c r h = rw (nil-append, h)
solid_not_blank (d ∷ m) c r h = rw cons-append (ground (arith, solid_not_blank m c r h))

-- Brackets are no white space.
bracket_solid : (c : ℕ) → (c ≡ b'[') ⊎ (c ≡ b']') → is_space c ≡ false
unfolding is_space
bracket_solid c h = ground arith

bracketed-append :
    (part : String) (rb : Char) → code rb ≡ b']' → bracketed (part +++ rb ∷ []) ≡ some part
unfolding bracketed
bracketed-append [] rb h = rw nil-append (unfold is_blank in ground arith)
bracketed-append (c ∷ part) rb h = rw cons-append (
    let b = solid_not_blank part rb [] (bracket_solid (code rb) (inr h)) in
    let ih = bracketed-append part rb h in ground (arith, b, ih))

module _ (lb rb : Char) (is_lb : code lb ≡ b'[') (is_rb : code rb ≡ b']') where
  tail_details :
      (part : String)
      → part ≢ ""
      → one_line part ≡ true
      → tail_match (lb ∷ (part +++ rb ∷ [])) ≡ Tail.with_part part
  unfolding tail_match
  tail_details part ne h =
      let e = bracketed-append part rb is_rb in ground (arith, e, eq_iff part "")

  tail_not_yet :
      (c : Char) (m r : String) → code c ≢ b'[' → tail_match (c ∷ (m +++ lb ∷ r)) ≡ Tail.mismatch
  unfolding tail_match is_blank
  tail_not_yet c m r h =
      let b = solid_not_blank m lb r (bracket_solid (code lb) (inl is_lb)) in ground (arith, b)

  -- The message grows up to the bracket.
  grow_details :
      (c : Char) (m r part : String)
      → Without b'[' (c ∷ m)
      → tail_match (lb ∷ r) ≡ Tail.with_part part
      → grow (c ∷ (m +++ lb ∷ r)) ≡ some (record { message = c ∷ m; part = some part })
  unfolding grow
  grow_details c [] r part w t =
      let b : (code c == b'[') ≡ false = ground arith in rw (nil-append, b, t)
  grow_details c (d ∷ m) r part w t =
      let b : (code c == b'[') ≡ false = ground arith in
      rw (cons-append, b, tail_not_yet d m r w.1.0, cons-append)
        (ap (prepend c) (grow_details d m r part w.1 t))

  skip_details :
      (m r part : String)
      → is_blank m ≡ false
      → Without b'[' m
      → tail_match (lb ∷ r) ≡ Tail.with_part part
      → skip (m +++ lb ∷ r) ≡ some (record { message = trim_start m; part = some part })
  unfolding skip trim_start is_blank
  skip_details [] r part h w t = cc
  skip_details (c ∷ m) r part h w t = elim (Bool-cases (is_space (code c))) [
    | inl e ↦ rw (cons-append, e, skip_details m r part (rw e at h) w.1 t)
    | inr e ↦ rw (cons-append, e) (grow_details c m r part w t)
  ]

  -- An error of the server with details is shown as its message and the details after a colon: of
  -- details in several pieces between bars all but the first piece are shown. The origin holds no
  -- bar, the message is not blank and holds no opening bracket, and the details are one line that
  -- is not blank.
  pub extract-details :
      (sp bar : Char)
      → is_space (code sp) ≡ true
      → code bar ≡ b'|'
      → (origin message part : String) → Without b'|' origin
      → is_blank message ≡ false
      → Without b'[' message
      → trim part ≢ ""
      → one_line part ≡ true
      → extract_error_message (some (origin +++ sp ∷ bar ∷ (message +++ lb ∷ (part +++ rb ∷ []))))
        ≡ trim message +++ (": " +++ detail_of (split_bar (trim part)))
  unfolding extract_error_message describe part_of
  extract-details sp bar space is_bar origin message part w h v ne one =
      let filled : part ≢ "" = λ e. ne (rw e (unfold trim in refl)) in
      let t = tail_details part filled one in
      let some_part : str_eq (trim part) "" ≡ false = ground (arith, eq_iff (trim part) "") in
      rw (
        match_origin sp bar space is_bar origin _ _ w
            (skip_details message (part +++ rb ∷ []) part h v t),
        some_part,
        trim-trim_start,
      )
