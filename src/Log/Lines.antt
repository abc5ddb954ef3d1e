-- ===== src/Log/Lines.antt =====
-- The lines that the drawer shows, the newest first.
use hdns.Prelude.{ℕ, zero, suc, ◌≡◌, refl, ap, ◌∙◌, sym, String, List, [], ◌∷◌, ◌++◌, get_or, take}
use mathlib.Core.List.{append_assoc, append-nil}
use hdns.Model.Messages.{Line}

abbrev pub max_lines : ℕ
max_lines = 800

-- `parse` is `parseLogLine`, whose lines have the type `A`.
module _ {A : Type 0} (parse : String → A) where
  -- `[parsed, ...lines].slice(0, this.maxLines)`
  unfoldable pub on_line : Line → List A → List A
  on_line entry lines = take max_lines (parse (get_or entry.line "") ∷ lines)

  -- The messages of a stream, one after another.
  unfoldable pub on_lines : List Line → List A → List A
  unfolding on_line
  on_lines [] lines = lines
  on_lines (entry ∷ entries) lines = on_lines entries (on_line entry lines)

  -- The newest first.
  abbrev pub newest_first : List Line → List A
  newest_first [] = []
  newest_first (entry ∷ entries) = newest_first entries ++ parse (get_or entry.line "") ∷ []

  pub take-take_cons : (n : ℕ) (x : A) (xs : List A) → take n (x ∷ take n xs) ≡ take n (x ∷ xs)
  take-take_cons zero x xs = refl
  take-take_cons (suc zero) x xs = refl
  take-take_cons (suc (suc n)) x [] = refl
  take-take_cons (suc (suc n)) x (y ∷ xs) = ap (λ l. x ∷ l) (take-take_cons (suc n) y xs)

  on_lines-take :
      (entries : List Line) (lines : List A)
      → on_lines entries (take max_lines lines) ≡ take max_lines (newest_first entries ++ lines)
  unfolding on_lines on_line
  on_lines-take [] lines = refl
  on_lines-take (entry ∷ entries) lines =
      let p = parse (get_or entry.line "") in
      ap (on_lines entries) (take-take_cons max_lines p lines)
      ∙ (on_lines-take entries (p ∷ lines)
          ∙ ap (take max_lines) (sym (append_assoc (newest_first entries) (p ∷ []) lines)))

  -- Whatever lines have come since the drawer was opened, it shows the last 800 of them, or all
  -- where they are fewer, the newest first.
  on_lines-eq-take :
      (entries : List Line) → on_lines entries [] ≡ take max_lines (newest_first entries)
  on_lines-eq-take entries =
      on_lines-take entries [] ∙ ap (take max_lines) (append-nil (newest_first entries))

  -- One more message goes in front.
  pub newest_first-append :
      (entries : List Line) (entry : Line)
      → newest_first (entries ++ entry ∷ []) ≡ parse (get_or entry.line "") ∷ newest_first entries
  newest_first-append [] entry = refl
  newest_first-append (e ∷ entries) entry = rw (newest_first-append entries entry) refl
