-- ===== src/Codec/Clauses/Repeated.antt =====
-- What is written is read: messages inside of messages, and lists.
use hdns.Prelude.{
  ℕ, ◌^◌, ◌≡◌, ◌<◌, refl, sym, subst, String, true, false, Option, none, some, List, [], ◌∷◌, ◌++◌,
  length, map, All,
}
use mathlib.Core.List.{append_assoc, append-nil}
use mathlib.Core.Bool.{false≢true}
use hdns.Codec.Wire.{Wire, WireLaws, WireMoves, Bytes}
use hdns.Codec.Clauses.{
  Outcome, Clause, select, write_all, tagged, message_field, messages_field, strings_field,
  embedded, string_case, message_case,
}
use hdns.Codec.Clauses.Rounds.{Carries, Carries-nothing, Carries-then, tagged-Carries, RoundTrip}
use hdns.Codec.Clauses.Fields.{Back-Carries}

-- The length that `join` writes is a `uint32`.
abbrev pub Fits : Option Bytes → Type 0
Fits none = Unit
Fits (some b) = length b < 2 ^ 32

-- What is asked of a message that may be absent.
abbrev pub Given {ℓ} : {A : Type ℓ} → (A → Type 0) → Option A → Type 0
Given P none = Unit
Given P (some a) = P a

module _ (w : Wire) (laws : WireLaws w) (moves : WireMoves w) {M : Type 0}
    {clauses : List (Clause M)} where
  -- The elements of a list, each behind those that are there.
  more-Carries :
      {V : Type 0} (one : V → Option Bytes) (P : V → Type 0) (set : List V → M → M) (m : M)
      → ((vs : List V) (v : V) → P v → Carries w clauses (one v) (set vs m) (set (vs ++ v ∷ []) m))
      → (xs ys : List V) → All P ys
      → Carries w clauses (write_all (map one ys)) (set xs m) (set (xs ++ ys) m)
  unfolding write_all
  more-Carries one P set m p xs [] i = rw (append-nil xs) (Carries-nothing w clauses (set xs m))
  more-Carries one P set m p xs (y ∷ ys) (i, is) =
      Carries-then w clauses (one y) (write_all (map one ys)) (set xs m) (set (xs ++ y ∷ []) m)
        (set (xs ++ y ∷ ys) m) (p xs y i)
        (subst (λ x. Carries w clauses (write_all (map one ys)) (set (xs ++ y ∷ []) m) (set x m))
          (append_assoc xs (y ∷ []) ys) (more-Carries one P set m p (xs ++ y ∷ []) ys is))

  pub strings-Carries :
      (tag : ℕ) (push : String → M → M) (set : List String → M → M) {m : M} (vs : List String)
      → All (λ v. w.keeps v ≡ true) vs
      → m ≡ set [] m
      → ((vs : List String) (v : String) → push v (set vs m) ≡ set (vs ++ v ∷ []) m)
      → tag < 2 ^ 32
      → select clauses tag ≡ some ((string_case w tag push).1)
      → Carries w clauses (strings_field w tag vs) m (set vs m)
  unfolding strings_field
  strings-Carries tag push set {m = m} vs i d p h s =
      subst (λ x. Carries w clauses (strings_field w tag vs) x (set vs m)) (sym d)
        (more-Carries (λ v. tagged w tag (w.write_string v)) (λ v. w.keeps v ≡ true) set m
          (λ xs y k.
            Back-Carries w laws moves false tag (w.write_string y) (w.read_string) y (set xs m)
              (set (xs ++ y ∷ []) m) ((string_case w tag push).1) (laws.string_back y k)
              (λ b rest e. rw (e, p xs y) refl) (λ e. absurd (false≢true e)) h s)
          [] vs i)

  -- A message inside of the message, its length written in front of it.
  embedded-Carries :
      {V : Type 0} (encode : V → Option Bytes) (decode : ℕ → Bytes → Outcome (V × Bytes)) (tag : ℕ)
      (set : V → M → M) (m : M) (v : V)
      → Fits (encode v)
      → RoundTrip w encode decode v
      → tag < 2 ^ 32
      → select clauses tag ≡ some ((message_case w decode tag set).1)
      → Carries w clauses (embedded w encode tag v) m (set v m)
  unfolding embedded
  embedded-Carries encode decode tag set m v fits (b, e, back) h s =
      let (c, e', back') = laws.join_back b (subst Fits e fits) in
      rw (e, e')
        (tagged-Carries w laws moves clauses tag c m (set v m) ((message_case w decode tag set).1) h
          s (λ rest. rw (back' rest, back rest) refl))

  pub message-Carries :
      {V : Type 0} (encode : V → Option Bytes) (decode : ℕ → Bytes → Outcome (V × Bytes))
      (P : V → Type 0) (tag : ℕ) (put : V → M → M) (set : Option V → M → M) {m : M} (v : Option V)
      → Given (λ x. P x × Fits (encode x)) v
      → ((x : V) → P x → RoundTrip w encode decode x)
      → m ≡ set none m
      → ((x : V) → put x m ≡ set (some x) m)
      → tag < 2 ^ 32
      → select clauses tag ≡ some ((message_case w decode tag put).1)
      → Carries w clauses (message_field w encode tag v) m (set v m)
  unfolding message_field
  message-Carries encode decode P tag put set {m = m} none i back d p h s =
      subst (λ x. Carries w clauses (some []) m x) d (Carries-nothing w clauses m)
  message-Carries encode decode P tag put set {m = m} (some x) (i, fits) back d p h s =
      subst (λ m'. Carries w clauses (embedded w encode tag x) m m') (p x)
        (embedded-Carries encode decode tag put m x fits (back x i) h s)

  pub messages-Carries :
      {V : Type 0} (encode : V → Option Bytes) (decode : ℕ → Bytes → Outcome (V × Bytes))
      (P : V → Type 0) (tag : ℕ) (push : V → M → M) (set : List V → M → M) {m : M} (vs : List V)
      → All (λ v. P v × Fits (encode v)) vs
      → ((v : V) → P v → RoundTrip w encode decode v)
      → m ≡ set [] m
      → ((vs : List V) (v : V) → push v (set vs m) ≡ set (vs ++ v ∷ []) m)
      → tag < 2 ^ 32
      → select clauses tag ≡ some ((message_case w decode tag push).1)
      → Carries w clauses (messages_field w encode tag vs) m (set vs m)
  unfolding messages_field
  messages-Carries encode decode P tag push set {m = m} vs i back d p h s =
      subst (λ x. Carries w clauses (messages_field w encode tag vs) x (set vs m)) (sym d)
        (more-Carries (embedded w encode tag) (λ v. P v × Fits (encode v)) set m
          (λ xs y k.
            subst (λ m'. Carries w clauses (embedded w encode tag y) (set xs m) m') (p xs y)
              (embedded-Carries encode decode tag push (set xs m) y (k.1) (back y (k.0)) h s))
          [] vs i)
