-- ===== src/Codec/Clauses/Fields.antt =====
-- What is written is read: the fields of each type.
use hdns.Prelude.{
  ℕ, zero, suc, ◌^◌, ◌≡◌, ◌<◌, refl, sym, ap, ◌∙◌, ℤ, pos, negsuc, String, Bool, true, false, not,
  Option, some, List, ◌++◌, ltb, leb, arith, str_eq, eq_iff,
}
use mathlib.Core.Bool.{false≢true}
use hdns.Codec.Wire.{Wire, WireLaws, WireMoves, Bytes, IsSafe, IsInt32, Back}
use hdns.Codec.Clauses.{
  Outcome, value, Clause, select, unless, tagged, is_zero, max_safe, long_to_number, uint32_field,
  int32_field, int64_field, bool_field, string_field, double_field, uint32_case, int32_case,
  int64_case, bool_case, string_case, double_case, put_long,
}
use hdns.Codec.Clauses.Rounds.{Carries, field-Carries}

-- A `uint32` of the message.
abbrev pub IsUint32 : ℤ → Type 0
IsUint32 (pos n) = n < 2 ^ 32
IsUint32 (negsuc n) = ⊥

pub zero_default : (v : ℤ) → is_zero v ≡ true → pos 0 ≡ v
zero_default (pos zero) e = refl
zero_default (pos (suc n)) e = absurd (false≢true e)
zero_default (negsuc n) e = absurd (false≢true e)

pub false_default : (v : Bool) → not v ≡ true → false ≡ v
false_default false e = refl
false_default true e = absurd (false≢true e)

long_to_number-IsSafe : (v : ℤ) → IsSafe v → long_to_number v ≡ some v
unfolding long_to_number
long_to_number-IsSafe (pos n) h = let t : ltb max_safe n ≡ false = ground arith in rw t refl
long_to_number-IsSafe (negsuc n) h = let t : leb max_safe n ≡ false = ground arith in rw t refl

module _ (w : Wire) (laws : WireLaws w) (moves : WireMoves w) {M : Type 0}
    {clauses : List (Clause M)} where
  -- A field that is read back by `f`.
  pub Back-Carries :
      {V : Type 0} (test : Bool) (tag : ℕ) (payload : Option Bytes)
      (read : Bytes → Option (V × Bytes)) (v : V) (m m' : M) (f : M → Bytes → Outcome (M × Bytes))
      → Back payload read v
      → ((b rest : Bytes) → read b ≡ some (v, rest) → f m b ≡ value (m', rest))
      → (test ≡ true → m ≡ m')
      → tag < 2 ^ 32
      → select clauses tag ≡ some f
      → Carries w clauses (unless w test (tagged w tag payload)) m m'
  Back-Carries test tag payload read v m m' f (b, e, back) p d h s =
      field-Carries w laws moves clauses test tag payload m m' f d h s
        (b, e, λ rest. p (b ++ rest) rest (back rest))

  pub uint32-Carries :
      (tag : ℕ) (set : ℤ → M → M) {m : M} (v : ℤ)
      → IsUint32 v
      → m ≡ set (pos 0) m
      → tag < 2 ^ 32
      → select clauses tag ≡ some ((uint32_case w tag set).1)
      → Carries w clauses (uint32_field w tag v) m (set v m)
  unfolding uint32_field
  uint32-Carries tag set {m = m} (negsuc n) i d h s = absurd i
  uint32-Carries tag set {m = m} (pos n) i d h s =
      Back-Carries (is_zero (pos n)) tag (w.write_uint32 (pos n)) (w.read_uint32) n m
        (set (pos n) m) ((uint32_case w tag set).1) (laws.uint32_back n i) (λ b rest e. rw e refl)
        (λ z. d ∙ ap (λ x. set x m) (zero_default (pos n) z)) h s

  pub int32-Carries :
      (tag : ℕ) (set : ℤ → M → M) {m : M} (v : ℤ)
      → IsInt32 v
      → m ≡ set (pos 0) m
      → tag < 2 ^ 32
      → select clauses tag ≡ some ((int32_case w tag set).1)
      → Carries w clauses (int32_field w tag v) m (set v m)
  unfolding int32_field
  int32-Carries tag set {m = m} v i d h s =
      Back-Carries (is_zero v) tag (w.write_int32 v) (w.read_int32) v m (set v m)
        ((int32_case w tag set).1) (laws.int32_back v i) (λ b rest e. rw e refl)
        (λ z. d ∙ ap (λ x. set x m) (zero_default v z)) h s

  pub int64-Carries :
      (tag : ℕ) (set : ℤ → M → M) {m : M} (v : ℤ)
      → IsSafe v
      → m ≡ set (pos 0) m
      → tag < 2 ^ 32
      → select clauses tag ≡ some ((int64_case w tag set).1)
      → Carries w clauses (int64_field w tag v) m (set v m)
  unfolding int64_field put_long
  int64-Carries tag set {m = m} v i d h s =
      Back-Carries (is_zero v) tag (w.write_int64 v) (w.read_int64) v m (set v m)
        ((int64_case w tag set).1) (laws.int64_back v i)
        (λ b rest e. rw (e, long_to_number-IsSafe v i) refl)
        (λ z. d ∙ ap (λ x. set x m) (zero_default v z)) h s

  pub bool-Carries :
      (tag : ℕ) (set : Bool → M → M) {m : M} (v : Bool)
      → m ≡ set false m
      → tag < 2 ^ 32
      → select clauses tag ≡ some ((bool_case w tag set).1)
      → Carries w clauses (bool_field w tag v) m (set v m)
  unfolding bool_field
  bool-Carries tag set {m = m} v d h s =
      Back-Carries (not v) tag (w.write_bool v) (w.read_bool) v m (set v m)
        ((bool_case w tag set).1) (laws.bool_back v) (λ b rest e. rw e refl)
        (λ z. d ∙ ap (λ x. set x m) (false_default v z)) h s

  pub string-Carries :
      (tag : ℕ) (set : String → M → M) {m : M} (v : String)
      → w.keeps v ≡ true
      → m ≡ set "" m
      → tag < 2 ^ 32
      → select clauses tag ≡ some ((string_case w tag set).1)
      → Carries w clauses (string_field w tag v) m (set v m)
  unfolding string_field
  string-Carries tag set {m = m} v i d h s =
      Back-Carries (str_eq v "") tag (w.write_string v) (w.read_string) v m (set v m)
        ((string_case w tag set).1) (laws.string_back v i) (λ b rest e. rw e refl)
        (λ z. d ∙ ap (λ x. set x m) (sym ((eq_iff v "").0 z))) h s

  pub double-Carries :
      (tag : ℕ) (set : String → M → M) {m : M} (v : String)
      → w.prints v ≡ true
      → m ≡ set "0" m
      → tag < 2 ^ 32
      → select clauses tag ≡ some ((double_case w tag set).1)
      → Carries w clauses (double_field w tag v) m (set v m)
  unfolding double_field
  double-Carries tag set {m = m} v i d h s =
      Back-Carries (str_eq v "0") tag (w.write_double v) (w.read_double) v m (set v m)
        ((double_case w tag set).1) (laws.double_back v i) (λ b rest e. rw e refl)
        (λ z. d ∙ ap (λ x. set x m) (sym ((eq_iff v "0").0 z))) h s
