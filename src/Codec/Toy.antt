-- ===== src/Codec/Toy.antt =====
-- A reader and a writer that meet the laws, for the tests: a number is a byte as it is, a sign is a
-- byte in front of it, and there are two texts and two doubles.
use hdns.Prelude.{
  ℕ, zero, suc, ◌≡◌, ◌≤◌, refl, sym, ap, ℤ, pos, negsuc, String, Bool, true, false, ◌||◌, Option,
  none, some, [], ◌∷◌, length, arith, str_eq, eq_iff, if◌then◌else◌, Bool-cases, inl, inr, ◌∙◌,
}
use mathlib.Core.Option.{some-injective}
use hdns.Codec.Wire.{Wire, WireLaws, WireMoves, Bytes, Back, Takes}

abbrev write_natural : ℤ → Option Bytes
write_natural (pos n) = some (n ∷ [])
write_natural (negsuc n) = none

abbrev write_signed : ℤ → Option Bytes
write_signed (pos n) = some (0 ∷ n ∷ [])
write_signed (negsuc n) = some (1 ∷ n ∷ [])

abbrev write_boolean : Bool → Option Bytes
write_boolean false = some (0 ∷ [])
write_boolean true = some (1 ∷ [])

abbrev text_code : String → ℕ
text_code s = if str_eq s "192.0.2.1" then 1 else 0

abbrev read_natural : Bytes → Option (ℕ × Bytes)
read_natural [] = none
read_natural (n ∷ b) = some (n, b)

abbrev read_signed : Bytes → Option (ℤ × Bytes)
read_signed [] = none
read_signed (zero ∷ []) = none
read_signed (zero ∷ n ∷ b) = some (pos n, b)
read_signed (suc k ∷ []) = none
read_signed (suc k ∷ n ∷ b) = some (negsuc n, b)

abbrev read_boolean : Bytes → Option (Bool × Bytes)
read_boolean [] = none
read_boolean (zero ∷ b) = some (false, b)
read_boolean (suc k ∷ b) = some (true, b)

abbrev read_text : Bytes → Option (String × Bytes)
read_text [] = none
read_text (zero ∷ b) = some ("", b)
read_text (suc k ∷ b) = some ("192.0.2.1", b)

abbrev double_code : String → ℕ
double_code s = if str_eq s "0.5" then 1 else 0

abbrev read_fraction : Bytes → Option (String × Bytes)
read_fraction [] = none
read_fraction (zero ∷ b) = some ("0", b)
read_fraction (suc k ∷ b) = some ("0.5", b)

abbrev drop_one : ℕ → Bytes → Option Bytes
drop_one t [] = none
drop_one t (n ∷ b) = some b

abbrev pub toy : Wire
toy = record {
  write_uint32 = write_natural;
  write_int32 = write_signed;
  write_int64 = write_signed;
  write_bool = write_boolean;
  write_string = λ s. some (text_code s ∷ []);
  write_double = λ s. some (double_code s ∷ []);
  join = λ b. some (length b ∷ b);
  read_uint32 = read_natural;
  read_int32 = read_signed;
  read_int64 = read_signed;
  read_bool = read_boolean;
  read_string = read_text;
  read_double = read_fraction;
  skip = drop_one;
  keeps = λ s. str_eq s "192.0.2.1" || str_eq s "";
  prints = λ s. str_eq s "0.5" || str_eq s "0";
}

signed-Back : (z : ℤ) → Back (write_signed z) read_signed z
signed-Back (pos n) = (0 ∷ n ∷ [], refl, λ rest. refl)
signed-Back (negsuc n) = (1 ∷ n ∷ [], refl, λ rest. refl)

boolean-Back : (b : Bool) → Back (write_boolean b) read_boolean b
boolean-Back false = (0 ∷ [], refl, λ rest. refl)
boolean-Back true = (1 ∷ [], refl, λ rest. refl)

text-Back :
    (s : String)
    → (str_eq s "192.0.2.1" || str_eq s "") ≡ true
    → Back (some (text_code s ∷ [])) read_text s
text-Back s h = elim (Bool-cases (str_eq s "192.0.2.1")) [
  | inl e ↦ (text_code s ∷ [], refl, λ rest. rw (e, (eq_iff s "192.0.2.1").0 e) refl)
  | inr e ↦
      let k : str_eq s "" ≡ true = sym (rw e refl) ∙ h in
      (text_code s ∷ [], refl, λ rest. rw (e, (eq_iff s "").0 k) refl)
]

double-Back :
    (s : String)
    → (str_eq s "0.5" || str_eq s "0") ≡ true
    → Back (some (double_code s ∷ [])) read_fraction s
double-Back s h = elim (Bool-cases (str_eq s "0.5")) [
  | inl e ↦ (double_code s ∷ [], refl, λ rest. rw (e, (eq_iff s "0.5").0 e) refl)
  | inr e ↦
      let k : str_eq s "0" ≡ true = sym (rw e refl) ∙ h in
      (double_code s ∷ [], refl, λ rest. rw (e, (eq_iff s "0").0 k) refl)
]

-- How many bytes a read leaves.
abbrev left {ℓ} : {V : Type ℓ} → Option (V × Bytes) → ℕ
left none = 0
left (some r) = length (r.1)

natural-Takes : Takes read_natural
natural-Takes [] rest v e = absurd cc
natural-Takes (n ∷ b) rest v e = omega (arith, ap left e)

signed-Takes : Takes read_signed
signed-Takes [] rest v e = absurd cc
signed-Takes (zero ∷ []) rest v e = absurd cc
signed-Takes (zero ∷ n ∷ b) rest v e = omega (arith, ap left e)
signed-Takes (suc k ∷ []) rest v e = absurd cc
signed-Takes (suc k ∷ n ∷ b) rest v e = omega (arith, ap left e)

boolean-Takes : Takes read_boolean
boolean-Takes [] rest v e = absurd cc
boolean-Takes (zero ∷ b) rest v e = omega (arith, ap left e)
boolean-Takes (suc k ∷ b) rest v e = omega (arith, ap left e)

text-Takes : Takes read_text
text-Takes [] rest v e = absurd cc
text-Takes (zero ∷ b) rest v e = omega (arith, ap left e)
text-Takes (suc k ∷ b) rest v e = omega (arith, ap left e)

fraction-Takes : Takes read_fraction
fraction-Takes [] rest v e = absurd cc
fraction-Takes (zero ∷ b) rest v e = omega (arith, ap left e)
fraction-Takes (suc k ∷ b) rest v e = omega (arith, ap left e)

drop_one_stays : (t : ℕ) (b rest : Bytes) → drop_one t b ≡ some rest → length rest ≤ length b
drop_one_stays t [] rest e = absurd cc
drop_one_stays t (n ∷ b) rest e =
    let k : b ≡ rest = some-injective b rest e in omega (arith, ap length k)

pub toy_laws : WireLaws toy
toy_laws = record {
  uint32_back = λ n h. (n ∷ [], refl, λ rest. refl);
  int32_back = λ z h. signed-Back z;
  int64_back = λ z h. signed-Back z;
  bool_back = boolean-Back;
  string_back = text-Back;
  double_back = double-Back;
  join_back = λ b h. (length b ∷ b, refl, λ rest. refl);
}

pub toy_moves : WireMoves toy
toy_moves = record {
  uint32_takes = natural-Takes;
  int32_takes = signed-Takes;
  int64_takes = signed-Takes;
  bool_takes = boolean-Takes;
  string_takes = text-Takes;
  double_takes = fraction-Takes;
  skip_stays = drop_one_stays;
}
