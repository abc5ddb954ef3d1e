-- ===== src/Codec/Wire.antt =====
-- `BinaryWriter` and `BinaryReader` of @bufbuild/protobuf/wire, as far as api.ts uses them: a
-- writer appends bytes, and a reader takes them from the front.
use hdns.Prelude.{
  ℕ, ℤ, pos, negsuc, ◌≡◌, ◌<◌, ◌≤◌, ◌^◌, ◌-◌, String, Bool, true, Option, some, List, ◌++◌, length,
}

abbrev pub Bytes : Type 0
Bytes = List ℕ

-- The operations. A writer has nothing to give, and a reader, where the source throws. A double
-- stands by its decimal text. `join` is `fork().…join()` around the bytes that were written in
-- between; `skip` takes the type of the field. `keeps` says which texts survive being written in
-- UTF-8 and read again, and `prints` which texts are what a double is printed as: each double is
-- printed as one text, and both zeros as "0".
pub record Wire : Type 0 where
  pub write_uint32 : ℤ → Option Bytes
  pub write_int32 : ℤ → Option Bytes
  pub write_int64 : ℤ → Option Bytes
  pub write_bool : Bool → Option Bytes
  pub write_string : String → Option Bytes
  pub write_double : String → Option Bytes
  pub join : Bytes → Option Bytes
  pub read_uint32 : Bytes → Option (ℕ × Bytes)
  pub read_int32 : Bytes → Option (ℤ × Bytes)
  pub read_int64 : Bytes → Option (ℤ × Bytes)
  pub read_bool : Bytes → Option (Bool × Bytes)
  pub read_string : Bytes → Option (String × Bytes)
  pub read_double : Bytes → Option (String × Bytes)
  pub skip : ℕ → Bytes → Option Bytes
  pub keeps : String → Bool
  pub prints : String → Bool

abbrev pub IsInt32 : ℤ → Type 0
IsInt32 (pos n) = n < 2 ^ 31
IsInt32 (negsuc n) = n < 2 ^ 31

-- The integers up to `Number.MAX_SAFE_INTEGER`, either way.
abbrev pub IsSafe : ℤ → Type 0
IsSafe (pos n) = n < 2 ^ 53
IsSafe (negsuc n) = n < 2 ^ 53 - 1

-- A value is written, and what reads gives it back with the bytes behind it.
abbrev pub Back {ℓ} : {V : Type ℓ} → Option Bytes → (Bytes → Option (V × Bytes)) → V → Type ℓ
Back written read v =
    (b : Bytes) × (written ≡ some b) × ((rest : Bytes) → read (b ++ rest) ≡ some (v, rest))

-- A reader that does not throw takes a byte at least.
abbrev pub Takes {ℓ} : {V : Type ℓ} → (Bytes → Option (V × Bytes)) → Type ℓ
Takes {V = V} read = (b rest : Bytes) (v : V) → read b ≡ some (v, rest) → length rest < length b

-- What is written is read back, for values of the range of its type.
pub record WireLaws (w : Wire) : Type 0 where
  pub uint32_back : (n : ℕ) → n < 2 ^ 32 → Back (w.write_uint32 (pos n)) w.read_uint32 n
  pub int32_back : (z : ℤ) → IsInt32 z → Back (w.write_int32 z) w.read_int32 z
  pub int64_back : (z : ℤ) → IsSafe z → Back (w.write_int64 z) w.read_int64 z
  pub bool_back : (b : Bool) → Back (w.write_bool b) w.read_bool b
  pub string_back : (s : String) → w.keeps s ≡ true → Back (w.write_string s) w.read_string s
  pub double_back : (s : String) → w.prints s ≡ true → Back (w.write_double s) w.read_double s
  pub join_back :
      (b : Bytes)
      → length b < 2 ^ 32
      → (c : Bytes) × (w.join b ≡ some c)
        × ((rest : Bytes) → w.read_uint32 (c ++ rest) ≡ some (length b, b ++ rest))

-- Reading goes forward.
pub record WireMoves (w : Wire) : Type 0 where
  pub uint32_takes : Takes w.read_uint32
  pub int32_takes : Takes w.read_int32
  pub int64_takes : Takes w.read_int64
  pub bool_takes : Takes w.read_bool
  pub string_takes : Takes w.read_string
  pub double_takes : Takes w.read_double
  pub skip_stays : (t : ℕ) (b rest : Bytes) → w.skip t b ≡ some rest → length rest ≤ length b
