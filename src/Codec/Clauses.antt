-- ===== src/Codec/Clauses.antt =====
-- What the functions `encode` and `decode` of all messages are made of: the fields that are
-- written, the clauses of the `switch`, and the loop around it.
pub mod Rounds
pub mod Fields
pub mod Repeated
pub mod Ends
pub mod Unknown
use hdns.Prelude.{
  ℕ, zero, suc, ◌+◌, ◌/◌, ◌%◌, ◌≡◌, ◌<◌, ℤ, pos, negsuc, String, Bool, true, false, not, ◌&&◌, ◌||◌,
  Option, none, some, List, [], ◌∷◌, ◌++◌, length, ltb, leb, ◌==◌, str_eq, if◌then◌else◌, map,
}
use hdns.Codec.Wire.{Wire, Bytes}

-- The end of a call. `stuck` is none of the source's: the loop ran out of fuel.
pub data Outcome {ℓ} (A : Type ℓ) : Type ℓ where
  value : A → Outcome A
  thrown : Outcome A
  stuck : Outcome A

abbrev pub bind {ℓ κ} : {A : Type ℓ} {B : Type κ} → Outcome A → (A → Outcome B) → Outcome B
bind (value a) f = f a
bind thrown f = thrown
bind stuck f = stuck

-- Writes one after another; one that throws ends them.
abbrev pub then_write : Option Bytes → Option Bytes → Option Bytes
then_write (some b) (some c) = some (b ++ c)
then_write _ _ = none

unfoldable pub write_all : List (Option Bytes) → Option Bytes
write_all [] = some []
write_all (c ∷ cs) = then_write c (write_all cs)

-- `=== 0`
abbrev pub is_zero : ℤ → Bool
is_zero (pos zero) = true
is_zero _ = false

abbrev pub max_safe : ℕ
max_safe = 9_007_199_254_740_991

unfoldable pub long_to_number : ℤ → Option ℤ
long_to_number (pos n) = if ltb max_safe n then none else some (pos n)
long_to_number (negsuc n) = if leb max_safe n then none else some (negsuc n)

-- A clause `case …` of the `switch`: the tag of its guard, and what it does to the message.
abbrev pub Clause : Type 0 → Type 0
Clause M = ℕ × (M → Bytes → Outcome (M × Bytes))

-- The clause of a tag. `switch (tag >>> 3)` finds the number of the field, and the guard of the
-- clause compares the whole tag, which has the number in it.
unfoldable pub select :
    {M : Type 0} → List (Clause M) → ℕ → Option (M → Bytes → Outcome (M × Bytes))
select [] tag = none
select ((t, f) ∷ cs) tag = let rest = select cs tag in if tag == t then some f else rest

module _ (w : Wire) where
  -- `writer.uint32(tag).….(value)`
  abbrev pub tagged : ℕ → Option Bytes → Option Bytes
  tagged tag payload = then_write (w.write_uint32 (pos tag)) payload

  abbrev pub unless : Bool → Option Bytes → Option Bytes
  unless test c = if test then some [] else c

  unfoldable pub uint32_field : ℕ → ℤ → Option Bytes
  uint32_field tag v = unless (is_zero v) (tagged tag (w.write_uint32 v))

  unfoldable pub int32_field : ℕ → ℤ → Option Bytes
  int32_field tag v = unless (is_zero v) (tagged tag (w.write_int32 v))

  unfoldable pub int64_field : ℕ → ℤ → Option Bytes
  int64_field tag v = unless (is_zero v) (tagged tag (w.write_int64 v))

  unfoldable pub bool_field : ℕ → Bool → Option Bytes
  bool_field tag v = unless (not v) (tagged tag (w.write_bool v))

  unfoldable pub string_field : ℕ → String → Option Bytes
  string_field tag v = unless (str_eq v "") (tagged tag (w.write_string v))

  unfoldable pub double_field : ℕ → String → Option Bytes
  double_field tag v = unless (str_eq v "0") (tagged tag (w.write_double v))

  -- `….encode(v, writer.uint32(tag).fork()).join()`
  abbrev pub joined : Option Bytes → Option Bytes
  joined none = none
  joined (some b) = w.join b

  unfoldable pub embedded : {M : Type 0} → (M → Option Bytes) → ℕ → M → Option Bytes
  embedded encode tag v = tagged tag (joined (encode v))

  abbrev pub message_field : {M : Type 0} → (M → Option Bytes) → ℕ → Option M → Option Bytes
  unfolding embedded
  message_field encode tag none = some []
  message_field encode tag (some v) = embedded encode tag v

  -- The loops over a list of messages, and of texts.
  unfoldable pub messages_field : {M : Type 0} → (M → Option Bytes) → ℕ → List M → Option Bytes
  unfolding embedded write_all
  messages_field encode tag vs = write_all (map (embedded encode tag) vs)

  unfoldable pub strings_field : ℕ → List String → Option Bytes
  unfolding write_all
  strings_field tag vs = write_all (map (λ v. tagged tag (w.write_string v)) vs)

  abbrev pub decode_length :
      {V : Type 0} → (ℕ → Bytes → Outcome (V × Bytes)) → Option (ℕ × Bytes) → Outcome (V × Bytes)
  decode_length decode none = thrown
  decode_length decode (some (n, rest)) = decode n rest

  module _ {M : Type 0} where
    -- A field that is read and put into the message.
    abbrev pub put_read : {V : Type 0} → (V → M → M) → Option (V × Bytes) → M → Outcome (M × Bytes)
    put_read set none m = thrown
    put_read set (some (v, rest)) m = value (set v m, rest)

    abbrev pub uint32_case : ℕ → (ℤ → M → M) → Clause M
    uint32_case tag set = (tag, λ m b. put_read (λ n. set (pos n)) (w.read_uint32 b) m)

    abbrev pub int32_case : ℕ → (ℤ → M → M) → Clause M
    int32_case tag set = (tag, λ m b. put_read set (w.read_int32 b) m)

    abbrev pub put_safe : (ℤ → M → M) → M → Bytes → Option ℤ → Outcome (M × Bytes)
    put_safe set m rest none = thrown
    put_safe set m rest (some z) = value (set z m, rest)

    abbrev pub put_long : (ℤ → M → M) → Option (ℤ × Bytes) → M → Outcome (M × Bytes)
    unfolding long_to_number
    put_long set none m = thrown
    put_long set (some (z, rest)) m = put_safe set m rest (long_to_number z)

    abbrev pub int64_case : ℕ → (ℤ → M → M) → Clause M
    int64_case tag set = (tag, λ m b. put_long set (w.read_int64 b) m)

    abbrev pub bool_case : ℕ → (Bool → M → M) → Clause M
    bool_case tag set = (tag, λ m b. put_read set (w.read_bool b) m)

    abbrev pub string_case : ℕ → (String → M → M) → Clause M
    string_case tag set = (tag, λ m b. put_read set (w.read_string b) m)

    abbrev pub double_case : ℕ → (String → M → M) → Clause M
    double_case tag set = (tag, λ m b. put_read set (w.read_double b) m)

    -- `while (reader.pos < end) { … }`. The bytes are those from `reader.pos` on; the message
    -- started where there were `start` of them, and `end` is `length` bytes further. The result has
    -- the bytes behind the message.
    unfoldable pub loop : List (Clause M) → ℕ → ℕ → ℕ → M → Bytes → Outcome (M × Bytes)
    unfolding select
    loop clauses zero start length' m b = stuck
    loop clauses (suc fuel) start length' m b =
        if ltb start (length b + length')
        then (elim (w.read_uint32 b) [
          | none ↦ thrown
          | some (tag, rest) ↦ elim (select clauses tag) [
            | some f ↦ bind (f m rest) (λ r. loop clauses fuel start length' r.0 r.1)
            | none ↦
                if tag % 8 == 4 || tag == 0 then value (m, rest) else elim (w.skip (tag % 8) rest) [
                  | none ↦ thrown
                  | some rest' ↦ loop clauses fuel start length' m rest'
                ]
          ]
        ])
        else value (m, b)

    -- `decode(reader, length)`. Each round takes a byte, so that this fuel is enough.
    unfoldable pub decode_from : M → List (Clause M) → ℕ → Bytes → Outcome (M × Bytes)
    unfolding loop
    decode_from base clauses length' b = loop clauses (suc (length b)) (length b) length' base b

    abbrev pub drop_rest : Outcome (M × Bytes) → Outcome M
    drop_rest (value r) = value r.0
    drop_rest thrown = thrown
    drop_rest stuck = stuck

    -- `decode(bytes)`
    abbrev pub decode_all : (ℕ → Bytes → Outcome (M × Bytes)) → Bytes → Outcome M
    decode_all decode b = drop_rest (decode (length b) b)

    -- `….decode(reader, reader.uint32())`
    abbrev pub put_decoded :
        {V : Type 0} → (V → M → M) → M → Outcome (V × Bytes) → Outcome (M × Bytes)
    put_decoded set m (value r) = value (set r.0 m, r.1)
    put_decoded set m thrown = thrown
    put_decoded set m stuck = stuck

    abbrev pub message_case :
        {V : Type 0} → (ℕ → Bytes → Outcome (V × Bytes)) → ℕ → (V → M → M) → Clause M
    message_case decode tag set =
        (tag, λ m b. put_decoded set m (decode_length decode (w.read_uint32 b)))
