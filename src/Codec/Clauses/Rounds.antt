-- ===== src/Codec/Clauses/Rounds.antt =====
-- What is written is read: one field and its round of the loop.
use hdns.Prelude.{
  ℕ, suc, ◌+◌, ◌-◌, ◌^◌, ◌≡◌, ◌≤◌, ◌<◌, refl, ◌∙◌, subst, Bool, true, false, Option, some, List, [],
  ◌∷◌, ◌++◌, length, length-append, ltb, arith,
}
use mathlib.Core.List.{append_assoc}
use hdns.Codec.Wire.{Wire, WireLaws, WireMoves, Bytes}
use hdns.Codec.Clauses.{
  Outcome, value, Clause, select, then_write, write_all, unless, tagged, loop, decode_from,
}

infixr 20 ◌▸◌
module _ (w : Wire) where
  -- What was written takes the loop from a message to another, in as many rounds as it has bytes or
  -- fewer.
  pub record Carries {M : Type 0} (clauses : List (Clause M)) (c : Option Bytes) (m m' : M)
      : Type 0 where
    pub bytes : Bytes
    pub rounds : ℕ
    pub written : c ≡ some bytes
    pub few : rounds ≤ length bytes
    pub runs :
        (total fuel start length' : ℕ) (rest : Bytes)
        → total ≡ rounds + fuel
        → start ≤ length rest + length'
        → loop w clauses total start length' m (bytes ++ rest)
          ≡ loop w clauses fuel start length' m' rest

  module _ {M : Type 0} (clauses : List (Clause M)) where
    pub Carries-nothing : (m : M) → Carries clauses (some []) m m
    Carries-nothing m = record {
      bytes = [];
      rounds = 0;
      written = refl;
      few = omega arith;
      runs = λ total fuel start length' rest e h. let e' : total ≡ fuel = omega arith in rw e' refl;
    }

    pub Carries-then :
        (c d : Option Bytes) (m m' m'' : M)
        → Carries clauses c m m'
        → Carries clauses d m' m''
        → Carries clauses (then_write c d) m m''
    Carries-then c d m m' m'' p q = record {
      bytes = p.bytes ++ q.bytes;
      rounds = p.rounds + q.rounds;
      written = rw (p.written, q.written) refl;
      few = let a = p.few in let b = q.few in omega (arith, length-append p.bytes q.bytes);
      runs = λ total fuel start length' rest e h. rw (append_assoc p.bytes q.bytes rest) (
          p.runs total (q.rounds + fuel) start length' (q.bytes ++ rest) (omega arith)
            (omega (arith, length-append q.bytes rest))
          ∙ q.runs (q.rounds + fuel) fuel start length' rest refl h);
    }

    -- Fields one after another, each from the message that the one before left.
    pub data Steps : List (Option Bytes) → M → M → Type 0 where
      done : {m : M} → Steps [] m m
      ◌▸◌ :
          {c : Option Bytes} {cs : List (Option Bytes)} {m m' m'' : M}
          → Carries clauses c m m'
          → Steps cs m' m''
          → Steps (c ∷ cs) m m''

    pub Steps-Carries :
        (cs : List (Option Bytes)) (m m' : M) → Steps cs m m' → Carries clauses (write_all cs) m m'
    unfolding write_all
    Steps-Carries [] m m' done = Carries-nothing m
    Steps-Carries (c ∷ cs) m m'' (◌▸◌ {m' = m'} p q) =
        Carries-then c (write_all cs) m m' m'' p (Steps-Carries cs m' m'' q)

  module _ (laws : WireLaws w) (moves : WireMoves w) {M : Type 0} (clauses : List (Clause M)) where
    -- A round that finds the clause of the tag.
    round :
        (fuel start length' tag : ℕ) (m m' : M) (b rest rest' : Bytes)
        (f : M → Bytes → Outcome (M × Bytes))
        → start < length b + length'
        → w.read_uint32 b ≡ some (tag, rest)
        → select clauses tag ≡ some f
        → f m rest ≡ value (m', rest')
        → loop w clauses (suc fuel) start length' m b ≡ loop w clauses fuel start length' m' rest'
    unfolding loop
    round fuel start length' tag m m' b rest rest' f h r s p =
        let t : ltb start (length b + length') ≡ true = ground arith in rw (t, r, s, p) refl

    -- A field that is written, and its clause that reads it.
    pub tagged-Carries :
        (tag : ℕ) (payload : Bytes) (m m' : M) (f : M → Bytes → Outcome (M × Bytes))
        → tag < 2 ^ 32
        → select clauses tag ≡ some f
        → ((rest : Bytes) → f m (payload ++ rest) ≡ value (m', rest))
        → Carries clauses (tagged w tag (some payload)) m m'
    tagged-Carries tag payload m m' f h s p =
        let (b, e, back) = laws.uint32_back tag h in
        let one = moves.uint32_takes (b ++ []) [] tag (back []) in
        record {
          bytes = b ++ payload;
          rounds = 1;
          written = rw e refl;
          few = omega (arith, length-append b payload, length-append b []);
          runs = λ total fuel start length' rest t k.
              let t' : total ≡ suc fuel = omega arith in
              let h' : start < length (b ++ (payload ++ rest)) + length' = omega (
                arith,
                length-append b [],
                length-append b (payload ++ rest),
                length-append payload rest,
              ) in
              rw (t', append_assoc b payload rest)
                (round fuel start length' tag m m' (b ++ (payload ++ rest)) (payload ++ rest) rest f
                  h' (back (payload ++ rest)) s (p rest));
        }

    -- A field that is left out where it has its default.
    pub field-Carries :
        (test : Bool) (tag : ℕ) (payload : Option Bytes) (m m' : M)
        (f : M → Bytes → Outcome (M × Bytes))
        → (test ≡ true → m ≡ m')
        → tag < 2 ^ 32
        → select clauses tag ≡ some f
        → (b : Bytes) × (payload ≡ some b) × ((rest : Bytes) → f m (b ++ rest) ≡ value (m', rest))
        → Carries clauses (unless w test (tagged w tag payload)) m m'
    field-Carries true tag payload m m' f d h s (b, e, p) =
        subst (λ x. Carries clauses (some []) m x) (d refl) (Carries-nothing clauses m)
    field-Carries false tag payload m m' f d h s (b, e, p) =
        rw e (tagged-Carries tag b m m' f h s p)

  -- A whole message.
  abbrev pub RoundTrip :
      {M : Type 0} → (M → Option Bytes) → (ℕ → Bytes → Outcome (M × Bytes)) → M → Type 0
  RoundTrip encode decode m =
      (b : Bytes) × (encode m ≡ some b)
      × ((rest : Bytes) → decode (length b) (b ++ rest) ≡ value (m, rest))

  loop_stops :
      {M : Type 0} (clauses : List (Clause M)) (fuel start length' : ℕ) (m : M) (b : Bytes)
      → length b + length' ≤ start
      → loop w clauses (suc fuel) start length' m b ≡ value (m, b)
  unfolding loop
  loop_stops clauses fuel start length' m b h =
      let t : ltb start (length b + length') ≡ false = ground arith in rw t refl

  pub Carries-RoundTrip :
      {M : Type 0} (clauses : List (Clause M)) (base m : M) (c : Option Bytes)
      → Carries clauses c base m
      → (b : Bytes) × (c ≡ some b)
        × ((rest : Bytes) → decode_from w base clauses (length b) (b ++ rest) ≡ value (m, rest))
  unfolding decode_from
  Carries-RoundTrip clauses base m c p = (
    p.bytes,
    p.written,
    λ rest.
        let fuel = length (p.bytes ++ rest) - p.rounds in
        let few = p.few in
        p.runs (suc (length (p.bytes ++ rest))) (suc fuel) (length (p.bytes ++ rest))
          (length p.bytes) rest (omega (arith, length-append p.bytes rest))
          (omega (arith, length-append p.bytes rest))
        ∙ loop_stops clauses fuel (length (p.bytes ++ rest)) (length p.bytes) m rest
            (omega (arith, length-append p.bytes rest)),
  )

  pub Steps-RoundTrip :
      {M : Type 0} (clauses : List (Clause M)) (cs : List (Option Bytes)) (base m : M)
      → Steps clauses cs base m
      → (b : Bytes) × (write_all cs ≡ some b)
        × ((rest : Bytes) → decode_from w base clauses (length b) (b ++ rest) ≡ value (m, rest))
  Steps-RoundTrip clauses cs base m p =
      Carries-RoundTrip clauses base m (write_all cs) (Steps-Carries clauses cs base m p)
