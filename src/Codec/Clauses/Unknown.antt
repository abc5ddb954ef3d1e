-- ===== src/Codec/Clauses/Unknown.antt =====
-- A field without a clause: the loop steps over it.
use hdns.Prelude.{
  ℕ, suc, ◌+◌, ◌%◌, ◌^◌, ◌≡◌, ◌<◌, refl, true, false, ◌||◌, none, some, List, [], ◌++◌, length,
  length-append, ltb, ◌==◌, arith,
}
use mathlib.Core.List.{append_assoc}
use hdns.Codec.Wire.{Wire, WireLaws, WireMoves, Bytes}
use hdns.Codec.Clauses.{Clause, select, tagged, loop}
use hdns.Codec.Clauses.Rounds.{Carries}

module _ (w : Wire) (laws : WireLaws w) (moves : WireMoves w) {M : Type 0}
    (clauses : List (Clause M)) where
  skip_round :
      (fuel start length' tag : ℕ) (m : M) (b rest rest' : Bytes)
      → start < length b + length'
      → w.read_uint32 b ≡ some (tag, rest)
      → select clauses tag ≡ none
      → (tag % 8 == 4 || tag == 0) ≡ false
      → w.skip (tag % 8) rest ≡ some rest'
      → loop w clauses (suc fuel) start length' m b ≡ loop w clauses fuel start length' m rest'
  unfolding loop
  skip_round fuel start length' tag m b rest rest' h r s d p =
      let t : ltb start (length b + length') ≡ true = ground arith in rw (t, r, s, d, p) refl

  pub unknown-Carries :
      (tag : ℕ) (payload : Bytes) (m : M)
      → tag < 2 ^ 32
      → select clauses tag ≡ none
      → (tag % 8 == 4 || tag == 0) ≡ false
      → ((rest : Bytes) → w.skip (tag % 8) (payload ++ rest) ≡ some rest)
      → Carries w clauses (tagged w tag (some payload)) m m
  unknown-Carries tag payload m h s d p =
      let (b, e, back) = laws.uint32_back tag h in
      let one = moves.uint32_takes (b ++ []) [] tag (back []) in
      record {
        bytes = b ++ payload;
        rounds = 1;
        written = rw e refl;
        few = omega (arith, length-append b payload, length-append b []);
        runs = λ total fuel start length' rest t k.
            let t' : total ≡ suc fuel = omega arith in
            let h' : start < length (b ++ (payload ++ rest)) + length' = omega (
              arith,
              length-append b [],
              length-append b (payload ++ rest),
              length-append payload rest,
            ) in
            rw (t', append_assoc b payload rest)
              (skip_round fuel start length' tag m (b ++ (payload ++ rest)) (payload ++ rest) rest
                h' (back (payload ++ rest)) s d (p rest));
      }
