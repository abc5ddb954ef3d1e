-- ===== src/Codec/Clauses/Ends.antt =====
-- Every call ends: a clause leaves no more bytes than it was given, and each round takes one.
use hdns.Prelude.{
  ℕ, zero, suc, ◌≡◌, ◌<◌, ◌≤◌, refl, String, Bool, Option, some, List, [], ◌∷◌, length, ltb, arith,
  inl, inr, Option-cases, Bool-cases, All, sym, ◌∙◌, subst, get_or, ℤ, pos, ◌+◌, ◌%◌, ◌==◌,
  if◌then◌else◌, ◌||◌,
}
use hdns.Codec.Wire.{Wire, WireMoves, Bytes, Takes}
use hdns.Codec.Clauses.{
  Outcome, value, thrown, stuck, bind, Clause, select, loop, decode_from, put_read, put_long,
  put_decoded, long_to_number, uint32_case, int32_case, int64_case, bool_case, string_case,
  double_case, message_case,
}

-- A call that ends, with `n` bytes behind it at most.
abbrev pub Ends : {M : Type 0} → ℕ → Outcome (M × Bytes) → Type 0
Ends n (value r) = length (r.1) ≤ n
Ends n thrown = Unit
Ends n stuck = ⊥

abbrev pub ClauseEnds : {M : Type 0} → Clause M → Type 0
ClauseEnds {M = M} c = (m : M) (b : Bytes) → Ends (length b) ((c.1) m b)

Ends-weaken : {M : Type 0} (n k : ℕ) (o : Outcome (M × Bytes)) → n ≤ k → Ends n o → Ends k o
Ends-weaken n k stuck h e = e
Ends-weaken n k (value r) h e = omega arith
Ends-weaken n k thrown h e = tt

select-Ends :
    {M : Type 0} (clauses : List (Clause M)) (tag : ℕ) (f : M → Bytes → Outcome (M × Bytes))
    → All ClauseEnds clauses
    → select clauses tag ≡ some f
    → (m : M) (b : Bytes) → Ends (length b) (f m b)
unfolding select
select-Ends [] tag f h e m b = absurd cc
select-Ends ((t, g) ∷ cs) tag f (h, hs) e m b = elim (Bool-cases (tag == t)) [
  | inl k ↦
      let x : (if tag == t then some g else select cs tag) ≡ some g = rw k refl in
      subst (λ y. Ends (length b) (get_or y g m b)) (sym x ∙ e) (h m b)
  | inr k ↦
      let x : (if tag == t then some g else select cs tag) ≡ select cs tag = rw k refl in
      select-Ends cs tag f hs (sym x ∙ e) m b
]

bind-Ends :
    {M : Type 0} (n k : ℕ) (o : Outcome (M × Bytes)) (f : M × Bytes → Outcome (M × Bytes))
    → Ends n o
    → ((r : M × Bytes) → length (r.1) ≤ n → Ends k (f r))
    → Ends k (bind o f)
bind-Ends n k (value r) f e h = h r e
bind-Ends n k thrown f e h = tt
bind-Ends n k stuck f e h = e

module _ (w : Wire) (moves : WireMoves w) where
  -- A round, where the rounds after it end.
  round-Ends :
      {M : Type 0} (clauses : List (Clause M)) (fuel start length' : ℕ) (m : M) (b : Bytes)
      → All ClauseEnds clauses
      → ((m : M) (b' : Bytes)
          → length b' < length b
          → Ends (length b) (loop w clauses fuel start length' m b'))
      → Ends (length b) (loop w clauses (suc fuel) start length' m b)
  unfolding loop
  round-Ends clauses fuel start length' m b h go =
      elim (Bool-cases (ltb start (length b + length'))) [
        | inr t ↦ rw t (omega arith)
        | inl t ↦ elim (Option-cases (w.read_uint32 b)) [
          | inl e ↦ rw (t, e) tt
          | inr ((tag, rest), e) ↦
              let less = moves.uint32_takes b rest tag e in
              elim (Option-cases (select clauses tag)) [
                | inr (f, s) ↦
                    rw (t, e, s)
                      (bind-Ends (length rest) (length b) (f m rest)
                        (λ r. loop w clauses fuel start length' (r.0) (r.1))
                        (select-Ends clauses tag f h s m rest)
                        (λ r l. go (r.0) (r.1) (omega arith)))
                | inl s ↦ elim (Bool-cases (tag % 8 == 4 || tag == 0)) [
                  | inl d ↦ rw (t, e, s, d) (omega arith)
                  | inr d ↦ elim (Option-cases (w.skip (tag % 8) rest)) [
                    | inl k ↦ rw (t, e, s, d, k) tt
                    | inr (rest', k) ↦
                        let stays = moves.skip_stays (tag % 8) rest rest' k in
                        rw (t, e, s, d, k) (go m rest' (omega arith))
                  ]
                ]
              ]
        ]
      ]

  loop-Ends :
      {M : Type 0} (clauses : List (Clause M)) (fuel start length' : ℕ) (m : M) (b : Bytes)
      → All ClauseEnds clauses
      → length b < fuel
      → Ends (length b) (loop w clauses fuel start length' m b)
  loop-Ends clauses zero start length' m b h k = absurd (omega arith)
  loop-Ends clauses (suc fuel) start length' m b h k =
      round-Ends clauses fuel start length' m b h (λ m' b' less.
        Ends-weaken (length b') (length b) (loop w clauses fuel start length' m' b') (omega arith)
          (loop-Ends clauses fuel start length' m' b' h (omega arith)))

  pub decode_from-Ends :
      {M : Type 0} (base : M) (clauses : List (Clause M)) (length' : ℕ) (b : Bytes)
      → All ClauseEnds clauses
      → Ends (length b) (decode_from w base clauses length' b)
  unfolding decode_from
  decode_from-Ends base clauses length' b h =
      loop-Ends clauses (suc (length b)) (length b) length' base b h (omega arith)

  put_read-Ends :
      {M V : Type 0} (read : Bytes → Option (V × Bytes)) (set : V → M → M) (m : M) (b : Bytes)
      → Takes read
      → Ends (length b) (put_read w set (read b) m)
  put_read-Ends read set m b h = elim (Option-cases (read b)) [
    | inl e ↦ rw e tt
    | inr ((v, rest), e) ↦ let less = h b rest v e in rw e (omega arith)
  ]

  module _ {M : Type 0} (tag : ℕ) where
    pub uint32_case-ClauseEnds : (set : ℤ → M → M) → ClauseEnds (uint32_case w tag set)
    uint32_case-ClauseEnds set m b =
        put_read-Ends (w.read_uint32) (λ n. set (pos n)) m b (moves.uint32_takes)

    pub int32_case-ClauseEnds : (set : ℤ → M → M) → ClauseEnds (int32_case w tag set)
    int32_case-ClauseEnds set m b = put_read-Ends (w.read_int32) set m b (moves.int32_takes)

    pub bool_case-ClauseEnds : (set : Bool → M → M) → ClauseEnds (bool_case w tag set)
    bool_case-ClauseEnds set m b = put_read-Ends (w.read_bool) set m b (moves.bool_takes)

    pub string_case-ClauseEnds : (set : String → M → M) → ClauseEnds (string_case w tag set)
    string_case-ClauseEnds set m b = put_read-Ends (w.read_string) set m b (moves.string_takes)

    pub double_case-ClauseEnds : (set : String → M → M) → ClauseEnds (double_case w tag set)
    double_case-ClauseEnds set m b = put_read-Ends (w.read_double) set m b (moves.double_takes)

    pub int64_case-ClauseEnds : (set : ℤ → M → M) → ClauseEnds (int64_case w tag set)
    unfolding put_long
    int64_case-ClauseEnds set m b = elim (Option-cases (w.read_int64 b)) [
      | inl e ↦ rw e tt
      | inr ((z, rest), e) ↦
          let less = moves.int64_takes b rest z e in
          elim (Option-cases (long_to_number z)) [
            | inl t ↦ rw (e, t) tt
            | inr (z', t) ↦ rw (e, t) (omega arith)
          ]
    ]

    put_decoded-Ends :
        {V : Type 0} (n k : ℕ) (set : V → M → M) (m : M) (o : Outcome (V × Bytes))
        → n ≤ k
        → Ends n o
        → Ends k (put_decoded w set m o)
    put_decoded-Ends n k set m (value r) h e = omega arith
    put_decoded-Ends n k set m thrown h e = tt
    put_decoded-Ends n k set m stuck h e = e

    pub message_case-ClauseEnds :
        {V : Type 0} (decode : ℕ → Bytes → Outcome (V × Bytes)) (set : V → M → M)
        → ((n : ℕ) (b : Bytes) → Ends (length b) (decode n b))
        → ClauseEnds (message_case w decode tag set)
    message_case-ClauseEnds decode set h m b = elim (Option-cases (w.read_uint32 b)) [
      | inl e ↦ rw e tt
      | inr ((n, rest), e) ↦
          let less = moves.uint32_takes b rest n e in
          rw e (
            put_decoded-Ends (length rest) (length b) set m (decode n rest) (omega arith)
              (h n rest))
    ]
