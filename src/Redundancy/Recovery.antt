-- ===== src/Redundancy/Recovery.antt =====
-- That compute restores the chunks of a stripe that are missing (src/RedundancyProvider.cc).
use kineticio.Prelude.{
  ℕ, suc, ◌+◌, ◌≤◌, ◌<◌, ◌≡◌, refl, ap, sym, subst, ◌∙◌, inl, inr, Bool, true, false, List, [], ◌∷◌,
  ◌++◌, length, arith, ◌==◌, if◌then◌else◌, ok, replicate, Bool-cases, length-append,
  length-replicate,
}
use kineticio.Str.{Bytes}
use kineticio.Redundancy.{
  CodingTable, RedundancyProvider, size, error_pattern, replication, pick, recode, compute,
}
use kineticio.Redundancy.Damage.{
  errors, damage, missing, Uniform, Healthy, error_pattern-damage, fill-damage, pick-damage,
  damage_none, replication-damage, Uniform-append_left, Uniform-append, fresh_pattern,
  fresh_pattern_lem, damage-fresh_pattern, Uniform-replicate, first_or_empty,
}

-- What isa-l's Cauchy codes promise, for stripes of `size rp` chunks: every set of data chunks of one
-- length has parity chunks of that length, and from the table of any pattern with at most
-- `num_parity` errors the missing chunks are computed out of chunks that are there.
pub record IsErasureCode (rp : RedundancyProvider) : Type 0 where
  pub parity : List Bytes → List Bytes
  pub length-parity :
      (n : ℕ) (data_chunks : List Bytes)
      → length data_chunks ≡ rp.num_data
      → Uniform n data_chunks
      → (length (parity data_chunks) ≡ rp.num_parity) × Uniform n (parity data_chunks)
  pub decodes :
      (n : ℕ) (data_chunks : List Bytes) (p : List Bool)
      → length data_chunks ≡ rp.num_data
      → Uniform (suc n) data_chunks
      → length p ≡ size rp
      → errors p ≤ rp.num_parity
      → (table : CodingTable) × (inputs : List Bytes) × (rp.coding_table p ≡ ok table)
        × Healthy p table.block_indices
        × (pick table.block_indices (data_chunks ++ parity data_chunks) ≡ ok inputs)
        × (table.encode inputs ≡ missing p (data_chunks ++ parity data_chunks))

-- A stripe of equal, not empty chunks as the provider codes it: data alone, copies, or a codeword.
pub data IsStripe (rp : RedundancyProvider) (code : IsErasureCode rp) : List Bytes → Type 0 where
  plain : {full : List Bytes} → rp.num_parity ≡ 0 → IsStripe rp code full
  copies :
      {full : List Bytes} (c : Bytes)
      → rp.num_data ≡ 1
      → full ≡ replicate (size rp) c
      → IsStripe rp code full
  coded :
      {full : List Bytes} (data_chunks : List Bytes)
      → (rp.num_data == 1) ≡ false
      → length data_chunks ≡ rp.num_data
      → full ≡ data_chunks ++ code.parity data_chunks
      → IsStripe rp code full

-- The three ways of compute, once the pattern is found.
module _ (rp : RedundancyProvider) (p : List Bool) (stripe : List Bytes)
    (found : error_pattern rp stripe ≡ ok p) where
  compute_bare : (rp.num_parity == 0) ≡ true → compute rp stripe ≡ ok stripe
  unfolding compute
  compute_bare h = rw (found, h, compute)

  compute_copies :
      (rp.num_parity == 0) ≡ false
      → (rp.num_data == 1) ≡ true
      → compute rp stripe ≡ replication p stripe
  unfolding compute
  compute_copies h k = rw (found, h, k, compute)

  compute_coded :
      (rp.num_parity == 0) ≡ false
      → (rp.num_data == 1) ≡ false
      → compute rp stripe ≡ recode rp p stripe
  unfolding compute
  compute_coded h k = rw (found, h, k, compute)

module _ (rp : RedundancyProvider) (code : IsErasureCode rp) where
  recode-damage :
      (n : ℕ) (p : List Bool) (chunks : List Bytes)
      → length chunks ≡ rp.num_data
      → Uniform (suc n) chunks
      → length p ≡ size rp
      → errors p ≤ rp.num_parity
      → recode rp p (damage p (chunks ++ code.parity chunks)) ≡ ok (chunks ++ code.parity chunks)
  unfolding recode
  recode-damage n p chunks sized uniform covers few =
      let full = chunks ++ code.parity chunks in
      let (table, inputs, t, healthy, picked, decoded) =
        code.decodes n chunks p sized uniform covers few in
      let whole : length p ≡ length full = omega (
        arith,
        length-append chunks (code.parity chunks),
        (code.length-parity (suc n) chunks sized uniform).0,
      ) in
      ground (
        arith,
        t,
        pick-damage p full table.block_indices healthy,
        picked,
        decoded,
        fill-damage p full whole,
      )

  -- A stripe of equal, not empty chunks, as the provider codes it, from which at most `num_parity`
  -- chunks are missing, is restored by compute, whichever chunks these are.
  pub compute-damage :
      (n : ℕ) (p : List Bool) (full : List Bytes)
      → IsStripe rp code full
      → 0 < rp.num_data
      → length full ≡ size rp
      → Uniform (suc n) full
      → length p ≡ size rp
      → errors p ≤ rp.num_parity
      → compute rp (damage p full) ≡ ok full
  compute-damage n p full s some_data sized uniform covers few =
      let found = error_pattern-damage rp n p full sized (covers ∙ sym sized) uniform few in
      elim (Bool-cases (rp.num_parity == 0)) [
        | inl bare ↦
            let whole : damage p full ≡ full = damage_none p full (ground arith) in
            compute_bare rp p (damage p full) found bare ∙ ap ok whole
        | inr more ↦ elim s [
          | plain e ↦ absurd (ground arith)
          | copies c e f ↦
              compute_copies rp p (damage p full) found more (ground arith)
              ∙ rw f (replication-damage c p (size rp) covers (omega arith))
          | coded chunks e l f ↦
              compute_coded rp p (damage p full) found more e
              ∙ rw f (
                  recode-damage n p chunks l
                    (Uniform-append_left (suc n) chunks (code.parity chunks)
                      (subst (Uniform (suc n)) f uniform))
                    covers few)
        ]
      ]

  -- The coded stripe that begins with the given chunks.
  abbrev tail_chunks : List Bytes → List Bytes
  tail_chunks chunks =
      if rp.num_parity == 0
      then []
      else if rp.num_data == 1
      then replicate rp.num_parity (first_or_empty chunks)
      else code.parity chunks

  single_lem :
      (n : ℕ) (chunks : List Bytes)
      → rp.num_data ≡ 1
      → length chunks ≡ rp.num_data
      → Uniform (suc n) chunks
      → IsStripe rp code (chunks ++ replicate rp.num_parity (first_or_empty chunks))
        × (length (replicate rp.num_parity (first_or_empty chunks)) ≡ rp.num_parity)
        × Uniform (suc n) (chunks ++ replicate rp.num_parity (first_or_empty chunks))
  single_lem n [] one sized uniform = absurd (omega arith)
  single_lem n (c ∷ []) one sized (h, u) = (
    copies c one (let e : rp.num_data + rp.num_parity ≡ suc rp.num_parity = omega arith in rw e),
    length-replicate rp.num_parity c,
    (h, Uniform-replicate (suc n) rp.num_parity c h),
  )
  single_lem n (c ∷ c' ∷ cs) one sized uniform = absurd (omega arith)

  tail_lem :
      (n : ℕ) (chunks : List Bytes)
      → 0 < rp.num_data
      → length chunks ≡ rp.num_data
      → Uniform (suc n) chunks
      → IsStripe rp code (chunks ++ tail_chunks chunks)
        × (length (tail_chunks chunks) ≡ rp.num_parity)
        × Uniform (suc n) (chunks ++ tail_chunks chunks)
  tail_lem n chunks some_data sized uniform = elim (Bool-cases (rp.num_parity == 0)) [
    | inl bare ↦
        rw bare (plain (ground arith), ground arith, Uniform-append (suc n) chunks [] uniform tt)
    | inr more ↦ elim (Bool-cases (rp.num_data == 1)) [
      | inl single ↦ rw (more, single) (single_lem n chunks (ground arith) sized uniform)
      | inr several ↦
          let (l, u) = code.length-parity (suc n) chunks sized uniform in
          rw (more, several)
            (coded chunks several sized refl, l, Uniform-append (suc n) chunks _ uniform u)
    ]
  ]

  -- compute on equal, not empty data chunks, followed by an empty chunk for each parity, yields a
  -- stripe that begins with the data chunks, is coded, and has chunks of the same length.
  pub compute-append_replicate :
      (n : ℕ) (chunks : List Bytes)
      → 0 < rp.num_data
      → length chunks ≡ rp.num_data
      → Uniform (suc n) chunks
      → (tail : List Bytes) × (compute rp (chunks ++ replicate rp.num_parity [])
          ≡ ok (chunks ++ tail))
        × IsStripe rp code (chunks ++ tail)
        × (length tail ≡ rp.num_parity)
        × Uniform (suc n) (chunks ++ tail)
  compute-append_replicate n chunks some_data sized uniform =
      let tail = tail_chunks chunks in
      let (kind, counted, whole) = tail_lem n chunks some_data sized uniform in
      let (covers, few) = fresh_pattern_lem rp.num_data rp.num_parity in
      (
        tail,
        subst (λ x. compute rp x ≡ ok (chunks ++ tail))
            (damage-fresh_pattern rp.num_data rp.num_parity chunks tail sized counted)
            (compute-damage n (fresh_pattern rp.num_data rp.num_parity) (chunks ++ tail) kind
              some_data (omega (arith, length-append chunks tail)) whole covers (omega arith)),
        kind,
        counted,
        whole,
      )
