-- ===== src/Quorum/Counts.antt =====
-- The map holds the number of each code, and an entry that reaches a majority is the only one.
use kineticio.Prelude.{
  ℕ, ◌+◌, ◌≤◌, ◌<◌, ◌≡◌, refl, sym, ◌∙◌, true, false, List, [], ◌∷◌, none, some, length, leb, arith,
  ◌==◌, if◌then◌else◌, Bool-cases, ==→eq, ==_refl, inl, inr,
}
use kineticio.Kinetic.{StatusCode, code_eq, code_eq→eq, code_eq_refl}
use kineticio.Quorum.{rank, ResultMap, bump, lookup, count_results, find_quorum}

-- How often a code stands in a list.
abbrev pub count : StatusCode → List StatusCode → ℕ
count c [] = 0
count c (d ∷ ds) = if code_eq c d then count c ds + 1 else count c ds

pub count-le-length : (c : StatusCode) (ds : List StatusCode) → count c ds ≤ length ds
count-le-length c [] = omega arith
count-le-length c (d ∷ ds) = ground (arith, count-le-length c ds)

-- Two codes together are counted at most once for each answer.
pub count_disjoint :
    (c d : StatusCode) (es : List StatusCode)
    → code_eq c d ≡ false
    → count c es + count d es ≤ length es
count_disjoint c d [] h = omega arith
count_disjoint c d (e ∷ es) h = elim (Bool-cases (code_eq c e)) [
  | inr k ↦ ground (arith, count_disjoint c d es h)
  | inl k ↦ elim (Bool-cases (code_eq d e)) [
    | inr l ↦ ground (arith, count_disjoint c d es h)
    | inl l ↦
        let same : c ≡ d = code_eq→eq c e k ∙ sym (code_eq→eq d e l) in
        let other : code_eq c d ≡ true = rw same (code_eq_refl d) in cc
  ]
]

module _ (ordinal : StatusCode → ℕ)
    (distinct : (c d : StatusCode) → rank ordinal c ≡ rank ordinal d → c ≡ d) where
  -- The keys rise.
  abbrev pub Above : ℕ → ResultMap → Type 0
  Above r [] = Unit {0}
  Above r ((d, n) ∷ m) = (r < rank ordinal d) × Above (rank ordinal d) m

  abbrev pub IsSorted : ResultMap → Type 0
  IsSorted [] = Unit {0}
  IsSorted ((d, n) ∷ m) = Above (rank ordinal d) m

  pub lookup_below :
      (c : StatusCode) (r : ℕ) (m : ResultMap)
      → Above r m
      → rank ordinal c ≤ r
      → lookup ordinal c m ≡ 0
  unfolding lookup
  lookup_below c r [] a h = refl
  lookup_below c r ((d, n) ∷ m) (k, a) h = ground (arith, lookup_below c (rank ordinal d) m a)

  pub Above-IsSorted : (r : ℕ) (m : ResultMap) → Above r m → IsSorted m
  Above-IsSorted r [] a = tt
  Above-IsSorted r ((d, n) ∷ m) a = a.1

  bump-Above :
      (c : StatusCode) (r : ℕ) (m : ResultMap)
      → Above r m
      → r < rank ordinal c
      → Above r (bump ordinal c m)
  unfolding bump
  bump-Above c r [] a h = (h, tt)
  bump-Above c r ((d, n) ∷ m) (k, a) h = ground (arith, bump-Above c (rank ordinal d) m a)

  bump-IsSorted : (c : StatusCode) (m : ResultMap) → IsSorted m → IsSorted (bump ordinal c m)
  unfolding bump
  bump-IsSorted c [] s = tt
  bump-IsSorted c ((d, n) ∷ m) s = ground (arith, bump-Above c (rank ordinal d) m s)

  lookup-bump :
      (c d : StatusCode) (m : ResultMap)
      → IsSorted m
      → lookup ordinal c (bump ordinal d m)
        ≡ (if rank ordinal c == rank ordinal d then lookup ordinal c m + 1 else lookup ordinal c m)
  unfolding lookup bump
  lookup-bump c d [] s = ground arith
  lookup-bump c d ((e, n) ∷ m) s = ground (
    arith,
    lookup-bump c d m (Above-IsSorted (rank ordinal e) m s),
    lookup_below c (rank ordinal e) m s,
  )

  rank-code_eq : (c d : StatusCode) → (rank ordinal c == rank ordinal d) ≡ code_eq c d
  rank-code_eq c d = elim (Bool-cases (code_eq c d)) [
    | inl h ↦ rw (h, code_eq→eq c d h) (==_refl (rank ordinal d))
    | inr h ↦ elim (Bool-cases (rank ordinal c == rank ordinal d)) [
      | inr k ↦ k ∙ sym h
      | inl k ↦
          let same : c ≡ d = distinct c d (==→eq (rank ordinal c) (rank ordinal d) k) in
          let other : code_eq c d ≡ true = rw same (code_eq_refl d) in cc
    ]
  ]

  pub lookup-count_results :
      (c : StatusCode) (ds : List StatusCode) (m : ResultMap)
      → IsSorted m
      → IsSorted (count_results ordinal ds m)
        × (lookup ordinal c (count_results ordinal ds m) ≡ lookup ordinal c m + count c ds)
  unfolding count_results
  lookup-count_results c [] m s = (s, omega arith)
  lookup-count_results c (d ∷ ds) m s =
      let (t, e) = lookup-count_results c ds (bump ordinal d m) (bump-IsSorted d m s) in
      (t, ground (arith, e, lookup-bump c d m s, rank-code_eq c d))

  found-Above :
      (q r : ℕ) (m : ResultMap) (c : StatusCode) (n : ℕ)
      → Above r m
      → find_quorum q m ≡ some (c, n)
      → r < rank ordinal c
  unfolding find_quorum
  found-Above q r [] c n a h = cc
  found-Above q r ((d, k) ∷ m) c n (b, a) h = ground (arith, found-Above q (rank ordinal d) m c n a)

  find_quorum-lookup :
      (q : ℕ) (m : ResultMap) (c : StatusCode) (n : ℕ)
      → IsSorted m
      → find_quorum q m ≡ some (c, n)
      → (q ≤ n) × (lookup ordinal c m ≡ n)
  unfolding find_quorum lookup
  find_quorum-lookup q [] c n s h = cc
  find_quorum-lookup q ((d, k) ∷ m) c n s h = elim (Bool-cases (leb q k)) [
    | inl e ↦ ground (arith, ==_refl (rank ordinal c))
    | inr e ↦
        let found : find_quorum q m ≡ some (c, n) = ground arith in
        let (a, b) = find_quorum-lookup q m c n (Above-IsSorted (rank ordinal d) m s) found in
        (a, ground (arith, b, found-Above q (rank ordinal d) m c n s found))
  ]

  find_quorum-none :
      (q : ℕ) (m : ResultMap) (c : StatusCode)
      → 0 < q
      → find_quorum q m ≡ none
      → lookup ordinal c m < q
  unfolding find_quorum lookup
  find_quorum-none q [] c p h = p
  find_quorum-none q ((d, k) ∷ m) c p h = ground (arith, find_quorum-none q m c p)

  -- The evaluation of the drives' answers by the first entry that reaches the quorum: the entry's
  -- number is the number of drives that gave that code, and reaches the quorum; and if no entry is
  -- found, every code was given by fewer drives.
  pub find_quorum-count :
      (q : ℕ) (codes : List StatusCode)
      → 0 < q
      → ((c : StatusCode) (n : ℕ)
          → find_quorum q (count_results ordinal codes []) ≡ some (c, n)
          → (q ≤ n) × (n ≡ count c codes))
        × (find_quorum q (count_results ordinal codes []) ≡ none
            → (c : StatusCode) → count c codes < q)
  unfolding lookup
  find_quorum-count q codes p = (
    λ c n h.
        let (s, e) = lookup-count_results c codes [] tt in
        let (a, b) = find_quorum-lookup q (count_results ordinal codes []) c n s h in
        (a, omega (arith, e, b)),
    λ h c.
        let (s, e) = lookup-count_results c codes [] tt in
        omega (arith, e, find_quorum-none q (count_results ordinal codes []) c p h),
  )

  -- With more data than parity chunks, as ClusterMap demands, the code that reaches the quorum of
  -- `num_data` among all the drives of the stripe is the only one: the order of the map does not
  -- decide.
  pub find_quorum_unique :
      (num_data num_parity : ℕ) (codes : List StatusCode) (c d : StatusCode) (n : ℕ)
      → num_parity < num_data
      → length codes ≡ num_data + num_parity
      → find_quorum num_data (count_results ordinal codes []) ≡ some (c, n)
      → num_data ≤ count d codes
      → d ≡ c
  find_quorum_unique num_data num_parity codes c d n few sized found enough =
      let (a, b) = (find_quorum-count num_data codes (omega arith)).0 c n found in
      elim (Bool-cases (code_eq d c)) [
        | inl same ↦ code_eq→eq d c same
        | inr other ↦ absurd (omega (arith, count_disjoint d c codes other))
      ]
