-- ===== src/Get/Served.antt =====
-- What StripeOperation_GET::execute returns (src/KineticClusterStripeOperation.cc).
use kineticio.Prelude.{
  ℕ, ◌≤◌, ◌≡◌, refl, ◌∙◌, ap, sym, subst, Bool, true, false, not, ◌&&◌, List, [], ◌∷◌, map, Option,
  ltb, leb, ◌==◌, ◌⊎◌, inl, inr, ==→eq, ==_refl, on_if, Bool-cases, Result-cases, Result, ok, throw,
  if◌then◌else◌, arith,
}
use kineticio.Str.{Bytes}
use kineticio.Kinetic.{
  StatusCode, status_ok, client_io_error, is_ok, valid_status_code, is_ok→eq,
  is_ok-valid_status_code,
}
use kineticio.Quorum.{rank, ResultMap, lookup, count_results, most_frequent_version}
use kineticio.Quorum.Counts.{IsSorted, Above-IsSorted, lookup_below, lookup-count_results}
use kineticio.Redundancy.{RedundancyProvider}
use kineticio.Stripe.{KineticRecord}
use kineticio.Operation.{Delivery, execute_vector, statuses}
use kineticio.Get.{
  ReadRequest, Get, read_version, limit_ok, rebuild, accept, serve, do_execute, attempt,
  with_parities, with_handoffs, second_attempt, insert_handoff_chunks, give_up, get_execute,
  is_exception,
}
use kineticio.Get.Rebuilt.{IsCurrent, IsServed, RebuiltFrom, rebuild-RebuiltFrom}

-- No count of OK is above the frequency.
abbrev OkWithin : ℕ → ResultMap → Type 0
OkWithin f [] = Unit
OkWithin f ((c, n) ∷ m) = (is_ok c ≡ true → n ≤ f) × OkWithin f m

module _ {W : Type 0} (send : ℕ → ReadRequest → W → Delivery (Option KineticRecord) × W)
    (range_all : Bytes → Bytes → ℕ → W → List (Option (List Bytes)) × W) (ordinal : StatusCode → ℕ)
    (crc : Bytes → ℕ) (rp : RedundancyProvider) (key : Bytes) (hash connections : ℕ)
    (skip_value : Bool) where
  -- The end of a success that has its value.
  accept-IsServed :
      (c : StatusCode) (g : Get) (rest : Get → Result StatusCode × Get)
      (r : Result (Unit {0}) × Get)
      → is_ok c ≡ true
      → IsCurrent crc rp skip_value g
      → rp.num_data ≤ g.version.frequency
      → RebuiltFrom crc rp skip_value g r
      → IsServed crc rp skip_value (accept c rest r)
  accept-IsServed c g rest (throw e, g') fine current enough rebuilt = tt
  accept-IsServed c g rest (ok _, g') fine current enough rebuilt =
      let valid = is_ok-valid_status_code c fine in
      let current' : IsCurrent crc rp skip_value g' =
        rebuilt.2
        ∙ current
        ∙ ap (λ ops. most_frequent_version (map read_version ops)) (sym rebuilt.1) in
      rw valid (valid, λ h. (current', rw rebuilt.2 enough, λ no. rebuilt.0))

  serve-IsServed :
      (m : ResultMap) (g : Get)
      → OkWithin g.version.frequency m
      → IsCurrent crc rp skip_value g
      → IsServed crc rp skip_value
          (serve send range_all ordinal crc rp key hash connections skip_value m g)
  unfolding serve
  serve-IsServed [] g within current = tt
  serve-IsServed ((c, n) ∷ m) g within current = elim (Bool-cases (leb rp.num_data n)) [
    | inr e ↦ rw e (serve-IsServed m g within.1 current)
    | inl e ↦ elim (Bool-cases (is_ok c && not skip_value)) [
      | inl f ↦
          let fine : is_ok c ≡ true = ground (arith, f) in
          rw (e, f)
            (accept-IsServed c g _
              (rebuild send range_all ordinal crc rp key hash connections skip_value g) fine current
              (ground (arith, e, within.0 fine))
              (rebuild-RebuiltFrom send range_all ordinal crc rp key hash connections skip_value g))
      | inr f ↦ elim (Bool-cases (valid_status_code c)) [
        | inl k ↦
            rw (e, f, k) (k, λ h. (current, ground (arith, e, within.0 h), λ no. cc (h, no, f)))
        | inr k ↦ rw (e, f, k) (serve-IsServed m g within.1 current)
      ]
    ]
  ]

module _ (ordinal : StatusCode → ℕ)
    (distinct : (c d : StatusCode) → rank ordinal c ≡ rank ordinal d → c ≡ d) where
  counted_ok :
      (f : ℕ) (m : ResultMap)
      → IsSorted ordinal distinct m
      → lookup ordinal status_ok m ≤ f
      → OkWithin f m
  unfolding lookup
  counted_ok f [] sorted h = tt
  counted_ok f ((c, n) ∷ m) sorted h =
      elim (Bool-cases (rank ordinal status_ok == rank ordinal c)) [
        | inl e ↦
            let below =
              lookup_below ordinal distinct status_ok (rank ordinal c) m sorted
                (omega (arith, ==→eq _ _ e)) in
            let n_within : n ≤ f =
              subst (λ b. (if b then n else lookup ordinal status_ok m) ≤ f) e h in
            (
              λ _. n_within,
              counted_ok f m (Above-IsSorted ordinal distinct (rank ordinal c) m sorted)
                  (omega (arith, below)),
            )
        | inr e ↦ (
          (λ fine.
              let same : (rank ordinal status_ok == rank ordinal c) ≡ true =
                ap (λ d. rank ordinal status_ok == rank ordinal d) (is_ok→eq c fine)
                ∙ ==_refl (rank ordinal status_ok) in
              cc (same, e)),
          counted_ok f m (Above-IsSorted ordinal distinct (rank ordinal c) m sorted)
              (subst (λ b. (if b then n else lookup ordinal status_ok m) ≤ f) e h),
        )
      ]

  limit_ok-OkWithin :
      (f : ℕ) (m : ResultMap) → IsSorted ordinal distinct m → OkWithin f (limit_ok f m)
  unfolding limit_ok
  limit_ok-OkWithin f [] sorted = tt
  limit_ok-OkWithin f ((c, n) ∷ m) sorted =
      let sorted' = Above-IsSorted ordinal distinct (rank ordinal c) m sorted in
      elim (Bool-cases (is_ok c)) [
        | inl e ↦
            let below : lookup ordinal status_ok m ≡ 0 =
              lookup_below ordinal distinct status_ok (rank ordinal c) m sorted
                (omega (arith, ap (rank ordinal) (is_ok→eq c e))) in
            rw e ((λ _. omega arith), counted_ok f m sorted' (omega (arith, below)))
        | inr e ↦ rw e ((λ fine. cc (fine, e)), limit_ok-OkWithin f m sorted')
      ]

  module _ {W : Type 0} (send : ℕ → ReadRequest → W → Delivery (Option KineticRecord) × W)
      (range_all : Bytes → Bytes → ℕ → W → List (Option (List Bytes)) × W) (crc : Bytes → ℕ)
      (rp : RedundancyProvider) (key : Bytes) (hash connections : ℕ) (skip_value : Bool) where
    do_execute-IsServed :
        (g : Get) (w : W)
        → IsServed crc rp skip_value
            (do_execute send range_all ordinal crc rp key hash connections skip_value g w).0
    unfolding do_execute
    do_execute-IsServed g w =
        let ops = (execute_vector send 0 g.operations w).0 in
        let m = count_results ordinal (statuses ops) [] in
        let version = most_frequent_version (map read_version ops) in
        let sorted = (lookup-count_results ordinal distinct status_ok (statuses ops) [] tt).0 in
        let mixed = ltb version.frequency (lookup ordinal status_ok m) in
        serve-IsServed send range_all ordinal crc rp key hash connections skip_value _ _
          (on_if (OkWithin version.frequency) mixed _ _
            (λ _. limit_ok-OkWithin version.frequency m sorted)
            (λ e. counted_ok version.frequency m sorted (ground (arith, e))))
          refl

    -- A result, or the report that the key is not accessible.
    abbrev pub IsAnswer : Result StatusCode × Get → Type 0
    IsAnswer (throw e, g) = is_exception e ≡ false
    IsAnswer (ok c, g) = (c ≡ client_io_error) ⊎ IsServed crc rp skip_value (ok c, g)

    attempt-IsAnswer :
        (next : Get → W → (Result StatusCode × Get) × W) (g : Get) (w : W)
        → ((g' : Get) (w' : W) → IsAnswer (next g' w').0)
        → IsAnswer
            (attempt send range_all ordinal crc rp key hash connections skip_value next g w).0
    unfolding attempt
    attempt-IsAnswer next g w others =
        let done = do_execute-IsServed g w in
        let (r, w1) =
          do_execute send range_all ordinal crc rp key hash connections skip_value g w in
        elim (Result-cases r.0) [
          | inl (c, e) ↦
              rw (e, attempt) (inr (subst (λ x. IsServed crc rp skip_value (x, r.1)) e done))
          | inr (err, e) ↦ elim (Bool-cases (is_exception err)) [
            | inl k ↦ rw (e, attempt, k) (others r.1 w1)
            | inr k ↦ rw (e, attempt, k) k
          ]
        ]

    with_handoffs-IsAnswer :
        (g : Get) (w : W)
        → IsAnswer
            (with_handoffs send range_all ordinal crc rp key hash connections skip_value g w).0
    unfolding with_handoffs
    with_handoffs-IsAnswer g w =
        let ((inserted, g1), w1) =
          insert_handoff_chunks send range_all ordinal crc rp key hash connections skip_value g w in
        on_if (λ (x : (Result StatusCode × Get) × W). IsAnswer x.0) inserted _ _
          (λ _.
            attempt-IsAnswer (give_up send range_all ordinal crc rp key hash connections skip_value)
              g1 w1 (λ _ _. inl refl))
          (λ _. inl refl)

    -- With codes of different ranks, execute returns either that the key is not accessible or a
    -- valid code; with OK at least num_data answers have the version it reports, which is the most
    -- frequent one, and, unless only the version was asked for, the value is what reconstructValue
    -- makes of the answers under it. Of exceptions only a null pointer gets out, also where the
    -- version or the value cannot be read in.
    pub get_execute-IsAnswer :
        (g : Get) (w : W)
        → IsAnswer (get_execute send range_all ordinal crc rp key hash connections skip_value g w).0
    unfolding get_execute second_attempt
    get_execute-IsAnswer g w =
        attempt-IsAnswer
          (second_attempt send range_all ordinal crc rp key hash connections skip_value) g w
          (λ g1 w1.
            attempt-IsAnswer
              (with_handoffs send range_all ordinal crc rp key hash connections skip_value)
              (with_parities send range_all ordinal crc rp key hash connections skip_value g1) w1
              with_handoffs-IsAnswer)
