-- ===== src/Get/Recovered.antt =====
-- An attempt of StripeOperation_GET that enough drives answer (src/KineticClusterStripeOperation.cc).
use kineticio.Prelude.{
  on_if, ℕ, ◌+◌, ◌≤◌, ◌<◌, ◌≡◌, refl, ◌∙◌, ap, sym, subst, true, false, not, ◌&&◌, ◌||◌, List, [],
  ◌∷◌, map, Option, none, some, length, ltb, leb, ◌==◌, inl, inr, Bool-cases, Option-cases, Result,
  ok, throw, if◌then◌else◌, arith,
}
use kineticio.Str.{Bytes}
use kineticio.Kinetic.{
  is_ok→eq, is_ok-valid_status_code, StatusCode, status_ok, is_ok, code_eq, valid_status_code,
}
use kineticio.Keys.Numbers.{uuid_decode_size}
use kineticio.Quorum.{
  rank, ResultMap, lookup, count_results, find_quorum, version_equal, frequency_of,
  most_frequent_version,
}
use kineticio.Quorum.Counts.{count, find_quorum-count, find_quorum_unique}
use kineticio.Quorum.Majority.{most_frequent_majority}
use kineticio.Quorum.Frequency.{most_frequent_version-IsMostFrequent}
use kineticio.Redundancy.{RedundancyProvider}
use kineticio.Stripe.{KineticRecord, reconstruct_value}
use kineticio.Operation.Clock.{length-map}
use kineticio.Operation.{Delivery, execute_vector, statuses}
use kineticio.Get.{
  ReadRequest, Reads, Get, records, read_version, limit_ok, accept, rebuild, rebuild_as,
  rebuild_sized, store_value, serve, do_execute,
}

-- An answer with a version is OK.
frequency-count :
    (v : Bytes) (ops : Reads)
    → frequency_of (some v) (map read_version ops) ≤ count status_ok (statuses ops)
unfolding frequency_of read_version version_equal code_eq
frequency-count v [] = omega arith
frequency-count v (op ∷ ops) = elim (Bool-cases (is_ok op.callback.status)) [
  | inl e ↦
      let counted : code_eq status_ok op.callback.status ≡ true =
        ap (code_eq status_ok) (is_ok→eq op.callback.status e) in
      ground (arith, counted, frequency-count v ops)
  | inr e ↦
      let failed : read_version op ≡ none = rw (read_version, e) refl in
      let uncounted : version_equal (some v) (read_version op) ≡ false =
        ap (version_equal (some v)) failed in
      ground (arith, uncounted, frequency-count v ops)
]

find_quorum-limit_ok :
    (q f n : ℕ) (m : ResultMap)
    → q ≤ f
    → find_quorum q m ≡ some (status_ok, n)
    → find_quorum q (limit_ok f m) ≡ some (status_ok, f)
unfolding find_quorum limit_ok
find_quorum-limit_ok q f n [] enough found = cc found
find_quorum-limit_ok q f n ((c, k) ∷ m) enough found = elim (Bool-cases (is_ok c)) [
  | inl e ↦
      let reached : leb q f ≡ true = ground (arith, enough) in
      rw (e, find_quorum, reached) (ap (λ d. some (d, f)) (is_ok→eq c e))
  | inr e ↦ elim (Bool-cases (leb q k)) [
    | inl h ↦
        let first : some (c, k) ≡ some (status_ok, n) =
          subst (λ b. (if b then some (c, k) else find_quorum q m) ≡ some (status_ok, n)) h found in
        let same : c ≡ status_ok = cc first in cc (ap is_ok same, e)
    | inr h ↦
        rw (e, find_quorum, h)
          (find_quorum-limit_ok q f n m enough (
            subst (λ b. (if b then some (c, k) else find_quorum q m) ≡ some (status_ok, n)) h
              found))
  ]
]

module _ (ordinal : StatusCode → ℕ) {W : Type 0}
    (send : ℕ → ReadRequest → W → Delivery (Option KineticRecord) × W)
    (range_all : Bytes → Bytes → ℕ → W → List (Option (List Bytes)) × W) (crc : Bytes → ℕ)
    (rp : RedundancyProvider) (key : Bytes) (hash connections : ℕ) where
  -- The value was made and the version kept.
  abbrev Made : Bytes → Get → Result (Unit {0}) × Get → Type 0
  Made value g r = (r.0 ≡ ok tt) × (r.1.value ≡ some value) × (r.1.version ≡ g.version)

  store_value-Made :
      (value : Bytes) (g g' : Get) (r : Result Bytes)
      → g'.version ≡ g.version
      → r ≡ ok value
      → Made value g (store_value g' r)
  store_value-Made value g g' (throw e) same made = cc made
  store_value-Made value g g' (ok x) same made = (refl, cc made, same)

  rebuild_as-Made :
      (v value : Bytes) (size : ℕ) (g : Get)
      → g.value ≡ some []
      → reconstruct_value crc rp v size (records g.operations) ≡ ok value
      → Made value g
          (rebuild_as send range_all ordinal crc rp key hash connections false v (ok size) g)
  unfolding rebuild_as rebuild_sized
  rebuild_as-Made v value size g reset made =
      on_if (Made value g) (size == 0) _ _
        (λ h.
          let nothing : reconstruct_value crc rp v size (records g.operations) ≡ ok [] =
            rw (reconstruct_value, h) refl in
          let same : value ≡ [] = cc (made, nothing) in (refl, reset ∙ ap some (sym same), refl))
        (λ h.
          store_value-Made value g _ (reconstruct_value crc rp v size (records g.operations)) refl
            made)

  rebuild-Made :
      (v value : Bytes) (size : ℕ) (g : Get)
      → g.version.version ≡ some v
      → uuid_decode_size (some v) ≡ ok size
      → reconstruct_value crc rp v size (records g.operations) ≡ ok value
      → Made value g (rebuild send range_all ordinal crc rp key hash connections false g)
  unfolding rebuild
  rebuild-Made v value size g at decoded made =
      let reset = record g { value = some [] } in
      subst
        (λ o. Made value g (
          rebuild_as send range_all ordinal crc rp key hash connections false
            (elim o [ none ↦ [] | some x ↦ x ]) (uuid_decode_size o) reset))
        (sym at)
        (subst
          (λ r.
            Made value g
              (rebuild_as send range_all ordinal crc rp key hash connections false v r reset))
          (sym decoded) (rebuild_as-Made v value size reset refl made))

  abbrev Returned : Bytes → Get → Result StatusCode × Get → Type 0
  Returned value g r = (r.0 ≡ ok status_ok) × (r.1.value ≡ some value) × (r.1.version ≡ g.version)

  accept-Returned :
      (value : Bytes) (g : Get) (c : StatusCode) (rest : Get → Result StatusCode × Get)
      (r : Result (Unit {0}) × Get)
      → c ≡ status_ok
      → Made value g r
      → Returned value g (accept c rest r)
  accept-Returned value g c rest (throw e, g') same made = cc (made.0)
  accept-Returned value g c rest (ok _, g') same made =
      on_if (Returned value g) (valid_status_code c) _ _ (λ h. (ap ok same, made.1, made.2))
        (λ h. cc (h, is_ok-valid_status_code c (ap is_ok same)))

  serve-Returned :
      (value : Bytes) (n : ℕ) (m : ResultMap) (g : Get)
      → find_quorum rp.num_data m ≡ some (status_ok, n)
      → Made value g (rebuild send range_all ordinal crc rp key hash connections false g)
      → Returned value g (serve send range_all ordinal crc rp key hash connections false m g)
  unfolding serve find_quorum
  serve-Returned value n [] g found made = cc found
  serve-Returned value n ((c, k) ∷ m) g found made =
      on_if (Returned value g) (leb rp.num_data k) _ _
        (λ h.
          let first : some (c, k) ≡ some (status_ok, n) =
            subst
              (λ b. (if b then some (c, k) else find_quorum rp.num_data m) ≡ some (status_ok, n)) h
              found in
          let same : c ≡ status_ok = cc first in
          on_if (Returned value g) (is_ok c && not false) _ _
            (λ _.
              accept-Returned value g c _
                (rebuild send range_all ordinal crc rp key hash connections false g) same made)
            (λ no. absurd (cc (no, ap is_ok same))))
        (λ h.
          serve-Returned value n m g
            (subst
              (λ b. (if b then some (c, k) else find_quorum rp.num_data m) ≡ some (status_ok, n)) h
              found)
            made)

  module _ (distinct : (c d : StatusCode) → rank ordinal c ≡ rank ordinal d → c ≡ d) where
    found_ok :
        (v : Bytes) (ops : Reads)
        → rp.num_parity < rp.num_data
        → length ops ≡ rp.num_data + rp.num_parity
        → rp.num_data ≤ frequency_of (some v) (map read_version ops)
        → (n : ℕ) × (find_quorum rp.num_data (count_results ordinal (statuses ops) [])
            ≡ some (status_ok, n))
    found_ok v ops more_data sized enough =
        let codes = statuses ops in
        let given : rp.num_data ≤ count status_ok codes =
          omega (arith, enough, frequency-count v ops) in
        let counts = find_quorum-count ordinal distinct rp.num_data codes (omega arith) in
        elim (Option-cases (find_quorum rp.num_data (count_results ordinal codes []))) [
          | inl e ↦ absurd (omega (arith, counts.1 e status_ok, given))
          | inr ((c, n), e) ↦
              let same =
                find_quorum_unique ordinal distinct rp.num_data rp.num_parity codes c status_ok n
                  more_data (length-map _ ops ∙ sized) e given in
              (n, e ∙ ap (λ d. some (d, n)) (sym same))
        ]

    -- Where more than half of the answers have a version whose size and value can be read, an
    -- attempt returns them with OK.
    pub do_execute-Returned :
        (g : Get) (w : W) (v value : Bytes) (size : ℕ)
        → rp.num_parity < rp.num_data
        → length (execute_vector send 0 g.operations w).0 ≡ rp.num_data + rp.num_parity
        → rp.num_data
          ≤ frequency_of (some v) (map read_version (execute_vector send 0 g.operations w).0)
        → uuid_decode_size (some v) ≡ ok size
        → reconstruct_value crc rp v size (records (execute_vector send 0 g.operations w).0)
          ≡ ok value
        → let (r, g') =
            (do_execute send range_all ordinal crc rp key hash connections false g w).0 in
          (r ≡ ok status_ok) × (g'.value ≡ some value) × (g'.version.version ≡ some v)
    unfolding do_execute
    do_execute-Returned g w v value size more_data sized enough decoded made =
        let ops = (execute_vector send 0 g.operations w).0 in
        let versions = map read_version ops in
        let m = count_results ordinal (statuses ops) [] in
        let version = most_frequent_version versions in
        let mixed = ltb version.frequency (lookup ordinal status_ok m) in
        let (n, found) = found_ok v ops more_data sized enough in
        let known : version.version ≡ some v =
          most_frequent_majority v versions
            (omega (arith, length-map read_version ops, sized, enough, more_data)) in
        let frequent = (most_frequent_version-IsMostFrequent versions).greatest v in
        let (k, found') =
          on_if (λ (l : ResultMap). (k : ℕ) × (find_quorum rp.num_data l ≡ some (status_ok, k)))
            mixed (limit_ok version.frequency m) m
            (λ _. (
              version.frequency,
              find_quorum-limit_ok rp.num_data version.frequency n m
                  (omega (arith, frequent, enough)) found,
            ))
            (λ _. (n, found)) in
        let g1 = record g {
          operations = ops;
          version = version;
          need_indicator = g.need_indicator || mixed;
        } in
        let returned =
          serve-Returned value k (if mixed then limit_ok version.frequency m else m) g1 found'
            (rebuild-Made v value size g1 known decoded made) in
        (returned.0, returned.1, ap (λ c. c.version) returned.2 ∙ known)
