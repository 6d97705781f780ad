-- ===== src/Stripe/RoundTrip.antt =====
-- A value that is split into a stripe is put together again from the records of its chunks, as long
-- as no more are lost than there are parities (src/KineticCluster.cc: valueToStripe;
-- src/KineticClusterStripeOperation.cc: reconstructValue).
use kineticio.Prelude.{
  ℕ, zero, suc, ◌+◌, ◌≤◌, ◌<◌, ◌≡◌, refl, ap, sym, ◌∙◌, ◌⊎◌, Bool, true, false, List, [], ◌∷◌, ◌++◌,
  Option, none, some, length, replicate, ltb, ◌==◌, arith, length-append, append_assoc, ◌||◌, ◌&&◌,
  if◌then◌else◌, bytes_eq, bytes_eq_refl, lt→ltb,
}
use kineticio.Str.{Bytes}
use kineticio.Redundancy.Damage.{Uniform, errors, damage}
use kineticio.Stripe.{
  KineticRecord, Collected, is_empty, first_length, set_all, collect, collect_one, make_record,
}
use kineticio.Stripe.Chunks.{set-length}

abbrev pub any_lost : List Bool → Bool
any_lost [] = false
any_lost (b ∷ p) = b || any_lost p

-- The positions of the empty data chunks that came back.
abbrev pub zero_indices : ℕ → ℕ → List Bool → List Bytes → List ℕ
zero_indices nd i (false ∷ p) (c ∷ cs) =
    if is_empty c && ltb i nd
    then i ∷ zero_indices nd (i + 1) p cs
    else zero_indices nd (i + 1) p cs
zero_indices nd i (true ∷ p) (c ∷ cs) = zero_indices nd (i + 1) p cs
zero_indices nd i p cs = []

module _ (crc : Bytes → ℕ) (version : Bytes) where
  -- A drive's answer that does not count: no record, no value, another version, or a wrong checksum.
  abbrev pub IsLost : Option KineticRecord → Type 0
  IsLost none = Unit {0}
  IsLost (some r) = elim r.value [
    | none ↦ Unit {0}
    | some v ↦ (bytes_eq r.version version ≡ false) ⊎ ((crc v == r.tag) ≡ false)
  ]

  -- The answers for the chunks of a stripe, with the pattern of those that are lost.
  abbrev pub Served : List Bytes → List (Option KineticRecord) → List Bool → Type 0
  Served [] [] [] = Unit {0}
  Served (c ∷ cs) (r ∷ rs) (false ∷ p) = (r ≡ some (make_record crc c version)) × Served cs rs p
  Served (c ∷ cs) (r ∷ rs) (true ∷ p) = IsLost r × Served cs rs p
  Served cs rs p = ⊥

  collect_lost :
      (nd i : ℕ) (r : Option KineticRecord) (rest : Collected)
      → IsLost r
      → ((collect_one crc nd version i r rest).stripe ≡ [] ∷ rest.stripe)
        × ((collect_one crc nd version i r rest).need_recovery ≡ true)
        × ((collect_one crc nd version i r rest).zeroed_indices ≡ rest.zeroed_indices)
  unfolding collect_one
  collect_lost nd i none rest h = (refl, refl, refl)
  collect_lost nd i (some r) rest h = (ground arith, ground arith, ground arith)

  collect_intact :
      (nd i : ℕ) (c : Bytes) (rest : Collected)
      → collect_one crc nd version i (some (make_record crc c version)) rest ≡ record rest {
        stripe = c ∷ rest.stripe;
        zeroed_indices =
            if is_empty c && ltb i nd then i ∷ rest.zeroed_indices else rest.zeroed_indices;
      }
  unfolding collect_one make_record
  collect_intact nd i c rest = ground (arith, bytes_eq_refl version)

  pub collect_lem :
      (nd i : ℕ) (cs : List Bytes) (rs : List (Option KineticRecord)) (p : List Bool)
      → Served cs rs p
      → ((collect crc nd version i rs).stripe ≡ damage p cs)
        × ((collect crc nd version i rs).need_recovery ≡ any_lost p)
        × ((collect crc nd version i rs).zeroed_indices ≡ zero_indices nd i p cs)
  unfolding collect
  collect_lem nd i [] [] [] s = (refl, refl, refl)
  collect_lem nd i (c ∷ cs) (r ∷ rs) (false ∷ p) (e, s) = ground (
    arith,
    e,
    collect_intact nd i c (collect crc nd version (i + 1) rs),
    collect_lem nd (i + 1) cs rs p s,
  )
  collect_lem nd i (c ∷ cs) (r ∷ rs) (true ∷ p) (e, s) = ground (
    arith,
    collect_lost nd i r (collect crc nd version (i + 1) rs) e,
    collect_lem nd (i + 1) cs rs p s,
  )
  collect_lem nd i cs rs p s = absurd s

  pub length-Served :
      (cs : List Bytes) (rs : List (Option KineticRecord)) (p : List Bool)
      → Served cs rs p
      → length p ≡ length cs
  length-Served [] [] [] s = refl
  length-Served (c ∷ cs) (r ∷ rs) (false ∷ p) (e, s) = ap suc (length-Served cs rs p s)
  length-Served (c ∷ cs) (r ∷ rs) (true ∷ p) (e, s) = ap suc (length-Served cs rs p s)
  length-Served cs rs p s = absurd s

-- The chunks that are written stand for the coded ones: each is the coded chunk and not empty, or
-- it is empty, a data chunk, and coded as 0 only.
abbrev pub Cleared : ℕ → ℕ → Bytes → List Bytes → List Bytes → Type 0
Cleared nd i z [] [] = Unit {0}
Cleared nd i z ([] ∷ cs) (f ∷ fs) = (f ≡ z) × (i < nd) × Cleared nd (i + 1) z cs fs
Cleared nd i z ((x ∷ c) ∷ cs) (f ∷ fs) = (x ∷ c ≡ f) × Cleared nd (i + 1) z cs fs
Cleared nd i z cs fs = ⊥

damage_nil : (p : List Bool) → damage p [] ≡ []
damage_nil [] = refl
damage_nil (true ∷ p) = refl
damage_nil (false ∷ p) = refl

next_chunk :
    (is : List ℕ) (z y : Bytes) (pre ds fs : List Bytes)
    → set_all is z ((pre ++ y ∷ []) ++ ds) ≡ (pre ++ y ∷ []) ++ fs
    → set_all is z (pre ++ y ∷ ds) ≡ pre ++ y ∷ fs
next_chunk is z y pre ds fs h =
    ap (set_all is z) (sym (append_assoc pre (y ∷ []) ds)) ∙ h ∙ append_assoc pre (y ∷ []) fs

-- Filling the empty data chunks with 0 gives the coded stripe, but for what is lost.
pub set_all_lem :
    (nd i : ℕ) (z : Bytes) (pre cs fs : List Bytes) (p : List Bool)
    → length p ≡ length cs
    → i ≡ length pre
    → Cleared nd i z cs fs
    → set_all (zero_indices nd i p cs) z (pre ++ damage p cs) ≡ pre ++ damage p fs
unfolding set_all
set_all_lem nd i z pre [] [] [] l e c = refl
set_all_lem nd i z pre ([] ∷ cs) (f ∷ fs) (false ∷ p) l e (g, h, c) =
    let ih =
      set_all_lem nd (i + 1) z (pre ++ z ∷ []) cs fs p (omega arith)
        (omega (arith, e, length-append pre (z ∷ []))) c in
    rw (lt→ltb i nd h) (
      ap (set_all (zero_indices nd (i + 1) p cs) z) (rw e (set-length pre [] z (damage p cs)))
      ∙ next_chunk (zero_indices nd (i + 1) p cs) z z pre (damage p cs) (damage p fs) ih
      ∙ ap (λ y. pre ++ y ∷ damage p fs) (sym g))
set_all_lem nd i z pre ((x ∷ xs) ∷ cs) (f ∷ fs) (false ∷ p) l e (g, c) =
    let ih =
      set_all_lem nd (i + 1) z (pre ++ (x ∷ xs) ∷ []) cs fs p (omega arith)
        (omega (arith, e, length-append pre ((x ∷ xs) ∷ []))) c in
    next_chunk (zero_indices nd (i + 1) p cs) z (x ∷ xs) pre (damage p cs) (damage p fs) ih
    ∙ ap (λ y. pre ++ y ∷ damage p fs) g
set_all_lem nd i z pre ([] ∷ cs) (f ∷ fs) (true ∷ p) l e (g, h, c) =
    let ih =
      set_all_lem nd (i + 1) z (pre ++ [] ∷ []) cs fs p (omega arith)
        (omega (arith, e, length-append pre ([] ∷ []))) c in
    next_chunk (zero_indices nd (i + 1) p cs) z [] pre (damage p cs) (damage p fs) ih
set_all_lem nd i z pre ((x ∷ xs) ∷ cs) (f ∷ fs) (true ∷ p) l e (g, c) =
    let ih =
      set_all_lem nd (i + 1) z (pre ++ [] ∷ []) cs fs p (omega arith)
        (omega (arith, e, length-append pre ([] ∷ []))) c in
    next_chunk (zero_indices nd (i + 1) p cs) z [] pre (damage p cs) (damage p fs) ih
set_all_lem nd i z pre [] [] (b ∷ p) l e c = absurd (omega arith)
set_all_lem nd i z pre ([] ∷ cs) (f ∷ fs) [] l e c = absurd (omega arith)
set_all_lem nd i z pre ((x ∷ xs) ∷ cs) (f ∷ fs) [] l e c = absurd (omega arith)
set_all_lem nd i z pre [] (f ∷ fs) p l e c = absurd c
set_all_lem nd i z pre ([] ∷ cs) [] p l e c = absurd c
set_all_lem nd i z pre ((x ∷ xs) ∷ cs) [] p l e c = absurd c

abbrev pub filled : List Bytes → ℕ
filled [] = 0
filled ([] ∷ cs) = filled cs
filled ((x ∷ c) ∷ cs) = suc (filled cs)

-- While a chunk that is not empty is left, the first of them tells the length.
pub first_length-damage :
    (n nd i : ℕ) (z : Bytes) (cs fs : List Bytes) (p : List Bool)
    → Cleared nd i z cs fs
    → Uniform (suc n) fs
    → length p ≡ length cs
    → errors p < filled cs
    → first_length (damage p cs) ≡ suc n
unfolding first_length
first_length-damage n nd i z ([] ∷ cs) (f ∷ fs) (false ∷ p) (_, _, c) (_, u) l h =
    first_length-damage n nd (i + 1) z cs fs p c u (omega arith) h
first_length-damage n nd i z ([] ∷ cs) (f ∷ fs) (true ∷ p) (_, _, c) (_, u) l h =
    first_length-damage n nd (i + 1) z cs fs p c u (omega arith) (omega arith)
first_length-damage n nd i z ((x ∷ d) ∷ cs) (f ∷ fs) (false ∷ p) (g, c) (k, u) l h =
    omega (arith, ap length g, k)
first_length-damage n nd i z ((x ∷ d) ∷ cs) (f ∷ fs) (true ∷ p) (g, c) (k, u) l h =
    first_length-damage n nd (i + 1) z cs fs p c u (omega arith) (omega arith)
first_length-damage n nd i z [] [] p c u l h = absurd (omega arith)
first_length-damage n nd i z ([] ∷ cs) (f ∷ fs) [] c u l h = absurd (omega arith)
first_length-damage n nd i z ((x ∷ d) ∷ cs) (f ∷ fs) [] c u l h = absurd (omega arith)
first_length-damage n nd i z [] (f ∷ fs) p c u l h = absurd c
first_length-damage n nd i z ([] ∷ cs) [] p c u l h = absurd c
first_length-damage n nd i z ((x ∷ d) ∷ cs) [] p c u l h = absurd c

module _ (nd n : ℕ) (z : Bytes) where
  Cleared-self :
      (i : ℕ) (t : List Bytes) → Uniform (suc n) t → Cleared nd i z t t × (filled t ≡ length t)
  Cleared-self i [] u = (tt, refl)
  Cleared-self i ([] ∷ cs) (e, u) = absurd (omega arith)
  Cleared-self i ((x ∷ c) ∷ cs) (e, u) =
      let (a, b) = Cleared-self (i + 1) cs u in ((refl, a), ap suc b)

  Cleared-zeros :
      (k i : ℕ) (t : List Bytes)
      → i + k ≤ nd
      → Uniform (suc n) t
      → Cleared nd i z (replicate k [] ++ t) (replicate k z ++ t)
        × (filled (replicate k [] ++ t) ≡ length t)
  Cleared-zeros zero i t h u = Cleared-self i t u
  Cleared-zeros (suc k) i t h u =
      let (a, b) = Cleared-zeros k (i + 1) t (omega arith) u in ((refl, omega arith, a), b)

  pub Cleared-stripe :
      (a : List Bytes) (k i : ℕ) (t : List Bytes)
      → i + length a + k ≤ nd
      → Uniform (suc n) a
      → Uniform (suc n) t
      → Cleared nd i z (a ++ (replicate k [] ++ t)) (a ++ (replicate k z ++ t))
        × (filled (a ++ (replicate k [] ++ t)) ≡ length a + length t)
  Cleared-stripe [] k i t h u v =
      let (c, f) = Cleared-zeros k i t (omega arith) v in (c, omega arith)
  Cleared-stripe ([] ∷ a) k i t h (e, u) v = absurd (omega arith)
  Cleared-stripe ((x ∷ y) ∷ a) k i t h (e, u) v =
      let (c, f) = Cleared-stripe a k (i + 1) t (omega arith) u v in ((refl, c), omega arith)
