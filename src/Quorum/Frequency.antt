-- ===== src/Quorum/Frequency.antt =====
-- mostFrequentVersion finds a version that no other exceeds
-- (src/KineticClusterStripeOperation.cc).
use kineticio.Prelude.{
  ◌+◌, ◌/◌, ◌≤◌, ◌<◌, ◌≡◌, refl, ap, sym, ◌∙◌, true, false, List, [], ◌∷◌, Option, none, some,
  length, ltb, arith, if◌then◌else◌, Bool-cases, ◌⊎◌, inl, inr, bytes_eq, bytes_eq_refl,
  bytes_eq→eq,
}
use kineticio.Str.{Bytes}
use kineticio.Quorum.{
  version_equal, VersionCount, frequency_of, most_frequent_from, most_frequent_version,
}

abbrev Member : Option Bytes → List (Option Bytes) → Type 0
Member o [] = ⊥
Member o (l ∷ ls) = (o ≡ l) ⊎ Member o ls

frequency_disjoint :
    (a b : Bytes) (ls : List (Option Bytes))
    → bytes_eq a b ≡ false
    → frequency_of (some a) ls + frequency_of (some b) ls ≤ length ls
unfolding frequency_of version_equal
frequency_disjoint a b [] h = omega arith
frequency_disjoint a b (none ∷ ls) h = omega (arith, frequency_disjoint a b ls h)
frequency_disjoint a b (some c ∷ ls) h = elim (Bool-cases (bytes_eq a c)) [
  | inr k ↦ ground (arith, frequency_disjoint a b ls h)
  | inl k ↦ elim (Bool-cases (bytes_eq b c)) [
    | inr l ↦ ground (arith, frequency_disjoint a b ls h)
    | inl l ↦
        let same : a ≡ b = bytes_eq→eq a c k ∙ sym (bytes_eq→eq b c l) in
        let other : bytes_eq a b ≡ true = rw same (bytes_eq_refl b) in cc
  ]
]

pub frequency_none : (ls : List (Option Bytes)) → frequency_of none ls ≡ 0
unfolding frequency_of version_equal
frequency_none [] = refl
frequency_none (l ∷ ls) = frequency_none ls

-- A version that does not stand in the list has frequency 0.
frequency_absent :
    (v : Bytes) (ls : List (Option Bytes)) → (frequency_of (some v) ls ≡ 0) ⊎ Member (some v) ls
unfolding frequency_of version_equal
frequency_absent v [] = inl refl
frequency_absent v (none ∷ ls) = elim (frequency_absent v ls) [
  | inl e ↦ inl e
  | inr m ↦ inr (inr m)
]
frequency_absent v (some c ∷ ls) = elim (Bool-cases (bytes_eq v c)) [
  | inl k ↦ inr (inl (ap some (bytes_eq→eq v c k)))
  | inr k ↦ elim (frequency_absent v ls) [ inl e ↦ inl (ground arith) | inr m ↦ inr (inr m) ]
]

-- The version found has the frequency stated, and no version has a greater one.
pub record IsMostFrequent (all : List (Option Bytes)) (v : VersionCount) : Type 0 where
  pub counted : v.frequency ≡ frequency_of v.version all
  pub greatest : (w : Bytes) → frequency_of (some w) all ≤ v.frequency

majority :
    (all : List (Option Bytes)) (v : VersionCount)
    → v.frequency ≡ frequency_of v.version all
    → length all / 2 < v.frequency
    → (w : Bytes) → frequency_of (some w) all ≤ v.frequency
majority all v e h w = by_version v.version e
  where
    by_version :
        (o : Option Bytes)
        → v.frequency ≡ frequency_of o all
        → frequency_of (some w) all ≤ v.frequency
    by_version none e = absurd (omega (arith, e, frequency_none all))
    by_version (some a) e = elim (Bool-cases (bytes_eq a w)) [
      | inl same ↦ rw (← bytes_eq→eq a w same) (omega (arith, e))
      | inr other ↦ omega (arith, e, frequency_disjoint a w all other)
    ]

-- The better of the best so far and the next operation.
abbrev better : List (Option Bytes) → Option Bytes → VersionCount → VersionCount
better all o v =
    if ltb v.frequency (frequency_of o all)
    then record { version = o; frequency = frequency_of o all }
    else v

better_lem :
    (all : List (Option Bytes)) (o : Option Bytes) (v : VersionCount)
    → v.frequency ≡ frequency_of v.version all
    → ((better all o v).frequency ≡ frequency_of (better all o v).version all)
      × (v.frequency ≤ (better all o v).frequency)
      × (frequency_of o all ≤ (better all o v).frequency)
better_lem all o v h = elim (Bool-cases (ltb v.frequency (frequency_of o all))) [
  | inl k ↦ rw k (refl, ground arith, omega arith)
  | inr k ↦ rw k (h, omega arith, ground arith)
]

most_frequent_from_lem :
    (all os : List (Option Bytes)) (v : VersionCount)
    → v.frequency ≡ frequency_of v.version all
    → ((o : Option Bytes) → Member o all → (frequency_of o all ≤ v.frequency) ⊎ Member o os)
    → IsMostFrequent all (most_frequent_from all os v)
unfolding most_frequent_from
most_frequent_from_lem all [] v counted seen = record {
  counted = counted;
  greatest = λ w. elim (frequency_absent w all) [
    | inl e ↦ omega (arith, e)
    | inr m ↦ elim (seen (some w) m) [ inl h ↦ h | inr h ↦ absurd h ]
  ];
}
most_frequent_from_lem all (o ∷ os) v counted seen =
    let best = better all o v in
    let (c, up, here) = better_lem all o v counted in
    elim (Bool-cases (ltb (length all / 2) (frequency_of o all))) [
      | inl h ↦ rw h (record {
        counted = c;
        greatest =
            majority all best c
              (let k : length all / 2 < frequency_of o all = ground arith in omega arith);
      })
      | inr h ↦ rw h (
          most_frequent_from_lem all os best c λ x m. elim (seen x m) [
            | inl k ↦ inl (omega arith)
            | inr (inl same) ↦ inl (rw same here)
            | inr (inr later) ↦ inr later
          ])
    ]

-- mostFrequentVersion returns a version with its frequency among the operations that succeeded, and
-- no version is more frequent, also where the loop stops at a majority.
pub most_frequent_version-IsMostFrequent :
    (all : List (Option Bytes)) → IsMostFrequent all (most_frequent_version all)
unfolding most_frequent_version
most_frequent_version-IsMostFrequent all =
    most_frequent_from_lem all all (record { version = none; frequency = 0 })
      (sym (frequency_none all)) (λ o m. inr m)
