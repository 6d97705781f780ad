-- ===== src/Quorum/Majority.antt =====
-- mostFrequentVersion of src/KineticClusterStripeOperation.cc, where one version has a majority.
use kineticio.Prelude.{
  ◌+◌, ◌≤◌, ◌<◌, ◌≡◌, ◌∙◌, ap, sym, true, false, List, [], ◌∷◌, Option, none, some, length,
  Bool-cases, Option-cases, inl, inr, arith, bytes_eq, bytes_eq→eq, bytes_eq_refl,
}
use kineticio.Str.{Bytes}
use kineticio.Quorum.{version_equal, frequency_of, most_frequent_version}
use kineticio.Quorum.Frequency.{frequency_none, most_frequent_version-IsMostFrequent}

bytes_apart : (v w x : Bytes) → bytes_eq v w ≡ false → bytes_eq v x ≡ true → bytes_eq w x ≡ false
bytes_apart v w x apart same = elim (Bool-cases (bytes_eq w x)) [
  | inr e ↦ e
  | inl e ↦
      let v_is_w : v ≡ w = bytes_eq→eq v x same ∙ sym (bytes_eq→eq w x e) in
      let both : bytes_eq v w ≡ true = ap (bytes_eq v) (sym v_is_w) ∙ bytes_eq_refl v in
      cc (both, apart)
]

-- Two versions together are counted at most once for each answer.
frequency_disjoint :
    (v w : Bytes) (all : List (Option Bytes))
    → bytes_eq v w ≡ false
    → frequency_of (some v) all + frequency_of (some w) all ≤ length all
unfolding frequency_of version_equal
frequency_disjoint v w [] apart = omega arith
frequency_disjoint v w (none ∷ all) apart = omega (arith, frequency_disjoint v w all apart)
frequency_disjoint v w (some x ∷ all) apart = elim (Bool-cases (bytes_eq v x)) [
  | inr e ↦ ground (arith, frequency_disjoint v w all apart)
  | inl e ↦
      let other = bytes_apart v w x apart e in ground (arith, frequency_disjoint v w all apart)
]

-- A version that most of the answers have is the most frequent one.
pub most_frequent_majority :
    (v : Bytes) (all : List (Option Bytes))
    → length all < frequency_of (some v) all + frequency_of (some v) all
    → (most_frequent_version all).version ≡ some v
most_frequent_majority v all most =
    let found = most_frequent_version all in
    let frequent = most_frequent_version-IsMostFrequent all in
    let over = frequent.greatest v in
    elim (Option-cases found.version) [
      | inl e ↦ absurd (
          omega (
            arith,
            over,
            most,
            frequent.counted,
            ap (λ o. frequency_of o all) e,
            frequency_none all,
          ))
      | inr (w, e) ↦ elim (Bool-cases (bytes_eq v w)) [
        | inl same ↦ e ∙ ap some (sym (bytes_eq→eq v w same))
        | inr apart ↦ absurd (
            omega (
              arith,
              over,
              most,
              frequent.counted,
              ap (λ o. frequency_of o all) e,
              frequency_disjoint v w all apart,
            ))
      ]
    ]
