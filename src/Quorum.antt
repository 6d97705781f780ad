-- ===== src/Quorum.antt =====
-- The counts of the drives' answers and how they are evaluated: the map of
-- src/KineticClusterOperation.cc (executeOperationVector) under the order of
-- include/KineticClusterOperation.hh (CompareStatusCode), and mostFrequentVersion of
-- src/KineticClusterStripeOperation.cc.
pub mod Counts
pub mod Frequency
pub mod Majority
use kineticio.Prelude.{
  ℕ, ◌+◌, ◌/◌, ◌≤◌, ◌≡◌, Bool, true, false, List, [], ◌∷◌, Option, none, some, length, ltb, leb,
  ◌==◌, ◌||◌, bytes_eq, if◌then◌else◌,
}
use kineticio.Str.{Bytes}
use kineticio.Kinetic.{StatusCode, valid_status_code, code_eq}

-- CompareStatusCode::toInt. `ordinal` is the number of a code in the client library's enumeration.
unfoldable pub rank : (StatusCode → ℕ) → StatusCode → ℕ
unfolding valid_status_code
rank ordinal c = if valid_status_code c then ordinal c else ordinal c + 100

-- The std::map from codes to counts, in its order.
abbrev pub ResultMap : Type 0
ResultMap = List (StatusCode × ℕ)

module _ (ordinal : StatusCode → ℕ) where
  -- `rmap[c]++`
  unfoldable pub bump : StatusCode → ResultMap → ResultMap
  bump c [] = (c, 1) ∷ []
  bump c ((d, n) ∷ m) =
      let rest = bump c m in
      if ltb (rank ordinal c) (rank ordinal d)
      then (c, 1) ∷ (d, n) ∷ m
      else if ltb (rank ordinal d) (rank ordinal c)
      then (d, n) ∷ rest
      else (d, n + 1) ∷ m

  -- `rmap[c]`, where a code that is not in the map counts 0
  unfoldable pub lookup : StatusCode → ResultMap → ℕ
  lookup c [] = 0
  lookup c ((d, n) ∷ m) = if rank ordinal c == rank ordinal d then n else lookup c m

  -- The loop over the operations at the end of executeOperationVector.
  unfoldable pub count_results : List StatusCode → ResultMap → ResultMap
  count_results [] m = m
  count_results (c ∷ cs) m = count_results cs (bump c m)

-- The first entry, in the map's order, that was counted at least `quorum_size` times.
unfoldable pub find_quorum : ℕ → ResultMap → Option (StatusCode × ℕ)
find_quorum quorum_size [] = none
find_quorum quorum_size ((c, n) ∷ m) =
    if leb quorum_size n then some (c, n) else find_quorum quorum_size m

-- getVersionEqual and getRecordVersionEqual: `none` is the version of an operation that failed.
unfoldable pub version_equal : Option Bytes → Option Bytes → Bool
version_equal (some a) (some b) = bytes_eq a b
version_equal _ _ = false

pub record VersionCount : Type 0 where
  pub version : Option Bytes
  pub frequency : ℕ

-- The inner loop of mostFrequentVersion.
unfoldable pub frequency_of : Option Bytes → List (Option Bytes) → ℕ
unfolding version_equal
frequency_of o [] = 0
frequency_of o (l ∷ ls) = if version_equal o l then frequency_of o ls + 1 else frequency_of o ls

-- The outer loop over the rest of the operations, with the best frequency so far and its version.
unfoldable pub most_frequent_from :
    List (Option Bytes) → List (Option Bytes) → VersionCount → VersionCount
most_frequent_from all [] v = v
most_frequent_from all (o ∷ os) v =
    let f = frequency_of o all in
    let best = if ltb v.frequency f then record { version = o; frequency = f } else v in
    let rest = most_frequent_from all os best in if ltb (length all / 2) f then best else rest

unfoldable pub most_frequent_version : List (Option Bytes) → VersionCount
most_frequent_version all = most_frequent_from all all (record { version = none; frequency = 0 })
