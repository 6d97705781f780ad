-- ===== src/Tests/Answers.antt =====
-- Examples for the counts of the drives' answers (src/KineticClusterOperation.cc,
-- src/KineticClusterStripeOperation.cc).
use kineticio.Prelude.{ℕ, ◌≤◌, ◌<◌, ◌≡◌, refl, List, [], ◌∷◌, none, some, arith}
use kineticio.Kinetic.{
  StatusCode, status_ok, remote_version_mismatch, tag, code_eq, code_eq→eq, valid_status_code,
}
use kineticio.Quorum.{rank, bump, count_results, find_quorum, most_frequent_version}
use kineticio.Quorum.Counts.{count, find_quorum-count}
use kineticio.Quorum.Frequency.{IsMostFrequent, most_frequent_version-IsMostFrequent}

-- A numbering under which the codes' ranks differ: the regular codes come first.
abbrev pub numbered : StatusCode → ℕ
numbered c = tag c

pub numbered_distinct : (c d : StatusCode) → rank numbered c ≡ rank numbered d → c ≡ d
unfolding rank code_eq valid_status_code
numbered_distinct c d h = code_eq→eq c d (ground arith)

-- Two of three drives report a mismatch.
abbrev answers : List StatusCode
answers = remote_version_mismatch ∷ status_ok ∷ remote_version_mismatch ∷ []

two_mismatches :
    find_quorum 2 (count_results numbered answers []) ≡ some (remote_version_mismatch, 2)
unfolding find_quorum count_results bump rank valid_status_code
two_mismatches = refl

find_quorum-count_example :
    ((c : StatusCode) (n : ℕ)
      → find_quorum 2 (count_results numbered answers []) ≡ some (c, n)
      → (2 ≤ n) × (n ≡ count c answers))
    × (find_quorum 2 (count_results numbered answers []) ≡ none
        → (c : StatusCode) → count c answers < 2)
find_quorum-count_example = find_quorum-count numbered numbered_distinct 2 answers (omega arith)

most_frequent_version-IsMostFrequent_example :
    IsMostFrequent
      (some (7 ∷ []) ∷ none ∷ some (8 ∷ []) ∷ some (8 ∷ []) ∷ [])
      (most_frequent_version (some (7 ∷ []) ∷ none ∷ some (8 ∷ []) ∷ some (8 ∷ []) ∷ []))
most_frequent_version-IsMostFrequent_example =
    most_frequent_version-IsMostFrequent (some (7 ∷ []) ∷ none ∷ some (8 ∷ []) ∷ some (8 ∷ []) ∷ [])
