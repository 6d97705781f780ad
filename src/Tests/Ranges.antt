-- ===== src/Tests/Ranges.antt =====
-- An example for the keys of a range (src/KineticClusterOperation.cc: ClusterRangeOp).
use kineticio.Prelude.{◌≡◌, refl, [], ◌∷◌, Option, none, some, List}
use kineticio.Str.{Bytes}
use kineticio.Range.{get_keys, merge_keys, insert_each, insert_key, str_lt}
use kineticio.Range.Merged.{IsMerged, get_keys-IsMerged}

-- Two drives with their last keys, and one that failed.
abbrev last_keys : List (Option (List Bytes))
last_keys = some ((97 ∷ 57 ∷ []) ∷ []) ∷ none ∷ some ((97 ∷ 56 ∷ []) ∷ []) ∷ []

get_keys-IsMerged_example : IsMerged 1 last_keys (get_keys 1 last_keys)
get_keys-IsMerged_example = get_keys-IsMerged 1 last_keys

-- The smaller of them is kept.
smaller_kept : get_keys 1 last_keys ≡ (97 ∷ 56 ∷ []) ∷ []
unfolding get_keys merge_keys insert_each insert_key str_lt
smaller_kept = refl
