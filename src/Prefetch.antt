-- ===== src/Prefetch.antt =====
-- src/PrefetchOracle.cc: the blocks that are likely to be read next. The order in which the hash map
-- of distances is walked is a parameter.
pub mod Predictions
use kineticio.Prelude.{
  ℕ, zero, suc, ◌+◌, ◌-◌, ◌*◌, ◌/◌, ◌%◌, ◌<◌, Bool, true, false, not, ◌&&◌, ◌||◌, List, [], ◌∷◌,
  ◌++◌, Option, none, some, length, take, ltb, ◌==◌, if◌then◌else◌, max, min,
}
use kineticio.Str.{size_mod}
use kineticio.Words.{int_mod, int_half, int_sub, to_size, to_int}

pub data PredictionType : Type 0 where
  complete continue : PredictionType

pub record PrefetchOracle : Type 0 where
  pub max_prediction : ℕ
  pub sequence_capacity : ℕ
  pub sequence : List ℕ
  pub past_prediction : List ℕ

-- A distance and the numbers from which it was seen, in the order of the walk.
abbrev pub Distances : Type 0
Distances = List (ℕ × List ℕ)

-- `_contains`
unfoldable pub contains : List ℕ → ℕ → Bool
contains [] number = false
contains (x ∷ xs) number = x == number || contains xs number

-- The constructor.
unfoldable pub new_oracle : ℕ → PrefetchOracle
new_oracle max = record {
  max_prediction = max;
  sequence_capacity = if ltb 8 max then max + 2 else 10;
  sequence = [];
  past_prediction = [];
}

unfoldable pub drop_last : List ℕ → List ℕ
drop_last [] = []
drop_last (x ∷ []) = []
drop_last (x ∷ y ∷ xs) = x ∷ drop_last (y ∷ xs)

-- add
unfoldable pub add : ℕ → PrefetchOracle → PrefetchOracle
unfolding contains drop_last
add number o =
    if contains o.sequence number
    then o
    else let longer = number ∷ o.sequence in
      record o {
        sequence = if ltb o.sequence_capacity (length longer) then drop_last longer else longer;
      }

-- `distances[d].push_back(number)`
unfoldable pub note_distance : ℕ → ℕ → Distances → Distances
note_distance d number [] = (d, number ∷ []) ∷ []
note_distance d number ((e, ns) ∷ ds) =
    if d == e then (e, ns ++ number ∷ []) ∷ ds else (e, ns) ∷ note_distance d number ds

-- The loop over the sequence.
unfoldable pub collect_distances : List ℕ → Distances → Distances
unfolding note_distance
collect_distances [] ds = ds
collect_distances (x ∷ []) ds = ds
collect_distances (x ∷ y ∷ []) ds = note_distance (int_sub x y) x ds
collect_distances (x ∷ y ∷ z ∷ s) ds =
    collect_distances (y ∷ z ∷ s) (note_distance (int_sub x z) x (note_distance (int_sub x y) x ds))

-- The most frequent distance: the first of the walk that no other exceeds.
unfoldable pub most_frequent_distance : ℕ × List ℕ → Distances → ℕ × List ℕ
most_frequent_distance best [] = best
most_frequent_distance best (d ∷ ds) =
    most_frequent_distance (if ltb (length best.1) (length d.1) then d else best) ds

abbrev pub front : List ℕ → ℕ
front [] = 0
front (x ∷ xs) = x

-- The predictions from the `i`-th on, `rounds` of them at most, of which `room` fit.
unfoldable pub build_prediction : ℕ → ℕ → ℕ → ℕ → ℕ → List ℕ
build_prediction start distance room i zero = []
build_prediction start distance room i (suc rounds) =
    let p = to_int (to_size start + i * to_size distance) in
    let keep = ltb 0 p && ltb p int_half && ltb 0 room in
    let rest = build_prediction start distance room (i + 1) rounds in
    let shorter = build_prediction start distance (room - 1) (i + 1) rounds in
    if keep then p ∷ shorter else rest

unfoldable pub remove_past : List ℕ → List ℕ → List ℕ
unfolding contains
remove_past past [] = []
remove_past past (p ∷ ps) = if contains past p then remove_past past ps else p ∷ remove_past past ps

unfoldable pub push_all : List ℕ → List ℕ → List ℕ
push_all [] past = past
push_all (p ∷ ps) past = push_all ps (p ∷ past)

-- The prediction from the distances, before those that were made already are removed; `none` where no
-- distance is frequent enough.
unfoldable pub predict_from : ℕ → List ℕ → Distances → Option (List ℕ)
unfolding most_frequent_distance build_prediction
predict_from room sequence [] = none
predict_from room sequence (d ∷ ds) =
    let best = most_frequent_distance d (d ∷ ds) in
    if ltb (length best.1) (length sequence * 3 / 4)
    then none
    else some (build_prediction (front best.1) best.0 room 1 (length best.1))

-- The end of predict: what is returned is remembered.
unfoldable pub remember : List ℕ → PrefetchOracle → List ℕ × PrefetchOracle
unfolding push_all
remember prediction o = (
  prediction,
  record o { past_prediction = take o.sequence_capacity (push_all prediction o.past_prediction) },
)

-- The prediction by type.
unfoldable pub by_type : PredictionType → List ℕ → PrefetchOracle → List ℕ × PrefetchOracle
unfolding remember remove_past
by_type complete all o = remember all o
by_type continue all o = remember (remove_past o.past_prediction all) o

module _ (walk : Distances → Distances) where
  -- predict
  unfoldable pub predict : ℕ → PredictionType → PrefetchOracle → List ℕ × PrefetchOracle
  unfolding collect_distances predict_from by_type
  predict wanted type o =
      if ltb (length o.sequence) 3
      then ([], o)
      else elim (predict_from (min wanted o.max_prediction) o.sequence
          (walk (collect_distances o.sequence []))) [
            | none ↦ ([], o)
            | some all ↦ by_type type all o
          ]
