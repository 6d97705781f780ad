-- ===== src/Prefetch/Predictions.antt =====
-- What a prediction can be (src/PrefetchOracle.cc: predict).
use kineticio.Prelude.{
  ℕ, zero, suc, ◌+◌, ◌-◌, ◌*◌, ◌/◌, ◌≤◌, ◌<◌, ◌≡◌, subst, false, List, [], ◌∷◌, some, length, min,
  take, ap, refl, sym, ◌∙◌, ltb, arith, Bool-cases, Option-cases, inl, inr,
}
use kineticio.Words.{int_half}
use kineticio.Prefetch.{
  PredictionType, complete, continue, PrefetchOracle, Distances, contains, build_prediction,
  remove_past, predict_from, by_type, predict, most_frequent_distance, collect_distances, front,
  new_oracle, add, remember, push_all,
}

-- Every number is a positive int.
abbrev pub Positive : List ℕ → Type 0
Positive [] = Unit {0}
Positive (p ∷ ps) = (0 < p) × (p < int_half) × Positive ps

-- No number stands in the other list.
abbrev pub Fresh : List ℕ → List ℕ → Type 0
Fresh past [] = Unit {0}
Fresh past (p ∷ ps) = (contains past p ≡ false) × Fresh past ps

build_prediction_lem :
    (start distance room i rounds : ℕ)
    → Positive (build_prediction start distance room i rounds)
      × (length (build_prediction start distance room i rounds) ≤ room)
unfolding build_prediction
build_prediction_lem start distance room i zero = (tt, omega arith)
build_prediction_lem start distance room i (suc rounds) = ground (
  arith,
  build_prediction_lem start distance room (i + 1) rounds,
  build_prediction_lem start distance (room - 1) (i + 1) rounds,
)

remove_past_lem :
    (past ps : List ℕ)
    → Positive ps
    → Positive (remove_past past ps)
      × Fresh past (remove_past past ps)
      × (length (remove_past past ps) ≤ length ps)
unfolding remove_past
remove_past_lem past [] h = (tt, tt, omega arith)
remove_past_lem past (p ∷ ps) (a, b, h) =
    let (x, y, z) = remove_past_lem past ps h in
    elim (Bool-cases (contains past p)) [
      | inl e ↦ rw e (x, y, omega arith)
      | inr e ↦ rw e ((a, b, x), (e, y), omega arith)
    ]

-- What predict returns, from what the oracle remembers.
pub record IsChosen (wanted : ℕ) (type : PredictionType) (o : PrefetchOracle) (ps : List ℕ)
    : Type 0 where
  pub positive : Positive ps
  pub few : (length ps ≤ wanted) × (length ps ≤ o.max_prediction)
  pub fresh : type ≡ continue → Fresh o.past_prediction ps

-- The same, where these are the numbers that were returned before, the last one first.
pub record IsPrediction (wanted : ℕ) (type : PredictionType) (o : PrefetchOracle)
    (returned ps : List ℕ) : Type 0 where
  pub positive : Positive ps
  pub few : (length ps ≤ wanted) × (length ps ≤ o.max_prediction)
  pub fresh : type ≡ continue → Fresh (take o.sequence_capacity returned) ps

predict_from_lem :
    (room : ℕ) (sequence ps : List ℕ) (ds : Distances)
    → predict_from room sequence ds ≡ some ps
    → Positive ps × (length ps ≤ room)
unfolding predict_from
predict_from_lem room sequence ps [] h = cc
predict_from_lem room sequence ps (d ∷ ds) h =
    let best = most_frequent_distance d (d ∷ ds) in
    elim (Bool-cases (ltb (length best.1) (length sequence * 3 / 4))) [
      | inl e ↦ absurd (cc)
      | inr e ↦
          let all = build_prediction (front best.1) best.0 room 1 (length best.1) in
          let same : all ≡ ps = ground arith in
          subst (λ x. Positive x × (length x ≤ room)) same
            (build_prediction_lem (front best.1) best.0 room 1 (length best.1))
    ]

-- The oracles that a new one becomes by calls of add and predict, whatever the order of each walk,
-- with all the numbers that were returned, the last one first.
pub data Reached : PrefetchOracle → List ℕ → Type 0 where
  start : (max : ℕ) → Reached (new_oracle max) []
  added :
      (number : ℕ) {o : PrefetchOracle} {returned : List ℕ}
      → Reached o returned
      → Reached (add number o) returned
  predicted :
      (walk : Distances → Distances) (wanted : ℕ) (type : PredictionType) {o : PrefetchOracle}
      {returned : List ℕ}
      → Reached o returned
      → Reached (predict walk wanted type o).1 (push_all (predict walk wanted type o).0 returned)

take-take : {A : Type 0} (n : ℕ) (l : List A) → take n (take n l) ≡ take n l
take-take zero l = refl
take-take (suc n) [] = refl
take-take (suc n) (x ∷ l) = ap (◌∷◌ x) (take-take n l)

take-shorter :
    {A : Type 0} (n : ℕ) (a b : List A) → take (suc n) a ≡ take (suc n) b → take n a ≡ take n b
take-shorter zero a b e = refl
take-shorter (suc n) [] [] e = refl
take-shorter (suc n) [] (y ∷ b) e = cc
take-shorter (suc n) (x ∷ a) [] e = cc
take-shorter (suc n) (x ∷ a) (y ∷ b) e =
    let heads : x ≡ y = cc in
    let tails : take (suc n) a ≡ take (suc n) b = cc in rw (heads, take-shorter n a b tails) refl

take-nothing : (n : ℕ) → take {A = ℕ} n [] ≡ []
take-nothing zero = refl
take-nothing (suc n) = refl

-- What is remembered of a list depends only on what is remembered of those before.
take-push_all :
    (n : ℕ) (ps a b : List ℕ)
    → take n a ≡ take n b
    → take n (push_all ps a) ≡ take n (push_all ps b)
unfolding push_all
take-push_all n [] a b e = e
take-push_all zero (p ∷ ps) a b e = refl
take-push_all (suc n) (p ∷ ps) a b e =
    take-push_all (suc n) ps (p ∷ a) (p ∷ b) (ap (◌∷◌ p) (take-shorter n a b e))

-- The oracle remembers the last numbers that were returned.
abbrev Remembers : PrefetchOracle → List ℕ → Type 0
Remembers o returned = o.past_prediction ≡ take o.sequence_capacity returned

remember-Remembers :
    (ps returned : List ℕ) (o : PrefetchOracle)
    → Remembers o returned
    → Remembers (remember ps o).1 (push_all (remember ps o).0 returned)
unfolding remember
remember-Remembers ps returned o h =
    take-push_all o.sequence_capacity ps o.past_prediction returned
      (ap (take o.sequence_capacity) h ∙ take-take o.sequence_capacity returned)

by_type-Remembers :
    (type : PredictionType) (all returned : List ℕ) (o : PrefetchOracle)
    → Remembers o returned
    → Remembers (by_type type all o).1 (push_all (by_type type all o).0 returned)
unfolding by_type
by_type-Remembers complete all returned o h = remember-Remembers all returned o h
by_type-Remembers continue all returned o h =
    remember-Remembers (remove_past o.past_prediction all) returned o h

predict-Remembers :
    (walk : Distances → Distances) (wanted : ℕ) (type : PredictionType) (o : PrefetchOracle)
    (returned : List ℕ)
    → Remembers o returned
    → Remembers (predict walk wanted type o).1 (push_all (predict walk wanted type o).0 returned)
unfolding predict push_all
predict-Remembers walk wanted type o returned h = elim (Bool-cases (ltb (length o.sequence) 3)) [
  | inl e ↦ rw (e, predict) h
  | inr e ↦
      let room = min wanted o.max_prediction in
      let ds = walk (collect_distances o.sequence []) in
      elim (Option-cases (predict_from room o.sequence ds)) [
        | inl f ↦ rw (e, predict, f) h
        | inr (all, f) ↦ rw (e, predict, f) (by_type-Remembers type all returned o h)
      ]
]

add-Remembers :
    (number : ℕ) (o : PrefetchOracle) (returned : List ℕ)
    → Remembers o returned
    → Remembers (add number o) returned
unfolding add
add-Remembers number o returned h = elim (Bool-cases (contains o.sequence number)) [
  | inl e ↦ rw (e, add) h
  | inr e ↦ rw (e, add) h
]

Reached-Remembers :
    {o : PrefetchOracle} {returned : List ℕ} → Reached o returned → Remembers o returned
unfolding new_oracle
Reached-Remembers (start max) = sym (take-nothing (new_oracle max).sequence_capacity)
Reached-Remembers (added number {o} {returned} r) =
    add-Remembers number o returned (Reached-Remembers r)
Reached-Remembers (predicted walk wanted type {o} {returned} r) =
    predict-Remembers walk wanted type o returned (Reached-Remembers r)

nothing-IsChosen :
    (wanted : ℕ) (type : PredictionType) (o : PrefetchOracle) → IsChosen wanted type o []
nothing-IsChosen wanted type o = record {
  positive = tt;
  few = (omega arith, omega arith);
  fresh = λ h. tt;
}

-- The prediction by type, from all that the distances give.
by_type-IsChosen :
    (wanted : ℕ) (type : PredictionType) (o : PrefetchOracle) (all : List ℕ)
    → Positive all
    → length all ≤ min wanted o.max_prediction
    → IsChosen wanted type o (by_type type all o).0
unfolding by_type
by_type-IsChosen wanted complete o all p h = record {
  positive = p;
  few = (omega arith, omega arith);
  fresh = λ h. cc;
}
by_type-IsChosen wanted continue o all p h =
    let (x, y, z) = remove_past_lem o.past_prediction all p in
    record { positive = x; few = (omega arith, omega arith); fresh = λ h. y }

pub predict-IsChosen :
    (walk : Distances → Distances) (wanted : ℕ) (type : PredictionType) (o : PrefetchOracle)
    → IsChosen wanted type o (predict walk wanted type o).0
unfolding predict
predict-IsChosen walk wanted type o = elim (Bool-cases (ltb (length o.sequence) 3)) [
  | inl e ↦ rw (e, predict) (nothing-IsChosen wanted type o)
  | inr e ↦
      let room = min wanted o.max_prediction in
      let ds = walk (collect_distances o.sequence []) in
      elim (Option-cases (predict_from room o.sequence ds)) [
        | inl f ↦ rw (e, predict, f) (nothing-IsChosen wanted type o)
        | inr (all, f) ↦
            let (p, h) = predict_from_lem room o.sequence all ds f in
            rw (e, predict, f) (by_type-IsChosen wanted type o all p h)
      ]
]

-- In an oracle after any calls, whatever the order of each walk, a prediction has only positive int
-- block numbers, at most as many as asked for and as the oracle allows; and a continued one has none
-- of the numbers that were returned last, as many of these as the capacity of the sequence.
pub predict-IsPrediction :
    (walk : Distances → Distances) (wanted : ℕ) (type : PredictionType) {o : PrefetchOracle}
    {returned : List ℕ}
    → Reached o returned
    → IsPrediction wanted type o returned (predict walk wanted type o).0
predict-IsPrediction walk wanted type {o} {returned} reached =
    let chosen = predict-IsChosen walk wanted type o in
    record {
      positive = chosen.positive;
      few = chosen.few;
      fresh = λ h.
          subst (λ past. Fresh past (predict walk wanted type o).0) (Reached-Remembers reached)
            (chosen.fresh h);
    }
