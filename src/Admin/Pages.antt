-- ===== src/Admin/Pages.antt =====
-- doOperation of src/KineticAdminCluster.cc: the keys of a target are taken page by page, and count,
-- scan, repair and reset.
use kineticio.Prelude.{
  ℕ, zero, suc, ◌+◌, Bool, true, false, not, List, [], ◌∷◌, ◌++◌, Option, none, some, length, ltb,
  if◌then◌else◌, Result, ok, throw,
}
use kineticio.Str.{Bytes}
use kineticio.Kinetic.{StatusCode, is_ok}
use kineticio.Get.{is_exception}
use kineticio.Cluster.{KineticCluster, Outside}
use kineticio.Admin.{AdminOperation, OperationTarget, KeyCounts, no_counts, init_range_keys}
use kineticio.Admin.Applied.{apply_operation}

-- keys->back(), or `found` where there are no keys
unfoldable pub last_key : Bytes → List Bytes → Bytes
last_key found [] = found
last_key found (k ∷ ks) = last_key k ks

abbrev pub is_count : AdminOperation → Bool
is_count AdminOperation.count = true
is_count _ = false

module _ {W : Type 0} (out : Outside W) (cluster : KineticCluster) (fuel : ℕ)
    (range_with : ℕ → Bytes → Bytes → ℕ → W → (StatusCode × Option (List Bytes)) × W)
    (range : Bytes → Bytes → W → (StatusCode × Option (List Bytes)) × W)
    (operation : AdminOperation) (target : OperationTarget) (callback : Option (ℕ → Bool)) where
  -- Whether the callback asks to stop.
  unfoldable pub is_interrupted : ℕ → Bool
  is_interrupted total = elim callback [ none ↦ false | some f ↦ not (f total) ]

  -- The work on a page. An exception ends in the background thread that does it; a null pointer that
  -- is followed ends the program, which is `none` too.
  unfoldable pub work_on : List Bytes → KeyCounts → W → Option (KeyCounts × W)
  unfolding apply_operation
  work_on page counts w =
      let applied : Option (KeyCounts × W) =
        elim (apply_operation out cluster fuel range_with operation target page counts w) [
          | none ↦ none
          | some (ok _, counts', w') ↦ some (counts', w')
          | some (throw e, counts', w') ↦ if is_exception e then some (counts', w') else none
        ] in
      if is_count operation then some (counts, w) else applied

  -- A page that is not empty is counted and worked on.
  unfoldable pub take_page : List Bytes → KeyCounts → W → Option (KeyCounts × W)
  unfolding work_on
  take_page [] counts w = some (counts, w)
  take_page (k ∷ ks) counts w =
      work_on (k ∷ ks) (record counts { total = counts.total + length (k ∷ ks) }) w

  -- The rest of a round after the page is there; `next` are the rounds from a key on.
  unfoldable pub page_round :
      (Bytes → KeyCounts → W → Option (KeyCounts × W))
      → List Bytes
      → KeyCounts
      → W
      → Option (KeyCounts × W)
  unfolding take_page last_key is_interrupted
  page_round next page counts w = elim (take_page page counts w) [
    | none ↦ none
    | some (counts', w') ↦
        if is_interrupted counts'.total
        then some (counts', w')
        else (if ltb 0 (length page)
            then next (last_key [] page ++ 0 ∷ []) counts' w'
            else some (counts', w'))
  ]

  abbrev pub page_of : Option (List Bytes) → List Bytes
  page_of none = []
  page_of (some ks) = ks

  -- The loop; `none` if the fuel runs out. The keys are null before the first page.
  unfoldable pub page_loop : ℕ → Bytes → Bytes → KeyCounts → W → Option (KeyCounts × W)
  page_loop zero start end counts w = none
  page_loop (suc n) start end counts w =
      let ((status, keys), w') = range start end w in
      let next : Bytes → KeyCounts → W → Option (KeyCounts × W) = λ s. page_loop n s end in
      let round = page_round next (page_of keys) counts w' in
      if is_ok status then round else some (counts, w')

  -- doOperation
  unfoldable pub do_operation : ℕ → Bytes → W → Option (Result KeyCounts × W)
  unfolding init_range_keys page_loop
  do_operation n id w = elim (init_range_keys id target) [
    | throw e ↦ some (throw e, w)
    | ok (start, end) ↦ elim (page_loop n start end no_counts w) [
      | none ↦ none
      | some (counts, w') ↦ some (ok counts, w')
    ]
  ]

-- count, scan, repair and reset
module _ {W : Type 0} (out : Outside W) (cluster : KineticCluster) (fuel : ℕ)
    (range_with : ℕ → Bytes → Bytes → ℕ → W → (StatusCode × Option (List Bytes)) × W)
    (range : Bytes → Bytes → W → (StatusCode × Option (List Bytes)) × W) (target : OperationTarget)
    (callback : Option (ℕ → Bool)) (pages : ℕ) (id : Bytes) where
  unfoldable pub count : W → Option (Result ℕ × W)
  unfolding do_operation
  count w =
      elim (do_operation out cluster fuel range_with range AdminOperation.count target callback
        pages id w) [
          | none ↦ none
          | some (throw e, w') ↦ some (throw e, w')
          | some (ok counts, w') ↦ some (ok counts.total, w')
        ]

  unfoldable pub scan : W → Option (Result KeyCounts × W)
  unfolding do_operation
  scan = do_operation out cluster fuel range_with range AdminOperation.scan target callback pages id

  unfoldable pub repair : W → Option (Result KeyCounts × W)
  unfolding do_operation
  repair =
      do_operation out cluster fuel range_with range AdminOperation.repair target callback pages id

  unfoldable pub reset : W → Option (Result KeyCounts × W)
  unfolding do_operation
  reset =
      do_operation out cluster fuel range_with range AdminOperation.reset target callback pages id
