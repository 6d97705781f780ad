-- ===== src/Admin/Repaired.antt =====
-- A repair of a stripe whose drives are not known to be behind (src/KineticClusterStripeOperation.cc:
-- quick_repair).
use kineticio.Prelude.{
  ℕ, zero, suc, ◌≡◌, refl, ap, ◌∙◌, true, List, [], ◌∷◌, Option, none, some, length,
  length-replicate, replicate, ◌==◌, ==_refl, bytes_eq_refl, arith,
}
use kineticio.Str.{Bytes}
use kineticio.Kinetic.{StatusCode, status_ok, code_eq_refl}
use kineticio.Quorum.{rank, lookup, count_results}
use kineticio.Quorum.Counts.{count, lookup-count_results}
use kineticio.Operation.{
  Writes, WriteMode, Drives, Operation, WriteRequest, fill_operation, on_result, execute_vector,
  statuses,
}
use kineticio.Admin.{mark_current, quick_repair}

-- Each drive has the version, or it is not known which one it has.
abbrev pub NoneBehind : Bytes → List (Option Bytes) → Type 0
NoneBehind version [] = Unit {0}
NoneBehind version (none ∷ vs) = NoneBehind version vs
NoneBehind version (some v ∷ vs) = (v ≡ version) × NoneBehind version vs

module _ {W : Type 0} (drives : Drives W) (ordinal : StatusCode → ℕ)
    (distinct : (c d : StatusCode) → rank ordinal c ≡ rank ordinal d → c ≡ d) where
  -- An operation that is done with OK.
  abbrev marked : Operation WriteRequest (Unit {0}) → Operation WriteRequest (Unit {0})
  marked op = record op { callback = on_result status_ok op.callback }

  mark_current-NoneBehind :
      (version old : Bytes) (mode : WriteMode) (vs : List (Option Bytes))
      → NoneBehind version vs
      → mark_current version (replicate (length vs) (fill_operation old mode)) vs
        ≡ replicate (length vs) (marked (fill_operation old mode))
  unfolding mark_current
  mark_current-NoneBehind version old mode [] h = refl
  mark_current-NoneBehind version old mode (none ∷ vs) h =
      ap (◌∷◌ (marked (fill_operation old mode))) (mark_current-NoneBehind version old mode vs h)
  mark_current-NoneBehind version old mode (some v ∷ vs) (e, h) =
      rw (e, bytes_eq_refl version)
        (ap (◌∷◌ (marked (fill_operation old mode)))
          (mark_current-NoneBehind version old mode vs h))

  execute-marked :
      (i n : ℕ) (old : Bytes) (mode : WriteMode) (w : W)
      → execute_vector drives.send_write i (replicate n (marked (fill_operation old mode))) w
        ≡ (replicate n (marked (fill_operation old mode)), w)
  unfolding execute_vector
  execute-marked i zero old mode w = refl
  execute-marked i (suc n) old mode w = rw (execute-marked (suc i) n old mode w) refl

  count-replicate :
      (n : ℕ) (old : Bytes) (mode : WriteMode)
      → count status_ok (statuses (replicate n (marked (fill_operation old mode)))) ≡ n
  count-replicate zero old mode = refl
  count-replicate (suc n) old mode =
      rw (code_eq_refl status_ok) (omega (arith, count-replicate n old mode))

  -- Where each drive either has the version already or gave no answer that tells its version,
  -- quick_repair writes no chunk and reports success, also of drives that have none.
  pub quick_repair_blind :
      (version old : Bytes) (mode : WriteMode) (vs : List (Option Bytes)) (w : W)
      → NoneBehind version vs
      → quick_repair drives ordinal version (replicate (length vs) (fill_operation old mode)) vs w
        ≡ (true, w)
  unfolding quick_repair lookup
  quick_repair_blind version old mode vs w h =
      let n = length vs in
      let done = replicate n (marked (fill_operation old mode)) in
      let marked_so = mark_current-NoneBehind version old mode vs h in
      let executed =
        ap (λ ops. execute_vector drives.send_write 0 ops w) marked_so
        ∙ execute-marked 0 n old mode w in
      let counted : lookup ordinal status_ok (count_results ordinal (statuses done) []) ≡ n =
        omega (
          arith,
          (lookup-count_results ordinal distinct status_ok (statuses done) [] tt).1,
          count-replicate n old mode,
        ) in
      let sized : length done ≡ n = length-replicate n (marked (fill_operation old mode)) in
      ap
        (λ (p : Writes × W).
          (lookup ordinal status_ok (count_results ordinal (statuses p.0) []) == length p.0, p.1))
        executed
      ∙ rw (counted, sized, ==_refl n) refl
