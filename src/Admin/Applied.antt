-- ===== src/Admin/Applied.antt =====
-- applyOperation of src/KineticAdminCluster.cc: scan, repair and reset of given keys.
use kineticio.Prelude.{
  ℕ, ◌+◌, Bool, ◌||◌, List, [], ◌∷◌, Option, none, some, if◌then◌else◌, Result, ok, throw, io_error,
  runtime_error,
}
use kineticio.Str.{Bytes}
use kineticio.Kinetic.{StatusCode, is_ok}
use kineticio.Keys.{indicator_to_key}
use kineticio.Get.{is_exception}
use kineticio.Cluster.{KineticCluster, Outside, remove_forced}
use kineticio.Admin.{
  AdminOperation, OperationTarget, is_indicator, KeyCounts, Step, remove_indicator_key, scan_key,
  repair_key,
}

module _ {W : Type 0} (out : Outside W) (cluster : KineticCluster) (fuel : ℕ)
    (range_with : ℕ → Bytes → Bytes → ℕ → W → (StatusCode × Option (List Bytes)) × W) where
  -- The cases of applyOperation: what follows a scan in a repair, and the reset.
  unfoldable pub repair_scanned :
      OperationTarget → Bytes → Result Bool × KeyCounts × W → Step W (Unit {0})
  unfolding repair_key remove_indicator_key
  repair_scanned target key (throw e, counts, w) = some (throw e, counts, w)
  repair_scanned target key (ok action, counts, w) =
      let repair : Step W (Unit {0}) = elim (repair_key out cluster fuel range_with key counts w) [
        | none ↦ none
        | some (throw e, counts', w') ↦ some (throw e, counts', w')
        | some (ok _, counts', w') ↦
            elim (remove_indicator_key out cluster fuel range_with key w') [
              | none ↦ none
              | some (throw e, w'') ↦ some (throw e, counts', w'')
              | some (ok _, w'') ↦ some (ok tt, counts', w'')
            ]
      ] in
      if action || is_indicator target then repair else some (ok tt, counts, w)

  unfoldable pub reset_key : OperationTarget → Bytes → KeyCounts → W → Step W (Unit {0})
  unfolding remove_indicator_key
  reset_key target key counts w =
      let removed = record counts { removed = counts.removed + 1 } in
      let by_indicator : Step W (Unit {0}) =
        elim (remove_indicator_key out cluster fuel range_with key w) [
          | none ↦ none
          | some (throw e, w') ↦ some (throw e, counts, w')
          | some (ok done, w') ↦
              some (if done then (ok tt, removed, w') else (throw io_error, counts, w'))
        ] in
      let by_key : Step W (Unit {0}) = elim (remove_forced out cluster fuel (some key) w) [
        | none ↦ none
        | some (throw e, w') ↦ some (throw e, counts, w')
        | some (ok status, w') ↦
            some (if is_ok status then (ok tt, removed, w') else (throw io_error, counts, w'))
      ] in
      if is_indicator target then by_indicator else by_key

  unfoldable pub apply_to :
      AdminOperation → OperationTarget → Bytes → KeyCounts → W → Step W (Unit {0})
  unfolding scan_key repair_scanned reset_key
  apply_to AdminOperation.count target key counts w = some (throw runtime_error, counts, w)
  apply_to AdminOperation.scan target key counts w =
      let (r, counts', w') = scan_key out cluster fuel range_with key counts w in
      some (elim r [ throw e ↦ throw e | ok _ ↦ ok tt ], counts', w')
  apply_to AdminOperation.repair target key counts w =
      repair_scanned target key (scan_key out cluster fuel range_with key counts w)
  apply_to AdminOperation.reset target key counts w = reset_key target key counts w

  -- The handler of applyOperation; a null pointer is no exception that it catches.
  unfoldable pub catch_all : Step W (Unit {0}) → Step W (Unit {0})
  catch_all none = none
  catch_all (some (ok _, counts, w)) = some (ok tt, counts, w)
  catch_all (some (throw e, counts, w)) = some (
      if is_exception e
      then (ok tt, record counts { unrepairable = counts.unrepairable + 1 }, w)
      else (throw e, counts, w))

  -- A round of applyOperation; the key of an indicator is taken outside the handler.
  unfoldable pub apply_round :
      AdminOperation → OperationTarget → Bytes → KeyCounts → W → Step W (Unit {0})
  unfolding apply_to catch_all indicator_to_key
  apply_round operation target key counts w =
      let plain = catch_all (apply_to operation target key counts w) in
      let indicated : Step W (Unit {0}) = elim (indicator_to_key key) [
        | throw e ↦ some (throw e, counts, w)
        | ok k ↦ catch_all (apply_to operation target k counts w)
      ] in
      if is_indicator target then indicated else plain

  -- applyOperation
  unfoldable pub apply_operation :
      AdminOperation → OperationTarget → List Bytes → KeyCounts → W → Step W (Unit {0})
  unfolding apply_round
  apply_operation operation target [] counts w = some (ok tt, counts, w)
  apply_operation operation target (k ∷ ks) counts w =
      let rest = apply_operation operation target ks in
      elim (apply_round operation target k counts w) [
        | none ↦ none
        | some (throw e, counts', w') ↦ some (throw e, counts', w')
        | some (ok _, counts', w') ↦ rest counts' w'
      ]
