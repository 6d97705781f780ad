-- ===== src/Admin.antt =====
-- The administration of a cluster: src/KineticAdminCluster.cc, and quick_repair of
-- src/KineticClusterStripeOperation.cc. The background threads that apply an operation to the pages
-- of keys are taken one after the other, and the counts stay below 2 ^ 31. Where the fuel of a put or
-- a removal runs out the result is `none`.
pub mod Applied
pub mod Repaired
pub mod Counted
pub mod Pages
use kineticio.Prelude.{
  ℕ, zero, suc, ◌+◌, Bool, true, false, not, ◌&&◌, ◌||◌, List, [], ◌∷◌, ◌++◌, Option, none, some,
  map, length, replicate, leb, ltb, ◌==◌, bytes_eq, if◌then◌else◌, Result, ok, throw, Error,
  io_error, runtime_error,
}
use kineticio.Str.{Bytes}
use kineticio.Kinetic.{StatusCode, status_ok, remote_not_found, is_ok, is_not_found}
use kineticio.Keys.{make_metadata_key, make_attribute_key, make_indicator_key, indicator_to_key}
use kineticio.Keys.Numbers.{make_data_key}
use kineticio.Quorum.{lookup, count_results, most_frequent_version, VersionCount}
use kineticio.Redundancy.{size}
use kineticio.Stripe.{KineticRecord, value_to_stripe}
use kineticio.Operation.{
  Writes, Drives, Operation, require_same_version, ignore_version, fill_operation, on_result,
  execute_vector, statuses, status_of,
}
use kineticio.Operation.Execute.{del_execute}
use kineticio.Get.{ReadRequest, Get, is_exception, new_get, read_version, get_execute}
use kineticio.Range.{RangeRequest}
use kineticio.Cluster.{KineticCluster, Outside, put, remove_forced}

-- The enumerations Operation and OperationTarget.
pub data AdminOperation : Type 0 where
  count scan repair reset : AdminOperation

pub data OperationTarget : Type 0 where
  data_keys metadata_keys attribute_keys indicator_keys invalid : OperationTarget

abbrev pub is_indicator : OperationTarget → Bool
is_indicator indicator_keys = true
is_indicator _ = false

pub record KeyCounts : Type 0 where
  pub total : ℕ
  pub incomplete : ℕ
  pub need_action : ℕ
  pub repaired : ℕ
  pub removed : ℕ
  pub unrepairable : ℕ

abbrev pub no_counts : KeyCounts
no_counts = record {
  total = 0;
  incomplete = 0;
  need_action = 0;
  repaired = 0;
  removed = 0;
  unrepairable = 0;
}

-- getVersionAt of a read of records.
unfoldable pub record_version_at : Operation ReadRequest (Option KineticRecord) → Option Bytes
record_version_at op =
    if is_not_found (status_of op)
    then some []
    else if is_ok (status_of op)
    then (elim op.callback.payload [ none ↦ none | some r ↦ some r.version ])
    else none

-- The loop of quick_repair: an operation whose drive is known to have another version is filled, and
-- every other one counts as done.
unfoldable pub mark_current : Bytes → Writes → List (Option Bytes) → Writes
mark_current version [] vs = []
mark_current version (op ∷ ops) [] =
    record op { callback = on_result status_ok op.callback } ∷ mark_current version ops []
mark_current version (op ∷ ops) (none ∷ vs) =
    record op { callback = on_result status_ok op.callback } ∷ mark_current version ops vs
mark_current version (op ∷ ops) (some v ∷ vs) =
    (if bytes_eq v version
      then record op { callback = on_result status_ok op.callback }
      else fill_operation v require_same_version)
    ∷ mark_current version ops vs

-- quick_repair
unfoldable pub quick_repair :
    {W : Type 0} → Drives W → (StatusCode → ℕ) → Bytes → Writes → List (Option Bytes) → W → Bool × W
unfolding mark_current execute_vector
quick_repair drives ordinal version ops vs w =
    let (ops', w') = execute_vector drives.send_write 0 (mark_current version ops vs) w in
    (lookup ordinal status_ok (count_results ordinal (statuses ops') []) == length ops', w')

-- The text "~"
abbrev pub tilde : Bytes
tilde = 126 ∷ []

-- initRangeKeys; an invalid target is the logic_error.
unfoldable pub init_range_keys : Bytes → OperationTarget → Result (Bytes × Bytes)
unfolding make_metadata_key make_attribute_key make_data_key make_indicator_key
init_range_keys id metadata_keys = ok (make_metadata_key id (32 ∷ []), make_metadata_key id tilde)
init_range_keys id attribute_keys =
    ok (make_attribute_key id (32 ∷ []) (32 ∷ []), make_attribute_key id tilde tilde)
init_range_keys id data_keys = ok (make_data_key id (32 ∷ []) 0, make_data_key id tilde 99_999_999)
init_range_keys id indicator_keys = ok (make_indicator_key id, make_indicator_key (id ++ tilde))
init_range_keys id invalid = throw runtime_error

-- "handoff=" and a key
abbrev pub handoff_start : Bytes → Bytes
handoff_start key = 104 ∷ 97 ∷ 110 ∷ 100 ∷ 111 ∷ 102 ∷ 102 ∷ 61 ∷ key

-- How a step on a key ends, with the counts.
abbrev pub Step : Type 0 → Type 0 → Type 0
Step W A = Option (Result A × KeyCounts × W)

module _ {W : Type 0} (out : Outside W) (cluster : KineticCluster) (fuel : ℕ)
    (range_with : ℕ → Bytes → Bytes → ℕ → W → (StatusCode × Option (List Bytes)) × W) where
  open cluster use {redundancy, chunk_capacity, operation_timeout, connections}

  -- The removal of a key from all drives.
  unfoldable pub remove_everywhere : Bytes → W → Option (Result StatusCode × W)
  unfolding del_execute
  remove_everywhere key w =
      elim (del_execute (out.del_drives key) out.ordinal redundancy.num_data redundancy.num_parity
        operation_timeout fuel (replicate connections (fill_operation [] ignore_version)) w) [
          | none ↦ none
          | some (throw e, ops, w') ↦ some (throw e, w')
          | some (ok (status, indicator), ops, w') ↦ some (ok status, w')
        ]

  -- The loop of removeIndicatorKey over the handoff keys.
  unfoldable pub remove_handoffs : List Bytes → W → Option (Result (Unit {0}) × W)
  unfolding remove_everywhere
  remove_handoffs [] w = some (ok tt, w)
  remove_handoffs (k ∷ ks) w =
      let rest = remove_handoffs ks in
      elim (remove_everywhere k w) [
        | none ↦ none
        | some (throw e, w') ↦ some (throw e, w')
        | some (ok _, w') ↦ rest w'
      ]

  -- removeIndicatorKey; `range_with` is a ClusterRangeOp with the number of drives that may fail.
  unfoldable pub remove_indicator_key : Bytes → W → Option (Result Bool × W)
  unfolding remove_handoffs make_indicator_key
  remove_indicator_key key w =
      let ((status, keys), w1) =
        range_with redundancy.num_data (handoff_start key) (handoff_start (key ++ tilde)) 100 w in
      let found = if is_ok status then (elim keys [ none ↦ [] | some ks ↦ ks ]) else [] in
      elim (remove_handoffs found w1) [
        | none ↦ none
        | some (throw e, w2) ↦ some (throw e, w2)
        | some (ok _, w2) ↦ elim (remove_everywhere (make_indicator_key key) w2) [
          | none ↦ none
          | some (throw e, w3) ↦ some (throw e, w3)
          | some (ok s, w3) ↦ some (ok (is_ok s), w3)
        ]
      ]

  -- The end of scanKey, with the numbers of drives that have the key, that do not, and that have the
  -- most frequent version.
  unfoldable pub judge : ℕ → ℕ → ℕ → KeyCounts → Result Bool × KeyCounts
  judge present absent frequency counts =
      let valid = present + absent in
      let counts' =
        if ltb valid (size redundancy)
        then record counts { incomplete = counts.incomplete + 1 }
        else counts in
      if (frequency == valid) && leb redundancy.num_data valid
      then (ok false, counts')
      else if leb redundancy.num_data frequency || leb redundancy.num_data absent
      then (ok true, record counts' { need_action = counts'.need_action + 1 })
      else (throw runtime_error, counts')

  -- scanKey
  unfoldable pub scan_key : Bytes → KeyCounts → W → Result Bool × KeyCounts × W
  unfolding new_get execute_vector judge
  scan_key key counts w =
      let send = out.send_read true in
      let g =
        new_get send out.range_all out.ordinal out.crc redundancy key (out.hash key) connections
          true true in
      let (ops, w') = execute_vector send 0 g.operations w in
      let rmap = count_results out.ordinal (statuses ops) [] in
      let (r, counts') =
        judge (lookup out.ordinal status_ok rmap) (lookup out.ordinal remote_not_found rmap)
          (most_frequent_version (map read_version ops)).frequency counts in
      (r, counts', w')

  -- The repair of a key that could be read.
  unfoldable pub rewrite_key : Bytes → Get → KeyCounts → W → Step W (Unit {0})
  unfolding value_to_stripe quick_repair record_version_at
  rewrite_key key g counts w =
      let value : Bytes = elim g.value [ none ↦ [] | some v ↦ v ] in
      let version : Bytes = elim g.version.version [ none ↦ [] | some v ↦ v ] in
      elim (value_to_stripe redundancy chunk_capacity value) [
        | throw e ↦ some (throw e, counts, w)
        | ok stripe ↦
            let (done, w1) =
              quick_repair (out.put_drives key version stripe) out.ordinal version
                (replicate (length stripe) (fill_operation version require_same_version))
                (map record_version_at g.operations) w in
            let repaired = record counts { repaired = counts.repaired + 1 } in
            let written =
              put out cluster fuel (some key) (some version) (some value) (some version) w1 in
            if done then some (ok tt, repaired, w1) else elim written [
              | none ↦ none
              | some (throw e, w2) ↦ some (throw e, counts, w2)
              | some (ok (status, _), w2) ↦
                  some
                    (if is_ok status then (ok tt, repaired, w2) else (throw io_error, counts, w2))
            ]
      ]

  -- The removal of a key that most drives do not have.
  unfoldable pub clear_key : Bytes → KeyCounts → W → Step W (Unit {0})
  clear_key key counts w = elim (remove_forced out cluster fuel (some key) w) [
    | none ↦ none
    | some (throw e, w') ↦ some (throw e, counts, w')
    | some (ok status, w') ↦ some (
        if is_ok status || is_not_found status
        then (ok tt, record counts { removed = counts.removed + 1 }, w')
        else (throw io_error, counts, w'))
  ]

  -- repairKey
  unfoldable pub repair_key : Bytes → KeyCounts → W → Step W (Unit {0})
  unfolding new_get get_execute rewrite_key clear_key
  repair_key key counts w =
      let send = out.send_read false in
      let ((r, g), w') =
        get_execute send out.range_all out.ordinal out.crc redundancy key (out.hash key) connections
          false
          (new_get send out.range_all out.ordinal out.crc redundancy key (out.hash key) connections
            false true)
          w in
      elim r [
        | throw e ↦ some (throw e, counts, w')
        | ok status ↦
            if is_ok status
            then rewrite_key key g counts w'
            else if is_not_found status
            then clear_key key counts w'
            else some (throw io_error, counts, w')
      ]
