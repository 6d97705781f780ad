-- ===== src/Cluster/Snapshot.antt =====
-- The limits and statistics of a cluster (src/KineticCluster.cc: KineticCluster, stats,
-- updateSnapshot) out of the logs of its drives (src/KineticClusterOperation.cc: ClusterLogOp).
pub mod Limits
use kineticio.Prelude.{
  ℕ, zero, suc, ◌+◌, ◌-◌, ◌*◌, ◌/◌, ◌%◌, Bool, true, false, not, List, [], ◌∷◌, ◌++◌, Option, none,
  some, map, length, ltb, bytes_eq, if◌then◌else◌, Result, ok, throw, invalid_argument,
}
use kineticio.Str.{Bytes, size_mod, size_add}
use kineticio.Words.{size_mul, size_sub}
use kineticio.Kinetic.{StatusCode, is_ok}
use kineticio.Keys.{make_indicator_key}
use kineticio.Placement.{expand}
use kineticio.Operation.{Operation, Callback, callback, Delivery, execute_vector}

-- What a drive tells of itself: `bytes_used` is the product of its capacity and of the portion that
-- is full, as a uint64_t.
pub record OperationCount : Type 0 where
  pub name : Bytes
  pub count : ℕ
  pub bytes : ℕ

pub record DriveLog : Type 0 where
  pub max_value_size : ℕ
  pub max_key_size : ℕ
  pub max_version_size : ℕ
  pub nominal_capacity : ℕ
  pub bytes_used : ℕ
  pub operation_statistics : List OperationCount

pub record ClusterLimits : Type 0 where
  pub max_range_elements : ℕ
  pub max_key_size : ℕ
  pub max_version_size : ℕ
  pub max_value_size : ℕ

-- ClusterStats with the health of the cluster. Sums are taken modulo 2 ^ 64.
pub record ClusterStats : Type 0 where
  pub drives_total : ℕ
  pub redundancy_factor : ℕ
  pub drives_failed : ℕ
  pub indicator_exist : Bool
  pub bytes_total : ℕ
  pub bytes_free : ℕ
  pub read_ops_total : ℕ
  pub read_bytes_total : ℕ
  pub write_ops_total : ℕ
  pub write_bytes_total : ℕ
  pub read_ops_period : ℕ
  pub read_bytes_period : ℕ
  pub write_ops_period : ℕ
  pub write_bytes_period : ℕ
  pub io_start : ℕ
  pub io_end : ℕ

-- The sums of updateSnapshot over the drives.
pub record Totals : Type 0 where
  pub num_failed : ℕ
  pub bytes_total : ℕ
  pub bytes_free : ℕ
  pub read_ops : ℕ
  pub read_bytes : ℕ
  pub write_ops : ℕ
  pub write_bytes : ℕ

-- "GET_RESPONSE" and "PUT"
abbrev pub get_response : Bytes
get_response = 71 ∷ 69 ∷ 84 ∷ 95 ∷ 82 ∷ 69 ∷ 83 ∷ 80 ∷ 79 ∷ 78 ∷ 83 ∷ 69 ∷ []

abbrev pub put_text : Bytes
put_text = 80 ∷ 85 ∷ 84 ∷ []

unfoldable pub count_operation : OperationCount → Totals → Totals
count_operation o t =
    if bytes_eq o.name get_response
    then record t {
      read_ops = size_add t.read_ops o.count;
      read_bytes = size_add t.read_bytes o.bytes;
    }
    else if bytes_eq o.name put_text
    then record t {
      write_ops = size_add t.write_ops o.count;
      write_bytes = size_add t.write_bytes o.bytes;
    }
    else t

unfoldable pub count_operations : List OperationCount → Totals → Totals
unfolding count_operation
count_operations [] t = t
count_operations (o ∷ os) t = count_operations os (count_operation o t)

-- A round of the evaluation of the logs.
unfoldable pub count_drive : Callback (Option DriveLog) → Totals → Totals
unfolding count_operations
count_drive cb t =
    if not (is_ok cb.status) then record t { num_failed = t.num_failed + 1 } else elim cb.payload [
      | none ↦ t
      | some log ↦ count_operations log.operation_statistics (record t {
        bytes_total = size_add t.bytes_total log.nominal_capacity;
        bytes_free = size_add t.bytes_free (size_sub log.nominal_capacity log.bytes_used);
      })
    ]

unfoldable pub count_drives : List (Callback (Option DriveLog)) → Totals → Totals
unfolding count_drive
count_drives [] t = t
count_drives (cb ∷ cbs) t = count_drives cbs (count_drive cb t)

abbrev pub no_totals : Totals
no_totals = record {
  num_failed = 0;
  bytes_total = 0;
  bytes_free = 0;
  read_ops = 0;
  read_bytes = 0;
  write_ops = 0;
  write_bytes = 0;
}

-- The end of updateSnapshot.
unfoldable pub store_snapshot : Totals → Bool → ℕ → ClusterStats → ClusterStats
store_snapshot t indicator now s = record s {
  io_start = s.io_end;
  io_end = now;
  read_ops_period = size_sub t.read_ops s.read_ops_total;
  read_bytes_period = size_sub t.read_bytes s.read_bytes_total;
  write_ops_period = size_sub t.write_ops s.write_ops_total;
  write_bytes_period = size_sub t.write_bytes s.write_bytes_total;
  read_ops_total = t.read_ops;
  read_bytes_total = t.read_bytes;
  write_ops_total = t.write_ops;
  write_bytes_total = t.write_bytes;
  bytes_free = t.bytes_free;
  bytes_total = t.bytes_total;
  indicator_exist = indicator;
  drives_failed = t.num_failed;
}

-- ClusterLogOp asks the drive of each connection, and updateSnapshot a range for the indicator: the
-- status and the keys.
module _ {W : Type 0} (send_log : ℕ → ℕ → W → Delivery (Option DriveLog) × W)
    (range : Bytes → Bytes → ℕ → W → (StatusCode × Option (List Bytes)) × W) (now : W → ℕ)
    (connections num_data num_parity block_size : ℕ) where
  -- The constructor of ClusterLogOp and its execute
  unfoldable pub get_logs : ℕ → ℕ → W → List (Callback (Option DriveLog)) × W
  unfolding expand execute_vector
  get_logs size offset w =
      let ops : List (Operation ℕ (Option DriveLog)) =
        map (λ c. record { request = c; callback = callback none })
          (expand connections offset 0 size) in
      let (ops', w') = execute_vector send_log 0 ops w in (map (λ o. o.callback) ops', w')

  -- The limits that the constructor takes from the log of a drive.
  unfoldable pub take_limits : DriveLog → Result ClusterLimits
  take_limits log =
      if ltb log.max_value_size block_size
      then throw invalid_argument
      else ok (record {
        max_range_elements = 100;
        max_key_size = log.max_key_size;
        max_version_size = log.max_version_size;
        max_value_size = size_mul block_size num_data;
      })

  unfoldable pub use_log : List (Callback (Option DriveLog)) → Option DriveLog
  use_log [] = none
  use_log (cb ∷ cbs) = if is_ok cb.status then cb.payload else none

  -- The loop of the constructor from drive `off` on, over the drives that are left; the limits stay
  -- as they were, `none`, where no drive answers, since the test for that stands inside the loop.
  unfoldable pub find_limits : ℕ → ℕ → W → Result (Option ClusterLimits) × W
  unfolding get_logs use_log take_limits
  find_limits off zero w = (ok none, w)
  find_limits off (suc left) w =
      let (cbs, w') = get_logs 1 off w in
      let rest = find_limits (off + 1) left w' in
      elim (use_log cbs) [
        | none ↦ rest
        | some log ↦ (elim (take_limits log) [ throw e ↦ throw e | ok l ↦ ok (some l) ], w')
      ]

  -- The limits and the first statistics of a new cluster, which has at least one connection; what
  -- the constructor does not set stays as the memory had it.
  unfoldable pub new_cluster : ClusterStats → W → Result (Option ClusterLimits × ClusterStats) × W
  unfolding find_limits
  new_cluster memory w =
      let (r, w') = find_limits 0 connections w in
      elim r [
        | throw e ↦ (throw e, w')
        | ok limits ↦ (
          ok (
            limits,
            record memory {
              drives_total = connections;
              redundancy_factor = num_parity;
              bytes_total = 1;
            },
          ),
          w',
        )
      ]

  -- updateSnapshot
  unfoldable pub update_snapshot : Bytes → ClusterStats → W → ClusterStats × W
  unfolding make_indicator_key get_logs count_drives store_snapshot
  update_snapshot id s w =
      let ((status, keys), w1) =
        range (make_indicator_key id) (make_indicator_key (id ++ (126 ∷ []))) 1 w in
      let indicator =
        if is_ok status then ltb 0 (length (elim keys [ none ↦ [] | some ks ↦ ks ])) else false in
      let (cbs, w2) = get_logs connections 0 w1 in
      (store_snapshot (count_drives cbs no_totals) indicator (now w2) s, w2)

  -- stats: the snapshot, whether an update is scheduled, and when the last one was.
  unfoldable pub stats : ClusterStats → ℕ → W → ClusterStats × Bool × ℕ
  stats s scheduled w =
      if ltb 2 ((now w - scheduled) / 1000) then (s, true, now w) else (s, false, scheduled)
