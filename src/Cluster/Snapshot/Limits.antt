-- ===== src/Cluster/Snapshot/Limits.antt =====
-- A cluster none of whose drives tells its limits (src/KineticCluster.cc: KineticCluster).
use kineticio.Prelude.{ℕ, zero, suc, ◌+◌, ◌%◌, ◌≡◌, refl, false, List, Option, none, ok}
use kineticio.Str.{Bytes}
use kineticio.Kinetic.{StatusCode, is_ok}
use kineticio.Operation.{callback, Delivery, deliver}
use kineticio.Cluster.Snapshot.{DriveLog, ClusterStats, get_logs, use_log, find_limits, new_cluster}

module _ {W : Type 0} (send_log : ℕ → ℕ → W → Delivery (Option DriveLog) × W)
    (range : Bytes → Bytes → ℕ → W → (StatusCode × Option (List Bytes)) × W) (now : W → ℕ)
    (connections num_data num_parity block_size : ℕ)
    (silent : (i c : ℕ) (w : W)
      → is_ok (deliver (send_log i c w).0 (callback none)).status ≡ false) where
  use_log-get_logs :
      (off : ℕ) (w : W)
      → use_log send_log range now connections num_data num_parity block_size
          (get_logs send_log range now connections num_data num_parity block_size 1 off w).0
        ≡ none
  unfolding use_log get_logs
  use_log-get_logs off w = rw (silent 0 ((0 + off) % connections) w) refl

  find_limits_silent :
      (off left : ℕ) (w : W)
      → (find_limits send_log range now connections num_data num_parity block_size off left w).0
        ≡ ok none
  unfolding find_limits
  find_limits_silent off zero w = refl
  find_limits_silent off (suc left) w =
      rw (use_log-get_logs off w, find_limits) (find_limits_silent (off + 1) left _)

  -- Where no drive answers a request for its limits with OK, the cluster is constructed all the same,
  -- its limits are never set, and it reports one byte of capacity.
  pub new_cluster_silent :
      (memory : ClusterStats) (w : W)
      → (new_cluster send_log range now connections num_data num_parity block_size memory w).0
        ≡ ok (
          none,
          record memory {
            drives_total = connections;
            redundancy_factor = num_parity;
            bytes_total = 1;
          },
        )
  unfolding new_cluster
  new_cluster_silent memory w = rw (new_cluster, find_limits_silent 0 connections w) refl
