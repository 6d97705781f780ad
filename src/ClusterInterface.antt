-- ===== src/ClusterInterface.antt =====
-- The calls of a cluster (include/ClusterInterface.hh) that its clients make, over a state `W` of
-- everything outside the client: the drives, the other clients and the clock.
use kineticio.Prelude.{ℕ, Option}
use kineticio.Str.{Bytes}
use kineticio.Kinetic.{StatusCode}

-- An argument that is passed by reference stands among the arguments and among the results.
pub record ClusterInterface (W : Type 0) : Type 0 where
  pub instance_id : Bytes
  pub max_value_size : ℕ
  -- get(key, version)
  pub get_version : Bytes → Option Bytes → W → StatusCode × Option Bytes × W
  -- get(key, version, value)
  pub get : Bytes → Option Bytes → Option Bytes → W → StatusCode × Option Bytes × Option Bytes × W
  -- put(key, version, value, version_out)
  pub put : Bytes → Option Bytes → Bytes → Option Bytes → W → StatusCode × Option Bytes × W
  -- std::chrono::system_clock::now(), in milliseconds since the epoch
  pub now : W → ℕ
