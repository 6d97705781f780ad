-- ===== src/Cluster/Read.antt =====
-- The gets of a cluster: do_get of src/KineticCluster.cc and its callers.
use kineticio.Prelude.{
  ℕ, zero, suc, ◌+◌, Bool, true, false, not, ◌&&◌, Option, none, some, length, map, ltb,
  if◌then◌else◌, Result, ok, throw, Error,
}
use kineticio.Str.{Bytes}
use kineticio.Kinetic.{StatusCode, client_io_error, client_internal_error, is_ok, code_eq}
use kineticio.Quorum.{VersionCount, most_frequent_version}
use kineticio.Get.{Get, new_get, read_version, get_execute}
use kineticio.Handoff.{put_indicator_key}
use kineticio.Cluster.{KineticCluster, Outside, count_equal}

module _ {W : Type 0} (out : Outside W) (cluster : KineticCluster) where
  open cluster use {redundancy, operation_timeout, connections}

  -- The read of a key.
  unfoldable pub read_key : Bytes → Bool → W → (Result StatusCode × Get) × W
  unfolding new_get get_execute
  read_key key skip_value w =
      let send = out.send_read skip_value in
      get_execute send out.range_all out.ordinal out.crc redundancy key (out.hash key) connections
        skip_value
        (new_get send out.range_all out.ordinal out.crc redundancy key (out.hash key) connections
          skip_value false)
        w

  abbrev pub frequent : Get → VersionCount
  frequent g = most_frequent_version (map read_version g.operations)

  -- What the arguments version and value are in the end, with the status.
  abbrev pub Answer : Type 0
  Answer = StatusCode × Option Bytes × Option Bytes

  -- The end of do_get.
  unfoldable pub finish_get :
      Bytes → Option Bytes → Option Bytes → StatusCode → Get → W → Answer × W
  unfolding put_indicator_key
  finish_get key version value status g w =
      let (_, w') =
        put_indicator_key out.send_single out.crc (out.hash key) connections key
          (length g.operations) w in
      (
        if is_ok status then (status, g.version.version, g.value) else (status, version, value),
        if g.need_indicator then w' else w,
      )

  -- Whether the loop waits for a concurrent write.
  unfoldable pub may_be_mixed : StatusCode → Get → Bool
  may_be_mixed status g = code_eq status client_io_error && ltb 0 (frequent g).frequency

  -- What the loop that waits for another client comes to.
  pub data Waited : Type 0 where
    unchanged changed : W → Waited
    thrown : Error → W → Waited

  -- The loop of do_get; `none` if the fuel runs out.
  unfoldable pub await_change : ℕ → Bytes → Bool → VersionCount → ℕ → W → Option Waited
  await_change zero key skip_value before start w = none
  await_change (suc fuel) key skip_value before start w =
      let ((r, g), w') = read_key key skip_value (out.sleep 200 w) in
      let rest = await_change fuel key skip_value before start w' in
      elim r [
        | throw e ↦ some (thrown e w')
        | ok _ ↦
            if not (count_equal before (frequent g))
            then some (changed w')
            else if ltb (out.now w') (start + operation_timeout)
            then rest
            else some (unchanged w')
      ]

  -- do_get of a key that is not null, with at most `restarts` restarts and `rounds` rounds of the
  -- loop after each; `none` if either runs out
  unfoldable pub do_get :
      ℕ → ℕ → Bytes → Option Bytes → Option Bytes → Bool → W → Option (Result Answer × W)
  do_get zero rounds key version value skip_value w = none
  do_get (suc restarts) rounds key version value skip_value w =
      let ((r, g), w') = read_key key skip_value w in
      let again : W → Option (Result Answer × W) =
        do_get restarts rounds key version value skip_value in
      elim r [
        | throw e ↦ some (throw e, w')
        | ok status ↦
            if may_be_mixed status g
            then elim (await_change rounds key skip_value (frequent g) (out.now w') w') [
              | none ↦ none
              | some (thrown e w'') ↦ some (throw e, w'')
              | some (changed w'') ↦ again w''
              | some (unchanged w'') ↦
                  let (a, w3) = finish_get key version value status g w'' in some (ok a, w3)
            ]
            else let (a, w3) = finish_get key version value status g w' in some (ok a, w3)
      ]

  -- get(key, version, value), and get(key, version), which asks for no value
  unfoldable pub get :
      ℕ → ℕ → Option Bytes → Option Bytes → Option Bytes → W → Option (Result Answer × W)
  unfolding do_get
  get restarts rounds none version value w = some (ok (client_internal_error, version, value), w)
  get restarts rounds (some key) version value w = do_get restarts rounds key version value false w

  unfoldable pub get_version :
      ℕ → ℕ → Option Bytes → Option Bytes → W → Option (Result (StatusCode × Option Bytes) × W)
  unfolding do_get
  get_version restarts rounds none version w = some (ok (client_internal_error, version), w)
  get_version restarts rounds (some key) version w =
      elim (do_get restarts rounds key version none true w) [
        | none ↦ none
        | some (throw e, w') ↦ some (throw e, w')
        | some (ok (status, version', _), w') ↦ some (ok (status, version'), w')
      ]
