-- ===== src/Cluster.antt =====
-- The operations of a cluster on keys: do_put and do_remove of src/KineticCluster.cc with the methods
-- that call them. An argument that is passed by reference stands among the arguments and
-- among the results; a null pointer is `none`.
pub mod Read
pub mod Reported
pub mod Answered
pub mod Snapshot
use kineticio.Prelude.{
  ℕ, zero, suc, ◌+◌, Bool, true, false, not, ◌&&◌, List, [], ◌∷◌, Option, none, some, length, map,
  replicate, ltb, ◌==◌, if◌then◌else◌, Result, ok, throw, Error, invalid_argument,
}
use kineticio.Str.{Bytes}
use kineticio.Kinetic.{StatusCode, client_io_error, client_internal_error, is_ok, code_eq}
use kineticio.Keys.Numbers.{uuid_encode_size}
use kineticio.Quorum.{VersionCount, most_frequent_version, version_equal}
use kineticio.Redundancy.{RedundancyProvider, size}
use kineticio.Stripe.{KineticRecord, value_to_stripe}
use kineticio.Operation.{
  WriteMode, ignore_version, require_same_version, Writes, Drives, Delivery, fill_operation,
  statuses,
}
use kineticio.Operation.Execute.{put_execute, del_execute}
use kineticio.Get.{ReadRequest, Get, new_get, read_version, get_execute}
use kineticio.Handoff.{SinglePut, put_indicator_key, put_handoff_keys}

-- The fields of a KineticCluster that its operations read. The timeout is in milliseconds.
pub record KineticCluster : Type 0 where
  pub redundancy : RedundancyProvider
  pub chunk_capacity : ℕ
  pub operation_timeout : ℕ
  pub connections : ℕ

-- The drives, as the operations on a key use them, and what else lies outside: the clock, new uuids,
-- the checksum, the hash of a key and the order of the status codes.
pub record Outside (W : Type 0) : Type 0 where
  -- the writes of a stripe under a new version, and the removal of a key
  pub put_drives : Bytes → Bytes → List Bytes → Drives W
  pub del_drives : Bytes → Drives W
  pub send_single : ℕ → SinglePut → W → Delivery (Unit {0}) × W
  -- the reads, of the version only or of the record
  pub send_read : Bool → ℕ → ReadRequest → W → Delivery (Option KineticRecord) × W
  pub range_all : Bytes → Bytes → ℕ → W → List (Option (List Bytes)) × W
  pub uuid : W → Bytes × W
  pub now : W → ℕ
  pub sleep : ℕ → W → W
  pub crc : Bytes → ℕ
  pub hash : Bytes → ℕ
  pub ordinal : StatusCode → ℕ

-- `==` of two VersionCounts
unfoldable pub count_equal : VersionCount → VersionCount → Bool
unfolding version_equal
count_equal a b =
    if not (a.frequency == b.frequency)
    then false
    else if a.frequency == 0
    then true
    else version_equal a.version b.version

module _ {W : Type 0} (out : Outside W) (cluster : KineticCluster) where
  open cluster use {redundancy, chunk_capacity, operation_timeout, connections}

  -- What follows the execution of a put: the indicator and the handoffs, and the new version.
  unfoldable pub after_put :
      Bytes
      → Bytes
      → List Bytes
      → Option Bytes
      → Result (StatusCode × Bool) × Writes × W
      → Result (StatusCode × Option Bytes) × W
  unfolding put_indicator_key put_handoff_keys
  after_put key version_new stripe version_out (throw e, ops, w) = (throw e, w)
  after_put key version_new stripe version_out (ok (status, indicator), ops, w) =
      let (size1, w1) =
        put_indicator_key out.send_single out.crc (out.hash key) connections key (length ops) w in
      let (size2, w2) =
        put_handoff_keys out.send_single out.crc (out.hash key) connections key version_new 0
          (statuses ops) stripe size1 w1 in
      (
        ok (status, if is_ok status then some version_new else version_out),
        if indicator then w2 else w,
      )

  -- The operation of a put, whose constructor checks the number of chunks.
  unfoldable pub put_stripe :
      ℕ
      → Bytes
      → Bytes
      → Bytes
      → List Bytes
      → Option Bytes
      → WriteMode
      → W
      → Option (Result (StatusCode × Option Bytes) × W)
  unfolding put_execute after_put
  put_stripe fuel key version version_new stripe version_out mode w =
      if length stripe == size redundancy
      then elim (put_execute (out.put_drives key version_new stripe) out.ordinal redundancy.num_data
          redundancy.num_parity operation_timeout fuel version_new
          (replicate (length stripe) (fill_operation version mode)) w) [
            | none ↦ none
            | some r ↦ some (after_put key version_new stripe version_out r)
          ]
      else some (throw invalid_argument, w)

  -- do_put of a key and a value that are not null; `none` if the fuel runs out
  unfoldable pub do_put :
      ℕ
      → Bytes
      → Bytes
      → Bytes
      → Option Bytes
      → WriteMode
      → W
      → Option (Result (StatusCode × Option Bytes) × W)
  unfolding value_to_stripe uuid_encode_size put_stripe
  do_put fuel key version value version_out mode w =
      elim (value_to_stripe redundancy chunk_capacity value) [
        | throw e ↦ some (ok (client_internal_error, version_out), w)
        | ok stripe ↦
            let (text, w') = out.uuid w in
            put_stripe fuel key version (uuid_encode_size (length value) text) stripe version_out
              mode w'
      ]

  -- do_put
  unfoldable pub do_put_checked :
      ℕ
      → Option Bytes
      → Option Bytes
      → Option Bytes
      → Option Bytes
      → WriteMode
      → W
      → Option (Result (StatusCode × Option Bytes) × W)
  unfolding do_put
  do_put_checked fuel (some key) (some version) (some value) version_out mode w =
      do_put fuel key version value version_out mode w
  do_put_checked fuel _ _ _ version_out mode w = some (ok (client_internal_error, version_out), w)

  -- put(key, value, version_out)
  unfoldable pub put_forced :
      ℕ
      → Option Bytes
      → Option Bytes
      → Option Bytes
      → W
      → Option (Result (StatusCode × Option Bytes) × W)
  unfolding do_put_checked
  put_forced fuel key value version_out w =
      do_put_checked fuel key (some []) value version_out ignore_version w

  -- put(key, version, value, version_out)
  unfoldable pub put :
      ℕ
      → Option Bytes
      → Option Bytes
      → Option Bytes
      → Option Bytes
      → W
      → Option (Result (StatusCode × Option Bytes) × W)
  unfolding do_put_checked
  put fuel key version value version_out w =
      do_put_checked fuel key (elim version [ none ↦ some [] | some v ↦ some v ]) value version_out
        require_same_version w

  unfoldable pub after_remove :
      Bytes → Result (StatusCode × Bool) × Writes × W → Result StatusCode × W
  unfolding put_indicator_key
  after_remove key (throw e, ops, w) = (throw e, w)
  after_remove key (ok (status, indicator), ops, w) =
      let (_, w') =
        put_indicator_key out.send_single out.crc (out.hash key) connections key (length ops) w in
      (ok status, if indicator then w' else w)

  -- do_remove
  unfoldable pub do_remove :
      ℕ → Option Bytes → Option Bytes → WriteMode → W → Option (Result StatusCode × W)
  unfolding del_execute after_remove
  do_remove fuel (some key) (some version) mode w =
      elim (del_execute (out.del_drives key) out.ordinal redundancy.num_data redundancy.num_parity
        operation_timeout fuel (replicate (size redundancy) (fill_operation version mode)) w) [
          | none ↦ none
          | some r ↦ some (after_remove key r)
        ]
  do_remove fuel _ _ mode w = some (ok client_internal_error, w)

  -- remove(key) and remove(key, version)
  unfoldable pub remove_forced : ℕ → Option Bytes → W → Option (Result StatusCode × W)
  unfolding do_remove
  remove_forced fuel key w = do_remove fuel key (some []) ignore_version w

  unfoldable pub remove : ℕ → Option Bytes → Option Bytes → W → Option (Result StatusCode × W)
  unfolding do_remove
  remove fuel key version w = do_remove fuel key version require_same_version w
