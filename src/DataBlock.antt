-- ===== src/DataBlock.antt =====
-- src/DataBlock.cc: one block of a file in memory, with the last value read from the cluster
-- (remote_value), a local copy with changes (local_value), and the list of changes (updates). A
-- null pointer is `none`. A call of a method is one step: the block's mutex is held throughout.
pub mod Changes
pub mod Content
pub mod Merge
pub mod Reading
pub mod Flushing
pub mod Faults
use kineticio.Prelude.{
  ℕ, zero, suc, ◌+◌, ◌-◌, min, max, Bool, true, false, not, ◌&&◌, ◌||◌, List, [], ◌∷◌, ◌++◌, Option,
  none, some, length, drop, replicate, ltb, bytes_eq, if◌then◌else◌, Result, ok, throw, io_error,
  invalid_argument, null_pointer,
}
use kineticio.Str.{Bytes, size_add, resize, substr, replace}
use kineticio.Kinetic.{is_ok, is_not_found}
use kineticio.ClusterInterface.{ClusterInterface}

pub data Mode : Type 0 where
  standard create : Mode

pub record DataBlock : Type 0 where
  pub mode : Mode
  pub key : Bytes
  pub version : Option Bytes
  pub remote_value : Option Bytes
  pub local_value : Option Bytes
  pub value_size : ℕ
  -- (offset, length) of the changes, oldest first; a length of 0 is a truncation
  pub updates : List (ℕ × ℕ)
  -- milliseconds since the epoch
  pub timestamp : ℕ

abbrev pub is_standard : Mode → Bool
is_standard standard = true
is_standard create = false

abbrev pub is_none {ℓ} : {A : Type ℓ} → Option A → Bool
is_none none = true
is_none (some a) = false

abbrev pub is_empty {ℓ} : {A : Type ℓ} → List A → Bool
is_empty [] = true
is_empty (x ∷ xs) = false

abbrev pub expiration_time : ℕ
expiration_time = 1000

-- `*version == *remote_version`, both not null
unfoldable pub same_version : Option Bytes → Option Bytes → Bool
same_version (some a) (some b) = bytes_eq a b
same_version _ _ = false

-- The loop of getRemoteValue over the updates: the merged value, or what is thrown, and value_size.
unfoldable pub replay : Option Bytes → List (ℕ × ℕ) → ℕ → Bytes → Result Bytes × ℕ
replay local [] size merged = (ok merged, size)
replay local ((offset, zero) ∷ us) size merged = replay local us offset merged
replay none ((offset, suc n) ∷ us) size merged = (throw null_pointer, max (offset + suc n) size)
replay (some v) ((offset, suc n) ∷ us) size merged =
    let new_size = max (offset + suc n) size in
    elim (substr offset (suc n) v) [
      | throw e ↦ (throw e, new_size)
      | ok piece ↦ elim (replace offset (suc n) piece merged) [
        | throw e ↦ (throw e, new_size)
        | ok m ↦ replay (some v) us new_size m
      ]
    ]

-- `remote_value ? remote_value->size() : 0`
unfoldable pub remote_size : Option Bytes → ℕ
remote_size none = 0
remote_size (some r) = length r

-- `v->copy(buffer, min(n, size - offset), offset)` over a buffer of the given contents
unfoldable pub copy_from : ℕ → Bytes → ℕ → ℕ → Bytes → Result Bytes
copy_from n buffer offset size v = elim (substr offset (min n (size - offset)) v) [
  | throw e ↦ throw e
  | ok piece ↦ ok (piece ++ drop (length piece) buffer)
]

-- dirty()
unfoldable pub dirty : DataBlock → Bool
dirty b = not (is_empty b.updates) || (is_none b.version && not (is_standard b.mode))

module _ {W : Type 0} (cluster : ClusterInterface W) where
  -- A method's result, the block and the world after it, also where it throws.
  abbrev pub Outcome : Type 0 → Type 0
  Outcome A = Result A × DataBlock × W

  -- capacity()
  abbrev pub capacity : ℕ
  capacity = cluster.max_value_size

  -- The constructor, with a cluster supplied.
  unfoldable pub init : Bytes → Mode → W → DataBlock
  init key mode w = record {
    mode = mode;
    key = key;
    version = none;
    remote_value = none;
    local_value = none;
    value_size = 0;
    updates = [];
    timestamp = if is_standard mode then 0 else cluster.now w;
  }

  -- reassign, to the given cluster. remote_value is not touched.
  unfoldable pub reassign : Bytes → Mode → DataBlock → DataBlock
  reassign key mode b = record b {
    key = key;
    mode = mode;
    value_size = 0;
    version = none;
    updates = [];
    timestamp = 0;
    local_value = elim b.local_value [ none ↦ none | some _ ↦ some (replicate capacity 48) ];
  }

  -- getIdentity()
  unfoldable pub get_identity : DataBlock → Bytes
  get_identity b = b.key ++ cluster.instance_id

  -- validateVersion()
  unfoldable pub validate_version : DataBlock → W → Bool × DataBlock × W
  validate_version b w =
      if ltb (cluster.now w - b.timestamp) expiration_time
      then (true, b, w)
      else if is_none b.version && is_standard b.mode
      then (false, b, w)
      else let (status, remote_version, w') = cluster.get_version b.key none w in
        if (is_none b.version && is_not_found status)
          || (is_ok status && same_version b.version remote_version)
        then (true, record b { timestamp = cluster.now w' }, w')
        else (false, b, w')

  -- The merge at the end of getRemoteValue, where there are updates and a remote value.
  unfoldable pub merge_updates : Bytes → DataBlock → Result (Unit {0}) × DataBlock
  unfolding replay
  merge_updates remote b =
      let start = if ltb (length remote) capacity then resize capacity 0 remote else remote in
      let (merged, size) = replay b.local_value b.updates b.value_size start in
      elim merged [
        | throw e ↦ (throw e, record b { value_size = size })
        | ok m ↦ (ok tt, record b { value_size = size; remote_value = none; local_value = some m })
      ]

  -- getRemoteValue after a status that is no error
  unfoldable pub accept_remote : Bool → DataBlock → W → Outcome (Unit {0})
  unfolding merge_updates remote_size
  accept_remote missing b w =
      let fetched = record b {
        version = if missing then none else b.version;
        value_size = if missing then b.value_size else remote_size b.remote_value;
        timestamp = cluster.now w;
      } in
      if is_empty b.updates
      then (ok tt, record fetched { local_value = none }, w)
      else elim b.remote_value [
        | none ↦ (ok tt, fetched, w)
        | some remote ↦ let (r, merged) = merge_updates remote fetched in (r, merged, w)
      ]

  -- getRemoteValue()
  unfoldable pub get_remote_value : DataBlock → W → Outcome (Unit {0})
  unfolding accept_remote
  get_remote_value b w =
      let (status, version, remote, w') = cluster.get b.key b.version b.remote_value w in
      let b' = record b { version = version; remote_value = remote } in
      if not (is_ok status) && not (is_not_found status)
      then (throw io_error, b', w')
      else accept_remote (is_not_found status) b' w'

  -- `if (!validateVersion()) getRemoteValue();`
  unfoldable pub refresh : DataBlock → W → Outcome (Unit {0})
  unfolding validate_version get_remote_value
  refresh b w =
      let (valid, b', w') = validate_version b w in
      if valid then (ok tt, b', w') else get_remote_value b' w'

  -- The copy at the end of read: the buffer of the given contents after it.
  unfoldable pub copy_out : Bytes → ℕ → DataBlock → Result Bytes
  unfolding copy_from
  copy_out buffer offset b =
      let n = length buffer in
      let cleared = if ltb b.value_size (size_add offset n) then replicate n 0 else buffer in
      if ltb offset b.value_size
      then elim b.local_value [
        | some v ↦ copy_from n cleared offset b.value_size v
        | none ↦ elim b.remote_value [
          | none ↦ throw null_pointer
          | some v ↦ copy_from n cleared offset b.value_size v
        ]
      ]
      else ok cleared

  -- read(buffer, offset, length): `none` is a null buffer, and length is the length of the buffer.
  unfoldable pub read : Option Bytes → ℕ → DataBlock → W → Outcome Bytes
  unfolding refresh copy_out
  read none offset b w = (throw invalid_argument, b, w)
  read (some buffer) offset b w =
      if ltb capacity (size_add offset (length buffer))
      then (throw invalid_argument, b, w)
      else let (fresh, b', w') = refresh b w in
        elim fresh [ throw e ↦ (throw e, b', w') | ok _ ↦ (copy_out buffer offset b', b', w') ]

  -- size()
  unfoldable pub size : DataBlock → W → Outcome ℕ
  unfolding refresh
  size b w =
      let (fresh, b', w') = refresh b w in
      elim fresh [ throw e ↦ (throw e, b', w') | ok _ ↦ (ok b'.value_size, b', w') ]
