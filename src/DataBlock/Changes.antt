-- ===== src/DataBlock/Changes.antt =====
-- The changes of a block and their flush to the cluster (src/DataBlock.cc: write, truncate, flush).
use kineticio.Prelude.{
  ℕ, zero, suc, max, Bool, true, false, ◌&&◌, ◌||◌, [], ◌∷◌, ◌++◌, Option, none, some, length,
  replicate, ltb, ◌==◌, if◌then◌else◌, Result, ok, throw, io_error, invalid_argument, null_pointer,
}
use kineticio.Str.{Bytes, size_add, resize, replace}
use kineticio.Kinetic.{StatusCode, is_ok, is_mismatch}
use kineticio.ClusterInterface.{ClusterInterface}
use kineticio.DataBlock.{DataBlock, is_none, is_standard, Outcome, get_remote_value, capacity}

module _ {W : Type 0} (cluster : ClusterInterface W) where
  -- The local copy that write works on: made from the remote value, which is then forgotten.
  unfoldable pub make_local : DataBlock → DataBlock
  make_local b = elim b.local_value [
    | some _ ↦ b
    | none ↦ elim b.remote_value [
      | none ↦ record b { local_value = some (replicate (capacity cluster) 48) }
      | some r ↦ record b { local_value = some r; remote_value = none }
    ]
  ]

  -- The rest of write, on the local copy.
  unfoldable pub store : Bytes → ℕ → DataBlock → Bytes → Result (Unit {0}) × DataBlock
  store buffer offset b v =
      let grown = if ltb (length v) b.value_size then resize (capacity cluster) 0 v else v in
      elim (replace offset (length buffer) buffer grown) [
        | throw e ↦ (throw e, record b { local_value = some grown })
        | ok v' ↦ (
          ok tt,
          record b { local_value = some v'; updates = b.updates ++ (offset, length buffer) ∷ [] },
        )
      ]

  unfoldable pub store_local : Bytes → ℕ → DataBlock → Result (Unit {0}) × DataBlock
  unfolding store
  store_local buffer offset b = elim b.local_value [
    | none ↦ (throw null_pointer, b)
    | some v ↦ store buffer offset b v
  ]

  -- write(buffer, offset, length): as for read.
  unfoldable pub write : Option Bytes → ℕ → DataBlock → Result (Unit {0}) × DataBlock
  unfolding make_local store_local
  write none offset b = (throw invalid_argument, b)
  write (some buffer) offset b =
      let end = size_add offset (length buffer) in
      if ltb (capacity cluster) end
      then (throw invalid_argument, b)
      else store_local buffer offset (make_local (record b { value_size = max end b.value_size }))

  -- truncate(offset)
  unfoldable pub truncate : ℕ → DataBlock → Result (Unit {0}) × DataBlock
  truncate offset b =
      if ltb (capacity cluster) offset
      then (throw invalid_argument, b)
      else (ok tt, record b { value_size = offset; updates = b.updates ++ (offset, 0) ∷ [] })

  -- The value that flush puts, and the block with that value in place.
  unfoldable pub prepare : DataBlock → Bytes × DataBlock
  prepare b = elim b.local_value [
    | some v ↦
        let v' = if b.value_size == length v then v else resize b.value_size 0 v in
        (v', record b { local_value = some v' })
    | none ↦ elim b.remote_value [
      | some r ↦ (r, b)
      | none ↦ ([], record b { remote_value = some [] })
    ]
  ]

  -- The put of one round of flush's loop.
  unfoldable pub put_block : DataBlock → W → StatusCode × DataBlock × W
  put_block b w =
      let (value, b') = prepare b in
      let (status, version, w') = cluster.put b'.key b'.version value b'.version w in
      (status, record b' { version = version }, w')

  -- The put, unless getRemoteValue threw.
  unfoldable pub put_after : Outcome cluster (Unit {0}) → Outcome cluster StatusCode
  put_after (throw e, b, w) = (throw e, b, w)
  put_after (ok _, b, w) = let (status, b', w') = put_block b w in (ok status, b', w')

  -- One round: getRemoteValue if the last status was a mismatch, or on a first use, then the put.
  unfoldable pub flush_round : Bool → DataBlock → W → Outcome cluster StatusCode
  flush_round mismatch b w = put_after (
      if mismatch || (is_none b.version && is_standard b.mode)
      then get_remote_value cluster b w
      else (ok tt, b, w))

  -- The loop, and what follows it; `none` if the fuel runs out.
  unfoldable pub flush_loop : ℕ → Bool → DataBlock → W → Option (Outcome cluster (Unit {0}))
  flush_loop zero mismatch b w = none
  flush_loop (suc fuel) mismatch b w =
      let (result, b', w') = flush_round mismatch b w in
      elim result [
        | throw e ↦ some (throw e, b', w')
        | ok status ↦
            let again = flush_loop fuel true b' w' in
            if is_mismatch status
            then again
            else if is_ok status
            then some (ok tt, record b' { updates = []; timestamp = cluster.now w' }, w')
            else some (throw io_error, b', w')
      ]

  -- flush()
  abbrev pub flush : ℕ → DataBlock → W → Option (Outcome cluster (Unit {0}))
  flush fuel b w = flush_loop fuel false b w
