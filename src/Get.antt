-- ===== src/Get.antt =====
-- StripeOperation_GET of src/KineticClusterStripeOperation.cc: a stripe is read in up to three
-- attempts, from the data chunks, with the parities, and with the chunks that a write handed to
-- other drives. The answer to a request for a version is a record without a value. An answer OK
-- carries a record, and the number in the key of a handoff chunk is one of the operations'; the code
-- relies on both.
pub mod Rebuilt
pub mod Served
pub mod Recovered
pub mod Whole
use kineticio.Prelude.{
  ℕ, zero, suc, ◌+◌, Bool, true, false, not, ◌&&◌, ◌||◌, List, [], ◌∷◌, ◌++◌, map, Option, none,
  some, length, set, get_elem?, ltb, leb, ◌==◌, if◌then◌else◌, Result, ok, throw, Error,
  null_pointer, runtime_error,
}
use kineticio.Str.{Bytes}
use kineticio.Kinetic.{StatusCode, status_ok, client_io_error, is_ok, valid_status_code}
use kineticio.Keys.Numbers.{uuid_decode_size, text_to_int, after_last}
use kineticio.Placement.{expand_stripe}
use kineticio.Quorum.{ResultMap, lookup, count_results, VersionCount, most_frequent_version}
use kineticio.Redundancy.{RedundancyProvider}
use kineticio.Stripe.{KineticRecord, collect, reconstruct_value}
use kineticio.Operation.{Callback, callback, Operation, Delivery, execute_vector, statuses}

-- What a read asks: the index of a connection, and the key.
pub record ReadRequest : Type 0 where
  pub connection : ℕ
  pub key : Bytes

abbrev pub Reads : Type 0
Reads = List (Operation ReadRequest (Option KineticRecord))

-- The members of the operation that change.
pub record Get : Type 0 where
  pub operations : Reads
  pub version : VersionCount
  pub value : Option Bytes
  pub need_indicator : Bool

-- fillOperation
abbrev pub fill_read : ℕ → Bytes → Operation ReadRequest (Option KineticRecord)
fill_read connection key = record {
  request = record { connection = connection; key = key };
  callback = callback none;
}

-- The version that mostFrequentVersion compares.
unfoldable pub read_version : Operation ReadRequest (Option KineticRecord) → Option Bytes
read_version op =
    if is_ok op.callback.status
    then elim op.callback.payload [ none ↦ none | some r ↦ some r.version ]
    else none

abbrev pub records : Reads → List (Option KineticRecord)
records ops = map (λ op. op.callback.payload) ops

-- `rmap[OK] = n`, where OK was counted
unfoldable pub limit_ok : ℕ → ResultMap → ResultMap
limit_ok n [] = []
limit_ok n ((c, k) ∷ m) = let rest = limit_ok n m in if is_ok c then (c, n) ∷ m else (c, k) ∷ rest

abbrev pub store_value : Get → Result Bytes → Result (Unit {0}) × Get
store_value g (throw e) = (throw e, g)
store_value g (ok value) = (ok tt, record g { value = some value })

-- A code that was given often enough is returned if it is valid, after the value was made.
abbrev pub accept :
    StatusCode → (Get → Result StatusCode × Get) → Result (Unit {0}) × Get → Result StatusCode × Get
accept c rest (throw e, g) = (throw e, g)
accept c rest (ok _, g) = if valid_status_code c then (ok c, g) else rest g

-- The exceptions that are std::exceptions.
abbrev pub is_exception : Error → Bool
is_exception null_pointer = false
is_exception _ = true

abbrev pub equals : ℕ
equals = 61

-- "handoff=" and "version=" around the key
unfoldable pub handoff_key : Bytes → Bytes → Bytes
handoff_key key version =
    (104 ∷ 97 ∷ 110 ∷ 100 ∷ 111 ∷ 102 ∷ 102 ∷ 61 ∷ [])
    ++ (key ++ ((118 ∷ 101 ∷ 114 ∷ 115 ∷ 105 ∷ 111 ∷ 110 ∷ 61 ∷ []) ++ version))

-- A request for a range at every connection: what each returned, or null.
module _ {W : Type 0} (send : ℕ → ReadRequest → W → Delivery (Option KineticRecord) × W)
    (range_all : Bytes → Bytes → ℕ → W → List (Option (List Bytes)) × W) (ordinal : StatusCode → ℕ)
    (crc : Bytes → ℕ) (rp : RedundancyProvider) (key : Bytes) (hash connections : ℕ)
    (skip_value : Bool) where
  -- expandOperationVector and fillOperationVector
  unfoldable pub add_reads : ℕ → ℕ → Reads → Reads
  unfolding expand_stripe
  add_reads size offset ops =
      ops ++ map (λ c. fill_read c key) (expand_stripe connections hash size offset)

  -- The constructor
  unfoldable pub new_get : Bool → Get
  unfolding add_reads
  new_get skip_partial_get = record {
    operations =
        add_reads (if skip_partial_get then rp.num_data + rp.num_parity else rp.num_data) 0 [];
    version = record { version = none; frequency = 0 };
    value = none;
    need_indicator = false;
  }

  -- reconstructValue with the size that the version tells; the value is empty until it is complete.
  unfoldable pub rebuild_sized : Bytes → ℕ → Get → Result (Unit {0}) × Get
  unfolding collect reconstruct_value
  rebuild_sized version size g =
      let c = collect crc rp.num_data version 0 (records g.operations) in
      store_value (record g { need_indicator = g.need_indicator || c.need_indicator })
        (reconstruct_value crc rp version size (records g.operations))

  unfoldable pub rebuild_as : Bytes → Result ℕ → Get → Result (Unit {0}) × Get
  unfolding rebuild_sized
  rebuild_as version (throw e) g = (throw e, g)
  rebuild_as version (ok size) g = if size == 0 then (ok tt, g) else rebuild_sized version size g

  -- reconstructValue
  unfoldable pub rebuild : Get → Result (Unit {0}) × Get
  unfolding rebuild_as uuid_decode_size
  rebuild g =
      rebuild_as (elim g.version.version [ none ↦ [] | some v ↦ v ])
        (uuid_decode_size g.version.version) (record g { value = some [] })

  -- The loop over the results at the end of do_execute.
  unfoldable pub serve : ResultMap → Get → Result StatusCode × Get
  unfolding rebuild
  serve [] g = (throw runtime_error, g)
  serve ((c, n) ∷ m) g =
      let rest = serve m in
      if leb rp.num_data n
      then (if is_ok c && not skip_value
          then accept c rest (rebuild g)
          else (if valid_status_code c then (ok c, g) else rest g))
      else rest g

  -- do_execute
  unfoldable pub do_execute : Get → W → (Result StatusCode × Get) × W
  unfolding execute_vector read_version limit_ok serve
  do_execute g w =
      let (ops, w') = execute_vector send 0 g.operations w in
      let m = count_results ordinal (statuses ops) [] in
      let version = most_frequent_version (map read_version ops) in
      let mixed = ltb version.frequency (lookup ordinal status_ok m) in
      let g' = record g {
        operations = ops;
        version = version;
        need_indicator = g.need_indicator || mixed;
      } in
      (serve (if mixed then limit_ok version.frequency m else m) g', w')

  -- The second attempt also has the parities.
  unfoldable pub with_parities : Get → Get
  unfolding add_reads
  with_parities g =
      if length g.operations == rp.num_data
      then record g { operations = add_reads rp.num_parity (length g.operations) g.operations }
      else g

  -- insertHandoffChunks, for the keys that one connection returned
  unfoldable pub insert_keys : ℕ → List Bytes → Reads → Reads
  unfolding text_to_int after_last
  insert_keys connection [] ops = ops
  insert_keys connection (k ∷ ks) ops =
      insert_keys connection ks
        (set ops (text_to_int (after_last equals k k)) (fill_read connection k))

  -- the loop over the connections, and whether there was a key
  unfoldable pub insert_all : ℕ → List (Option (List Bytes)) → Reads → Bool × Reads
  unfolding insert_keys
  insert_all i [] ops = (false, ops)
  insert_all i (none ∷ found) ops = insert_all (i + 1) found ops
  insert_all i (some [] ∷ found) ops = insert_all (i + 1) found ops
  insert_all i (some (k ∷ ks) ∷ found) ops =
      let (_, ops') = insert_all (i + 1) found (insert_keys i (k ∷ ks) ops) in (true, ops')

  unfoldable pub insert_handoff_chunks : Get → W → (Bool × Get) × W
  unfolding insert_all handoff_key
  insert_handoff_chunks g w = elim g.version.version [
    | none ↦ ((false, g), w)
    | some v ↦
        let (found, w') = range_all (handoff_key key v) (handoff_key key v ++ (126 ∷ [])) 100 w in
        let (inserted, ops) = insert_all 0 found g.operations in
        ((inserted, record g { operations = ops }), w')
  ]

  -- The end of execute, where every attempt failed.
  abbrev give_up : Get → W → (Result StatusCode × Get) × W
  give_up g w = ((ok client_io_error, g), w)

  -- An attempt of execute, and what follows where it throws an exception.
  unfoldable pub attempt :
      (Get → W → (Result StatusCode × Get) × W) → Get → W → (Result StatusCode × Get) × W
  unfolding do_execute
  attempt next g w =
      let ((r, g'), w') = do_execute g w in
      elim r [
        | ok c ↦ ((ok c, g'), w')
        | throw e ↦ if is_exception e then next g' w' else ((throw e, g'), w')
      ]

  -- The third attempt.
  unfoldable pub with_handoffs : Get → W → (Result StatusCode × Get) × W
  unfolding insert_handoff_chunks attempt
  with_handoffs g w =
      let ((inserted, g'), w') = insert_handoff_chunks g w in
      if inserted then attempt give_up g' w' else give_up g' w'

  -- The second attempt.
  unfoldable pub second_attempt : Get → W → (Result StatusCode × Get) × W
  unfolding attempt with_parities with_handoffs
  second_attempt g w = attempt with_handoffs (with_parities g) w

  -- execute
  unfoldable pub get_execute : Get → W → (Result StatusCode × Get) × W
  unfolding attempt second_attempt
  get_execute g w = attempt second_attempt g w
