-- ===== src/Operation.antt =====
-- The operations on the drives of a stripe: src/KineticCallbacks.cc (KineticCallback),
-- src/KineticClusterOperation.cc (executeOperationVector) and the writing operations of
-- src/KineticClusterStripeOperation.cc (WriteStripeOperation; execute is in the child Execute). The drives' answers are taken in the order of the operations. An entry of
-- the results map that only a lookup made, with count 0, is left out: it reaches no quorum of one
-- chunk or more.
pub mod Execute
pub mod Clock
pub mod Evaluation
pub mod Outstanding
pub mod Unanswered
use kineticio.Prelude.{
  ℕ, zero, suc, ◌+◌, ◌*◌, Bool, true, false, List, [], ◌∷◌, map, Option, none, some, length,
  replicate, ltb, ◌==◌, ◌&&◌, ◌||◌, bytes_eq, if◌then◌else◌, Result, ok, throw, null_pointer,
}
use kineticio.Str.{Bytes}
use kineticio.Kinetic.{
  StatusCode, status_ok, client_io_error, client_internal_error, remote_not_found,
  remote_version_mismatch, is_ok, is_not_found, is_mismatch,
}
use kineticio.Quorum.{
  rank, ResultMap, lookup, count_results, find_quorum, VersionCount, most_frequent_version,
}

pub data WriteMode : Type 0 where
  ignore_version require_same_version : WriteMode

-- KineticCallback, with what the answer carries.
pub record Callback (A : Type 0) : Type 0 where
  pub done : Bool
  pub status : StatusCode
  pub payload : A

-- The constructor.
abbrev pub callback : {A : Type 0} → A → Callback A
callback a = record { done = false; status = client_internal_error; payload = a }

-- OnResult
abbrev pub on_result : {A : Type 0} → StatusCode → Callback A → Callback A
on_result result cb = if cb.done then cb else record cb { done = true; status = result }

-- KineticAsyncOperation: what is asked of the connection, and the callback.
pub record Operation (R A : Type 0) : Type 0 where
  pub request : R
  pub callback : Callback A

-- What becomes of a request until the timeout: there is no connection, the connection fails to run,
-- no answer arrives, or a status and a payload arrive.
pub data Delivery (A : Type 0) : Type 0 where
  unavailable not_run timed_out : Delivery A
  answered : StatusCode → A → Delivery A

unfoldable pub deliver : {A : Type 0} → Delivery A → Callback A → Callback A
deliver unavailable cb = on_result client_io_error cb
deliver not_run cb = on_result client_io_error cb
deliver timed_out cb = on_result client_io_error cb
deliver (answered status a) cb = on_result status (record cb { payload = a })

module _ {W R A : Type 0} (send : ℕ → R → W → Delivery A × W) where
  -- One operation: it is skipped if it is already finished.
  unfoldable pub execute_one : ℕ → Operation R A → W → Operation R A × W
  execute_one i op w =
      if op.callback.done
      then (op, w)
      else let (d, w') = send i op.request w in (record op { callback = deliver d op.callback }, w')

  -- executeOperationVector from operation `i` on
  unfoldable pub execute_vector : ℕ → List (Operation R A) → W → List (Operation R A) × W
  unfolding execute_one
  execute_vector i [] w = ([], w)
  execute_vector i (op ∷ ops) w =
      let (op', w') = execute_one i op w in
      let (ops', w'') = execute_vector (suc i) ops w' in (op' ∷ ops', w'')

abbrev pub status_of : {R A : Type 0} → Operation R A → StatusCode
status_of op = op.callback.status

abbrev pub statuses : {R A : Type 0} → List (Operation R A) → List StatusCode
statuses ops = map status_of ops

-- What a write asks: the version that the drive must hold, and the mode. The key and the record are
-- those of the operation's chunk.
pub record WriteRequest : Type 0 where
  pub drive_version : Bytes
  pub mode : WriteMode

abbrev pub Writes : Type 0
Writes = List (Operation WriteRequest (Unit {0}))

-- fillOperation
abbrev pub fill_operation : Bytes → WriteMode → Operation WriteRequest (Unit {0})
fill_operation version mode = record {
  request = record { drive_version = version; mode = mode };
  callback = callback tt;
}

-- getVersionAt of an operation that reads versions: empty for a missing key, null for an error.
unfoldable pub version_at : Callback Bytes → Option Bytes
version_at cb =
    if is_not_found cb.status then some [] else if is_ok cb.status then some cb.payload else none

-- The version that mostFrequentVersion compares.
unfoldable pub counted_version : Callback Bytes → Option Bytes
counted_version cb = if is_ok cb.status then some cb.payload else none

-- The operations that attemptStripeRepair fills again: those with a version mismatch, where the
-- version on the drive is known.
unfoldable pub refill : Writes → List (Option Bytes) → Writes
refill [] vs = []
refill (op ∷ ops) [] = op ∷ ops
refill (op ∷ ops) (none ∷ vs) = op ∷ refill ops vs
refill (op ∷ ops) (some v ∷ vs) =
    (if is_mismatch (status_of op) then fill_operation v require_same_version else op)
    ∷ refill ops vs

-- The first position that holds the version.
unfoldable pub find_position : Bytes → List (Option Bytes) → Option ℕ
find_position version [] = none
find_position version (v ∷ vs) =
    let rest = find_position version vs in
    if (elim v [ none ↦ bytes_eq version [] | some x ↦ bytes_eq version x ])
    then some 0
    else elim rest [ none ↦ none | some p ↦ some (suc p) ]

-- The drives and the clock, in milliseconds: a write of operation `i`, a read of its version.
pub record Drives (W : Type 0) : Type 0 where
  pub send_write : ℕ → WriteRequest → W → Delivery (Unit {0}) × W
  pub send_version : ℕ → Unit {0} → W → Delivery Bytes × W
  pub now : W → ℕ
  pub sleep : ℕ → W → W

-- What a round of resolvePartialWrite comes to.
pub data Round (W : Type 0) : Type 0 where
  finished : Result (Unit {0}) → Writes → W → Round W
  again : Writes → W → Round W

module _ {W : Type 0} (drives : Drives W) (ordinal : StatusCode → ℕ)
    (num_data num_parity timeout : ℕ) where
  abbrev pub stripe_size : ℕ
  stripe_size = num_data + num_parity

  -- A new operation that reads the versions of all chunks,
  abbrev pub fresh_reads : List (Operation (Unit {0}) Bytes)
  fresh_reads = replicate stripe_size (record { request = tt; callback = callback [] })

  -- and its execution.
  unfoldable pub get_versions : W → List (Callback Bytes) × W
  unfolding execute_vector
  get_versions w =
      let (ops, w') = execute_vector drives.send_version 0 fresh_reads w in
      (map (λ op. op.callback) ops, w')

  abbrev pub results : List StatusCode → ResultMap
  results codes = count_results ordinal codes []

  -- The most frequent version, where a missing key counts as the empty version.
  unfoldable pub stripe_version : List (Callback Bytes) → VersionCount
  unfolding counted_version
  stripe_version answers =
      let found = most_frequent_version (map counted_version answers) in
      let missing = lookup ordinal remote_not_found (results (map (λ cb. cb.status) answers)) in
      if ltb found.frequency missing
      then record { version = some []; frequency = missing }
      else found

  -- attemptStripeRepair
  unfoldable pub attempt_repair : Writes → List (Option Bytes) → W → Bool × Writes × W
  unfolding refill execute_vector
  attempt_repair ops vs w =
      let (ops', w') = execute_vector drives.send_write 0 (refill ops vs) w in
      (lookup ordinal remote_version_mismatch (results (statuses ops')) == 0, ops', w')

  -- The repair of step 1, where the version is the most frequent one.
  unfoldable pub repair_turn : Bytes → Bytes → Writes → List (Option Bytes) → W → Bool × Writes × W
  unfolding attempt_repair
  repair_turn version frequent ops vs w =
      if bytes_eq version frequent then attempt_repair ops vs w else (false, ops, w)

  -- What follows the loop: the version is written over the others.
  unfoldable pub overwrite_stripe : Writes → W → Writes × W
  unfolding get_versions attempt_repair version_at
  overwrite_stripe ops w =
      let (answers, w') = get_versions w in
      let (_, ops', w'') = attempt_repair ops (map version_at answers) w' in (ops', w'')

  -- The end of a round: the wait for another client, or the version overwrites the stripe.
  unfoldable pub resolve_wait : ℕ → Bytes → List (Option Bytes) → Writes → W → Round W
  unfolding find_position overwrite_stripe
  resolve_wait start version vs ops w = elim (find_position version vs) [
    | none ↦ finished (ok tt) ops w
    | some position ↦
        let slept = drives.sleep 100 w in
        if ltb (drives.now slept) (start + timeout * (position + 1))
        then again ops slept
        else let (ops', w') = overwrite_stripe ops slept in finished (ok tt) ops' w'
  ]

  -- The round, once a most frequent version is found.
  unfoldable pub resolve_turn : ℕ → Bytes → Bytes → List (Option Bytes) → Writes → W → Round W
  unfolding repair_turn resolve_wait
  resolve_turn start version frequent vs ops w =
      let (repaired, ops', w') = repair_turn version frequent ops vs w in
      if repaired then finished (ok tt) ops' w' else resolve_wait start version vs ops' w'

  -- A round of the loop of resolvePartialWrite.
  unfoldable pub resolve_round : ℕ → Bytes → Writes → W → Round W
  unfolding get_versions stripe_version version_at resolve_turn
  resolve_round start version ops w =
      let (answers, w') = get_versions w in
      elim (stripe_version answers).version [
        | none ↦ finished (throw null_pointer) ops w'
        | some frequent ↦ resolve_turn start version frequent (map version_at answers) ops w'
      ]

  -- The loop; `none` if the fuel runs out.
  unfoldable pub resolve_loop : ℕ → ℕ → Bytes → Writes → W → Option (Result (Unit {0}) × Writes × W)
  unfolding resolve_round
  resolve_loop zero start version ops w = none
  resolve_loop (suc fuel) start version ops w = elim (resolve_round start version ops w) [
    | finished r ops' w' ↦ some (r, ops', w')
    | again ops' w' ↦ resolve_loop fuel start version ops' w'
  ]

  -- resolvePartialWrite
  unfoldable pub resolve_partial_write :
      ℕ → Bytes → Writes → W → Option (Result (Unit {0}) × Writes × W)
  unfolding resolve_loop
  resolve_partial_write fuel version ops w = resolve_loop fuel (drives.now w) version ops w
