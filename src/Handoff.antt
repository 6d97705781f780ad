-- ===== src/Handoff.antt =====
-- Keys that stand on a single drive: createSingleKey, putIndicatorKey and putHandoffKeys of
-- src/KineticClusterStripeOperation.cc. A drive is the index of its connection.
pub mod Numbered
use kineticio.Prelude.{
  ℕ, zero, suc, ◌+◌, ◌-◌, Bool, true, false, List, [], ◌∷◌, ◌++◌, Option, none, some, length,
  if◌then◌else◌, ◌||◌, get_elem?,
}
use kineticio.Str.{Bytes}
use kineticio.Kinetic.{StatusCode, is_ok, is_mismatch, valid_status_code}
use kineticio.Keys.{make_indicator_key}
use kineticio.Keys.Numbers.{digits, count_digits}
use kineticio.Placement.{expand_stripe}
use kineticio.Stripe.{KineticRecord, make_record}
use kineticio.Operation.{Operation, Delivery, callback, execute_one}
use kineticio.Get.{handoff_key}

-- What a drive is asked to store, where it does not have the key yet.
pub record SinglePut : Type 0 where
  pub connection : ℕ
  pub key : Bytes
  pub stored : KineticRecord

-- The connection that a single key is put on next.
abbrev pub next_connection : ℕ → ℕ → ℕ → ℕ
next_connection connections hash size = elim (get_elem? (expand_stripe connections hash 1 size) 0) [
  | none ↦ 0
  | some c ↦ c
]

-- A number as Convert::toString writes it.
unfoldable pub number_text : ℕ → Bytes
unfolding digits count_digits
number_text n = digits (count_digits 20 n) n

-- "chunk="
abbrev pub chunk_text : Bytes
chunk_text = 99 ∷ 104 ∷ 117 ∷ 110 ∷ 107 ∷ 61 ∷ []

-- "handoff=", the key, "version=", the version, "chunk=" and the number of the chunk.
unfoldable pub handoff_name : Bytes → Bytes → ℕ → Bytes
unfolding handoff_key number_text
handoff_name key version opnum = handoff_key key version ++ (chunk_text ++ number_text opnum)

-- "indicator"
abbrev pub indicator_version : Bytes
indicator_version = 105 ∷ 110 ∷ 100 ∷ 105 ∷ 99 ∷ 97 ∷ 116 ∷ 111 ∷ 114 ∷ []

-- The operations are counted by `size`: a new one is placed after them. Those before it have their
-- results, so that executing the vector runs the last one only.
module _ {W : Type 0} (send : ℕ → SinglePut → W → Delivery (Unit {0}) × W) (crc : Bytes → ℕ)
    (hash connections : ℕ) where
  -- A round of createSingleKey.
  unfoldable pub try_single : Bytes → Bytes → Bytes → ℕ → W → StatusCode × W
  unfolding execute_one expand_stripe make_record
  try_single name version value size w =
      let request : SinglePut = record {
        connection = next_connection connections hash size;
        key = name;
        stored = make_record crc value version;
      } in
      let (op, w') =
        execute_one send size (record { request = request; callback = callback tt }) w in
      (op.callback.status, w')

  -- The loop, with the rounds that may follow the next one.
  unfoldable pub single_loop : ℕ → Bytes → Bytes → Bytes → ℕ → W → StatusCode × ℕ × W
  unfolding try_single
  single_loop zero name version value size w =
      let (status, w') = try_single name version value size w in (status, size + 1, w')
  single_loop (suc left) name version value size w =
      let (status, w') = try_single name version value size w in
      let rest = single_loop left name version value (size + 1) w' in
      if valid_status_code status then (status, size + 1, w') else rest

  -- createSingleKey: the status, and the number of operations after it.
  unfoldable pub create_single_key : Bytes → Bytes → Bytes → ℕ → W → StatusCode × ℕ × W
  unfolding single_loop
  create_single_key name version value size w =
      single_loop (connections - 1) name version value size w

  -- putIndicatorKey
  unfoldable pub put_indicator_key : Bytes → ℕ → W → ℕ × W
  unfolding create_single_key make_indicator_key
  put_indicator_key key size w =
      let (_, size', w') = create_single_key (make_indicator_key key) indicator_version [] size w in
      (size', w')

  -- Whether a chunk is handed to another drive.
  unfoldable pub needs_handoff : StatusCode → Bool
  needs_handoff status = if is_ok status || is_mismatch status then false else true

  -- putHandoffKeys from chunk `opnum` on
  unfoldable pub put_handoff_keys : Bytes → Bytes → ℕ → List StatusCode → List Bytes → ℕ → W → ℕ × W
  unfolding needs_handoff create_single_key handoff_name
  put_handoff_keys key version opnum [] values size w = (size, w)
  put_handoff_keys key version opnum (c ∷ codes) [] size w = (size, w)
  put_handoff_keys key version opnum (c ∷ codes) (v ∷ values) size w =
      let (_, size', w') = create_single_key (handoff_name key version opnum) version v size w in
      let (next_size, next) = if needs_handoff c then (size', w') else (size, w) in
      put_handoff_keys key version (opnum + 1) codes values next_size next
