-- ===== src/File/Transfer.antt =====
-- Reading and writing a file block by block (src/FileIo.cc: scheduleReadahead, get_eof_backend,
-- verify_eof, ReadWrite, Read, Write).

pub mod Pieces
pub mod Quiet
pub mod Ends
pub mod Reading
pub mod Holding
pub mod Delivered
pub mod Writing
pub mod Written
use kineticio.Prelude.{
  ℕ, zero, suc, ◌-◌, ◌*◌, ◌/◌, min, not, List, [], ◌∷◌, ◌++◌, Option, none, some, length, take,
  drop, ltb, ◌==◌, if◌then◌else◌, Result, ok, throw, io_error, no_such_file_or_directory,
  operation_not_permitted,
}
use kineticio.Str.{Bytes, size_add}
use kineticio.Words.{to_int, to_size, int_lt, size_mul, size_sub}
use kineticio.Kinetic.{StatusCode, is_ok}
use kineticio.DataBlock.{Mode, standard, create, expiration_time}
use kineticio.Prefetch.{continue, add, predict}
use kineticio.Keys.{make_metadata_key}
use kineticio.Keys.Numbers.{make_data_key, block_number_of}
use kineticio.File.{File}
use kineticio.File.Action.{
  Loop, before, then_after, finally, done, Action, ◌>>=◌, ◌>>◌, return, raise, when,
}
use kineticio.File.Services.{Services}

-- The part of a transfer that falls into one block: `block_number` (an int), `block_offset` and
-- `block_length`, from a position and with the bytes left.
pub record Piece : Type 0 where
  pub block_number : ℕ
  pub block_offset : ℕ
  pub block_length : ℕ

-- What a round that reads comes to, with the bytes that the block gave.
pub data ReadStep : Type 0 where
  next : Bytes → ReadStep
  retry : Bytes → ReadStep
  last : Bytes → ℕ → ReadStep

module _ {W : Type 0} (services : Services W) (path : Bytes) where
  abbrev pub Method : Type 0 → Type 0
  Method A = Action (File W) A

  -- A call whose effect is outside the file.
  abbrev pub call : {A : Type 0} → (W → A × W) → Method A
  call f s = let (a, w) = f s.world in (ok a, record s { world = w })

  abbrev pub call_throwing : {A : Type 0} → (W → Result A × W) → Method A
  call_throwing f s = let (r, w) = f s.world in (r, record s { world = w })

  abbrev pub change : (W → W) → Method (Unit {0})
  change f s = (ok tt, record s { world = f s.world })

  -- The length of the readahead, by the utilization of the cache. (The code computes in doubles.)
  unfoldable pub readahead_length : ℕ → ℕ → ℕ → ℕ
  readahead_length window used capacity =
      if ltb (95 * capacity) (100 * used)
      then 0
      else if ltb (75 * capacity) (100 * used)
      then window * 4 * (capacity - used) / capacity
      else window

  -- The loop over the predicted blocks.
  unfoldable pub read_ahead : ℕ → List ℕ → W → W
  read_ahead eof [] w = w
  read_ahead eof (p ∷ ps) w = read_ahead eof ps (
      if int_lt p eof
      then (let (h, w') = services.get_data_key p standard w in services.try_read_ahead h w')
      else w)

  -- scheduleReadahead
  unfoldable pub schedule_readahead : ℕ → Method (Unit {0})
  unfolding readahead_length read_ahead add predict
  schedule_readahead block_number s =
      let o = add block_number s.oracle in
      let wanted =
        readahead_length services.readahead_window (services.current_size s.world)
          (services.cache_capacity s.world) in
      if wanted == 0
      then (ok tt, record s { oracle = o })
      else let (prediction, o') = predict services.walk wanted continue o in
        (ok tt, record s { oracle = o'; world = read_ahead s.eof_blocknumber prediction s.world })

  -- get_eof_backend, after the range request succeeded with no key
  unfoldable pub eof_without_blocks : Method ℕ
  unfolding make_metadata_key
  eof_without_blocks = do
    status ← call (services.get_version (make_metadata_key services.id path))
    if is_ok status then return 0 else raise no_such_file_or_directory

  -- cluster->range
  abbrev pub ask_range : Bytes → Bytes → ℕ → Method (StatusCode × List Bytes)
  ask_range start end elements =
      call
        (λ w. let (status, keys, w') = services.range start end elements w in ((status, keys), w'))

  -- get_eof_backend, after the range request
  unfoldable pub eof_from : StatusCode × List Bytes → Method ℕ
  unfolding eof_without_blocks block_number_of
  eof_from (status, []) s = if is_ok status then eof_without_blocks s else (throw io_error, s)
  eof_from (status, key ∷ keys) s =
      if is_ok status then (block_number_of key, s) else (throw io_error, s)

  -- get_eof_backend
  unfoldable pub get_eof_backend : Method ℕ
  unfolding eof_from make_data_key
  get_eof_backend =
      ask_range (make_data_key services.id path 999_999_999) (make_data_key services.id path 0) 1
      >>= eof_from

  abbrev pub get_eof : Method ℕ
  get_eof s = (ok s.eof_blocknumber, s)

  abbrev pub set_eof : ℕ → Method (Unit {0})
  set_eof number s = (ok tt, record s { eof_blocknumber = number })

  -- verify_eof, where the backend knows a smaller block number than the file
  unfoldable pub correct_eof : ℕ → Method (Unit {0})
  unfolding get_eof_backend
  correct_eof eof = do
    last_block ← call (services.get_data_key eof standard)
    dirty ← λ s. (ok (services.dirty_block last_block s.world), s)
    if dirty then return tt else get_eof_backend >>= set_eof

  -- verify_eof, once the time has passed
  unfoldable pub renew_eof : Method (Unit {0})
  unfolding get_eof_backend correct_eof
  renew_eof = do
    backend ← get_eof_backend
    eof ← get_eof
    if int_lt backend eof then correct_eof eof else set_eof backend

  -- verify_eof
  unfoldable pub verify_eof : Method (Unit {0})
  unfolding renew_eof
  verify_eof s =
      if ltb expiration_time (services.now s.world - s.eof_verification_time)
      then renew_eof (record s { eof_verification_time = services.now s.world })
      else (ok tt, s)

  unfoldable pub locate : ℕ → ℕ → Piece
  locate position todo =
      let number = to_int (position / services.max_value_size) in
      let offset = size_sub position (size_mul (to_size number) services.max_value_size) in
      record {
        block_number = number;
        block_offset = offset;
        block_length = min todo (size_sub services.max_value_size offset);
      }

  -- The last block number grows if the write passes it; the mode in which the block is asked for.
  unfoldable pub claim_block : ℕ → Method Mode
  claim_block number s =
      if int_lt s.eof_blocknumber number
      then (ok create, record s { eof_blocknumber = number })
      else (ok standard, s)

  -- A round of ReadWrite that writes a piece.
  unfoldable pub write_piece : Piece → Bytes → Method (Unit {0})
  unfolding claim_block schedule_readahead
  write_piece p bytes = do
    mode ← claim_block p.block_number
    block ← call (services.get_data_key p.block_number mode)
    schedule_readahead p.block_number
    call_throwing (services.write_block block bytes p.block_offset)
    when (size_add p.block_offset p.block_length == services.max_value_size)
        (change (services.run_flush block))

  -- The loop of ReadWrite on a write, with what is left of the buffer; `none` if the fuel runs out.
  unfoldable pub write_loop : ℕ → ℕ → Bytes → Loop (File W) (Unit {0})
  unfolding locate write_piece
  write_loop zero position bytes s = none
  write_loop (suc fuel) position [] s = some (ok tt, s)
  write_loop (suc fuel) position (x ∷ bytes) s =
      let p = locate position (length (x ∷ bytes)) in
      let (r, s') = write_piece p (take p.block_length (x ∷ bytes)) s in
      elim r [
        | throw e ↦ some (throw e, s')
        | ok _ ↦
            write_loop fuel (size_add position p.block_length) (drop p.block_length (x ∷ bytes)) s'
      ]

  -- The bytes of the last block that count.
  unfoldable pub count_last : Piece → ℕ → Method ℕ
  count_last p block = do
    size ← call_throwing (services.size_block block)
    if ltb p.block_offset size
        then (call_throwing (services.size_block block) >>= λ again.
            return (min p.block_length (size_sub again p.block_offset)))
        else return 0

  -- The end of such a round, where the block looks like the last one.
  unfoldable pub read_last : Piece → ℕ → Bytes → Method ReadStep
  unfolding verify_eof count_last
  read_last p block bytes = do
    verify_eof
    eof ← get_eof
    if int_lt p.block_number eof
        then return (retry bytes)
        else (count_last p block >>= λ n. return (last bytes n))

  -- A round of ReadWrite that reads a piece.
  unfoldable pub read_piece : Piece → Bytes → Method ReadStep
  unfolding schedule_readahead read_last
  read_piece p buffer = do
    block ← call (services.get_data_key p.block_number standard)
    schedule_readahead p.block_number
    bytes ← call_throwing (services.read_block block buffer p.block_offset)
    eof ← get_eof
    if int_lt p.block_number eof then return (next bytes) else read_last p block bytes

  -- The loop of ReadWrite on a read, with what is left of the buffer and what was read: the buffer
  -- after it and `length_todo`.
  unfoldable pub read_loop : ℕ → ℕ → Bytes → Bytes → Loop (File W) (Bytes × ℕ)
  unfolding locate read_piece
  read_loop zero position front buffer s = none
  read_loop (suc fuel) position front [] s = some (ok (front, 0), s)
  read_loop (suc fuel) position front (x ∷ buffer) s =
      let p = locate position (length (x ∷ buffer)) in
      let rest = drop p.block_length (x ∷ buffer) in
      let (r, s') = read_piece p (take p.block_length (x ∷ buffer)) s in
      elim r [
        | throw e ↦ some (throw e, s')
        | ok (next bytes) ↦
            read_loop fuel (size_add position p.block_length) (front ++ bytes) rest s'
        | ok (retry bytes) ↦ read_loop fuel position front (bytes ++ rest) s'
        | ok (last bytes n) ↦
            some (ok (front ++ (bytes ++ rest), size_sub (length (x ∷ buffer)) n), s')
      ]

  -- The start of ReadWrite: an exception of a flush in the background is thrown again.
  unfoldable pub rethrow : Method (Unit {0})
  rethrow s =
      let (e, w) = services.next_exception s.world in
      elim e [
        | none ↦ (ok tt, record s { world = w })
        | some err ↦ (throw err, record s { world = w })
      ]

  -- Write: the number of bytes written, for a buffer of as many bytes as the length says.
  unfoldable pub write_file : ℕ → ℕ → Bytes → Loop (File W) ℕ
  unfolding rethrow write_loop
  write_file fuel offset buffer s =
      if not s.opened
      then some (throw operation_not_permitted, s)
      else before rethrow
          (λ _ s'. finally (λ _. done (return (length buffer))) (write_loop fuel offset buffer s'))
          s

  -- Read: the buffer after it and the number of bytes read.
  unfoldable pub read_file : ℕ → ℕ → Bytes → Loop (File W) (Bytes × ℕ)
  unfolding rethrow read_loop
  read_file fuel offset buffer s =
      if not s.opened
      then some (throw operation_not_permitted, s)
      else before rethrow
          (λ _ s'.
            finally (λ (out, todo). done (return (out, size_sub (length buffer) todo)))
              (read_loop fuel offset [] buffer s'))
          s
