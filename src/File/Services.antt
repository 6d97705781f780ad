-- ===== src/File/Services.antt =====
-- The calls that a file makes (src/FileIo.cc): of ClusterInterface, DataCache, DataBlock and
-- BackgroundOperationHandler, on behalf of one file.
use kineticio.Prelude.{ℕ, Bool, List, Option, Result, Error}
use kineticio.Str.{Bytes}
use kineticio.Kinetic.{StatusCode}
use kineticio.DataBlock.{Mode}
use kineticio.Prefetch.{Distances}

pub record Services (W : Type 0) : Type 0 where
  -- the cluster: cluster->id(), limits(), put, get, remove, range, flush
  pub id : Bytes
  pub max_value_size : ℕ
  pub max_range_elements : ℕ
  pub put_versioned : Bytes → Bytes → Bytes → W → StatusCode × W
  pub put : Bytes → Bytes → W → StatusCode × W
  pub get_version : Bytes → W → StatusCode × W
  pub get : Bytes → W → StatusCode × Bytes × W
  pub remove : Bytes → W → StatusCode × W
  -- with the greatest number of keys, or 0 for the cluster's limit; the keys are null on an error
  pub range : Bytes → Bytes → ℕ → W → StatusCode × List Bytes × W
  pub flush_cluster : W → W
  -- the cache: getDataKey, whose block is named by a number, flush, drop, and the sizes of which
  -- utilization is the quotient
  pub get_data_key : ℕ → Mode → W → ℕ × W
  pub flush_blocks : W → Result (Unit {0}) × W
  pub drop_blocks : Bool → W → W
  pub current_size : W → ℕ
  pub cache_capacity : W → ℕ
  -- a data block: read, write, size, truncate, dirty
  pub read_block : ℕ → Bytes → ℕ → W → Result Bytes × W
  pub write_block : ℕ → Bytes → ℕ → W → Result (Unit {0}) × W
  pub size_block : ℕ → W → Result ℕ × W
  pub truncate_block : ℕ → ℕ → W → Result (Unit {0}) × W
  pub dirty_block : ℕ → W → Bool
  -- the pool: try_run of do_readahead and run of doFlush for a block, and the queue of exceptions of
  -- the latter
  pub try_read_ahead : ℕ → W → W
  pub run_flush : ℕ → W → W
  pub next_exception : W → Option Error × W
  -- the process: readaheadWindowSize(), the clock in milliseconds, the walk of a hash map
  pub readahead_window : ℕ
  pub now : W → ℕ
  pub walk : Distances → Distances
