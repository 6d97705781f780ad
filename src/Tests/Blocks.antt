-- ===== src/Tests/Blocks.antt =====
-- Runs and examples for blocks (src/DataBlock.cc), with the specification of the cluster as the
-- cluster and blocks of 8 bytes.
use kineticio.Prelude.{
  ℕ, ◌+◌, ◌≤◌, ◌<◌, max, ◌≡◌, ◌≢◌, ◌⊎◌, refl, false, [], ◌∷◌, none, some, arith, length, get_elem?,
  ok, throw, out_of_range,
}
use kineticio.Str.{Bytes}
use kineticio.ClusterInterface.{ClusterInterface}
use kineticio.Remote.{Remote, remote_cluster}
use kineticio.DataBlock.{DataBlock, standard, create, dirty, reassign, read, refresh, accept_remote}
use kineticio.DataBlock.Changes.{write, truncate, prepare, flush}
use kineticio.DataBlock.Content.{IsBacked, content, content-write}
use kineticio.DataBlock.Merge.{Merged, padded, accept_remote-Merged}
use kineticio.DataBlock.Reading.{Shows, read-Shows, read-write}
use kineticio.DataBlock.Flushing.{IsPending, IsFlushed, flush-IsFlushed}
use kineticio.DataBlock.Faults.{
  flush-truncate, content-write-reassign, accept_remote-prepare_truncated,
}

-- A cluster that holds five bytes under the key.
abbrev remote : Remote
remote = record {
  entry = some (7 ∷ [], 10 ∷ 20 ∷ 30 ∷ 40 ∷ 50 ∷ []);
  clock = 500;
  count = 0;
  new_version = λ n. (100 + n) ∷ [];
}

abbrev small : ClusterInterface Remote
small = remote_cluster 8

-- A block that was read.
abbrev fetched : DataBlock
fetched = record {
  mode = standard;
  key = 1 ∷ [];
  version = some (7 ∷ []);
  remote_value = some (10 ∷ 20 ∷ 30 ∷ 40 ∷ 50 ∷ []);
  local_value = none;
  value_size = 5;
  updates = [];
  timestamp = 400;
}

-- A block with one pending write of two bytes at offset 1, made before the key's last change.
abbrev pending : DataBlock
pending = record fetched {
  version = some (6 ∷ []);
  remote_value = none;
  local_value = some (10 ∷ 21 ∷ 31 ∷ 41 ∷ []);
  value_size = 4;
  updates = (1, 2) ∷ [];
}

fetched-IsBacked : IsBacked 8 fetched
fetched-IsBacked = record { backed = omega arith; within = omega arith }

pending-IsPending : IsPending 8 pending (10 ∷ 21 ∷ 31 ∷ 41 ∷ [])
pending-IsPending = record {
  here = refl;
  alone = refl;
  pending = refl;
  backed = omega arith;
  within = omega arith;
  inside = (omega arith, tt);
}

flush-IsFlushed_example :
    (b' : DataBlock) × (w' : Remote) × (flush small 2 pending remote ≡ some (ok tt, b', w'))
    × IsFlushed ((1, 2) ∷ []) (10 ∷ 21 ∷ 31 ∷ 41 ∷ []) b' w'
flush-IsFlushed_example =
    flush-IsFlushed 8 pending (10 ∷ 21 ∷ 31 ∷ 41 ∷ []) remote pending-IsPending

read-write_example :
    let (result, b') = write small (some (1 ∷ 2 ∷ 3 ∷ [])) 4 fetched in
    (result ≡ ok tt)
    × (read small (some (9 ∷ 9 ∷ 9 ∷ [])) 4 b' remote ≡ (ok (1 ∷ 2 ∷ 3 ∷ []), b', remote))
read-write_example =
    read-write small 4 (1 ∷ 2 ∷ 3 ∷ []) (9 ∷ 9 ∷ 9 ∷ []) fetched remote fetched-IsBacked
      (omega arith) (omega arith) refl (omega arith)

fetched-refresh : refresh small fetched remote ≡ (ok tt, fetched, remote)
unfolding refresh
fetched-refresh = refl

read-Shows_example :
    (out : Bytes) × (read small (some (9 ∷ 9 ∷ 9 ∷ [])) 4 fetched remote
      ≡ (ok out, fetched, remote))
    × Shows out 3 4 fetched
read-Shows_example =
    read-Shows small 4 (9 ∷ 9 ∷ 9 ∷ []) fetched fetched remote remote (omega arith) (omega arith)
      fetched-refresh fetched-IsBacked

content-write_example :
    let (result, b') = write small (some (1 ∷ 2 ∷ 3 ∷ [])) 4 fetched in
    (result ≡ ok tt)
    × IsBacked 8 b'
    × (b'.value_size ≡ max 7 5)
    × ((i : ℕ) → i < 3 → get_elem? (content b') (4 + i) ≡ get_elem? (1 ∷ 2 ∷ 3 ∷ []) i)
    × ((i : ℕ)
        → i < 5
        → (i < 4) ⊎ (7 ≤ i)
        → get_elem? (content b') i ≡ get_elem? (content fetched) i)
    × (b'.updates ≡ (4, 3) ∷ [])
content-write_example =
    content-write small (1 ∷ 2 ∷ 3 ∷ []) 4 fetched fetched-IsBacked (omega arith) (omega arith)

abbrev merging : DataBlock
merging = record pending {
  version = some (7 ∷ []);
  remote_value = some (10 ∷ 20 ∷ 30 ∷ 40 ∷ 50 ∷ []);
}

accept_remote-Merged_example :
    (m : Bytes) × (accept_remote small false merging remote ≡ (
      ok tt,
      record merging { remote_value = none; local_value = some m; value_size = 5; timestamp = 500 },
      remote,
    ))
    × (length m ≡ length (padded 8 (10 ∷ 20 ∷ 30 ∷ 40 ∷ 50 ∷ [])))
    × Merged ((1, 2) ∷ []) (10 ∷ 21 ∷ 31 ∷ 41 ∷ []) (padded 8 (10 ∷ 20 ∷ 30 ∷ 40 ∷ 50 ∷ [])) m
accept_remote-Merged_example =
    accept_remote-Merged small merging (10 ∷ 21 ∷ 31 ∷ 41 ∷ []) (10 ∷ 20 ∷ 30 ∷ 40 ∷ 50 ∷ []) remote
      refl refl refl (omega arith, tt) (omega arith, tt)

-- A truncation to two bytes, under the version that the cluster has.
flush-truncate_example :
    let (result, b') = truncate small 2 fetched in
    (result ≡ ok tt)
    × ((b'' : DataBlock) × (w' : Remote) × (flush small 1 b' remote ≡ some (ok tt, b'', w'))
        × (dirty b'' ≡ false)
        × (content b'' ≡ 10 ∷ 20 ∷ [])
        × (w'.entry ≡ some (100 ∷ [], 10 ∷ 20 ∷ 30 ∷ 40 ∷ 50 ∷ []))
        × ((10 ∷ 20 ∷ 30 ∷ 40 ∷ 50 ∷ []) ≢ content b''))
flush-truncate_example =
    flush-truncate 8 0 2 fetched (10 ∷ 20 ∷ 30 ∷ 40 ∷ 50 ∷ []) (7 ∷ []) remote refl refl refl refl
      (omega arith) (omega arith)

content-write-reassign_example :
    get_elem?
      (content (write small (some (1 ∷ 2 ∷ [])) 3 (reassign small (2 ∷ []) create fetched)).1)
      0
    ≡ some 10
content-write-reassign_example =
    content-write-reassign small (2 ∷ []) (1 ∷ 2 ∷ []) (10 ∷ 20 ∷ 30 ∷ 40 ∷ 50 ∷ []) fetched create
      3 0 refl refl (omega arith) (omega arith) (omega arith) (omega arith)

-- A write of two bytes at offset 4, then a truncation to 1.
abbrev truncated : DataBlock
truncated = record pending {
  local_value = some (10 ∷ 20 ∷ 30 ∷ 40 ∷ 51 ∷ 61 ∷ []);
  value_size = 1;
  updates = (4, 2) ∷ (1, 0) ∷ [];
}

accept_remote-prepare_truncated_example :
    (accept_remote small false
      (record (prepare small truncated).1 { remote_value = some (10 ∷ 20 ∷ []) })
      remote).0
    ≡ throw out_of_range
accept_remote-prepare_truncated_example =
    accept_remote-prepare_truncated small truncated (10 ∷ 20 ∷ 30 ∷ 40 ∷ 51 ∷ 61 ∷ [])
      (10 ∷ 20 ∷ []) 4 1 remote refl refl (omega arith)
