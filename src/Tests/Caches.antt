-- ===== src/Tests/Caches.antt =====
-- Examples for the cache of blocks (src/DataCache.cc).
use kineticio.Prelude.{
  ℕ, suc, ◌≡◌, refl, true, false, [], ◌∷◌, ◌++◌, Option, none, some, ok, arith, if◌then◌else◌, ◌==◌,
  bytes_eq, ==_refl,
}
use kineticio.Str.{Bytes}
use kineticio.Keys.Numbers.{make_data_key}
use kineticio.DataBlock.{Mode}
use kineticio.Cache.{Blocks, DataCache, Owner, new_cache, drop}
use kineticio.Cache.Fetch.{get_data_key, fetch_block}
use kineticio.Cache.Kept.{IsBlocks}
use kineticio.Cache.History.{start, served, dropped, Outcome, cache_key, get_data_key-Reached}

-- The world has the number of blocks that were made and their keys.
abbrev World : Type 0
World = ℕ × (ℕ → Bytes)

abbrev name_block : ℕ → Bytes → (ℕ → Bytes) → ℕ → Bytes
name_block d key keys e = if e == d then key else keys e

abbrev small_blocks : Blocks World
small_blocks = record {
  identity = λ d w. w.1 d;
  capacity = λ d w. 4;
  dirty = λ d w. false;
  unique = λ d w. true;
  flush = λ d w. (ok tt, w);
  reassign = λ d k i m w. (w.0, name_block d (k ++ i) w.1);
  create = λ k i m w. (w.0, (suc w.0, name_block w.0 (k ++ i) w.1));
  try_flush = λ d w. w;
  now = λ w. 0;
}

abbrev made_blocks : World → ℕ
made_blocks w = w.0

small_blocks-IsBlocks : IsBlocks small_blocks made_blocks
small_blocks-IsBlocks = record {
  reassign_self = λ d k i m w. rw (==_refl d) refl;
  reassign_other = λ d k i m w e other. ground arith;
  reassign_made = λ d k i m w. refl;
  create_number = λ k i m w. refl;
  create_made = λ k i m w. refl;
  create_self = λ k i m w. rw (==_refl w.0) refl;
  create_other = λ k i m w e below. ground arith;
  flush_same = λ d w. (λ e. refl, refl);
  try_flush_same = λ d w. (λ e. refl, refl);
}

abbrev reader : Owner
reader = record { number = 1; cluster_id = 99 ∷ []; instance_id = 105 ∷ []; path = 112 ∷ [] }

abbrev nothing : World
nothing = (0, λ d. [])

-- The cache with the first block of the file, and after the file dropped it with its blocks.
abbrev one_block : Option (ℕ × DataCache × World)
one_block = get_data_key small_blocks reader 0 Mode.standard (new_cache 100) nothing

abbrev cache_of : Option (ℕ × DataCache × World) → DataCache
cache_of none = new_cache 100
cache_of (some (d, c, w)) = c

abbrev world_of : Option (ℕ × DataCache × World) → World
world_of none = nothing
world_of (some (d, c, w)) = w

one_block_served : one_block ≡ some (0, cache_of one_block, world_of one_block)
unfolding get_data_key new_cache fetch_block
one_block_served = refl

-- The other block of the file is then a new use of the dropped one.
get_data_key-Reached_example :
    Outcome small_blocks made_blocks small_blocks-IsBlocks
      (cache_key small_blocks made_blocks small_blocks-IsBlocks reader 1)
      (get_data_key small_blocks reader 1 Mode.standard
        (drop small_blocks 1 true (world_of one_block) (cache_of one_block))
        (world_of one_block))
      (drop small_blocks 1 true (world_of one_block) (cache_of one_block))
      (world_of one_block)
get_data_key-Reached_example =
    get_data_key-Reached small_blocks made_blocks small_blocks-IsBlocks reader 1 Mode.standard
      (dropped 1 true (served reader 0 Mode.standard 0 (start 100 nothing) one_block_served))

block_reused :
    (elim (get_data_key small_blocks reader 1 Mode.standard
      (drop small_blocks 1 true (world_of one_block) (cache_of one_block))
      (world_of one_block)) [ none ↦ none | some t ↦ some t.0 ])
    ≡ some 0
unfolding get_data_key new_cache fetch_block drop bytes_eq make_data_key
block_reused = refl
