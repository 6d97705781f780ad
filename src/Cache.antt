-- ===== src/Cache.antt =====
-- The cache of data blocks: src/DataCache.cc. A file that owns blocks is a number, and so is a block;
-- an iterator into the cache is the block of its item, which no other item has. The mutex makes each
-- method one step. What C++ leaves undefined is `none`: an iterator that is decremented after its
-- element was erased or moved to another list, the last element of an empty list, a division by 0.
-- The factors 0.1 and 0.7 are taken as exact.
pub mod Fetch
pub mod Coherent
pub mod Kept
pub mod Served
pub mod Dropped
pub mod History
use kineticio.Prelude.{
  ℕ, zero, suc, ◌+◌, ◌-◌, ◌*◌, ◌/◌, Bool, true, false, not, ◌&&◌, ◌||◌, List, [], ◌∷◌, ◌++◌, Option,
  none, some, length, get_elem?, ltb, ◌==◌, bytes_eq, if◌then◌else◌, Result, ok, throw,
}
use kineticio.Str.{Bytes, size_add}
use kineticio.Words.{size_sub}
use kineticio.Keys.Numbers.{make_data_key}
use kineticio.DataBlock.{Mode}

-- The methods of a block that the cache calls, its creation, whether no one else holds it
-- (shared_ptr::unique), try_run of doFlush, and the clock in milliseconds.
pub record Blocks (W : Type 0) : Type 0 where
  pub identity : ℕ → W → Bytes
  pub capacity : ℕ → W → ℕ
  pub dirty : ℕ → W → Bool
  pub unique : ℕ → W → Bool
  pub flush : ℕ → W → Result (Unit {0}) × W
  -- with the data key and the instance id of the cluster
  pub reassign : ℕ → Bytes → Bytes → Mode → W → W
  pub create : Bytes → Bytes → Mode → W → ℕ × W
  pub try_flush : ℕ → W → W
  pub now : W → ℕ

pub record CacheItem : Type 0 where
  pub owners : List ℕ
  pub block : ℕ
  pub last_access : ℕ

-- The tables are maps: a key that is not in them gives `none`, an owner no blocks.
pub record DataCache : Type 0 where
  pub capacity : ℕ
  pub current_size : ℕ
  pub unused_size : ℕ
  pub cache : List CacheItem
  pub unused_items : List CacheItem
  pub lookup : Bytes → Option ℕ
  pub owner_tables : ℕ → List ℕ

-- What the cache reads of a file.
pub record Owner : Type 0 where
  pub number : ℕ
  pub cluster_id : Bytes
  pub instance_id : Bytes
  pub path : Bytes

-- The constructor, and changeConfiguration.
unfoldable pub new_cache : ℕ → DataCache
new_cache capacity = record {
  capacity = capacity;
  current_size = 0;
  unused_size = 0;
  cache = [];
  unused_items = [];
  lookup = λ _. none;
  owner_tables = λ _. [];
}

unfoldable pub change_capacity : ℕ → DataCache → DataCache
change_capacity capacity c = record c { capacity = capacity }

-- Insertion into a std::set of numbers, and removal.
unfoldable pub set_insert : ℕ → List ℕ → List ℕ
set_insert n [] = n ∷ []
set_insert n (x ∷ xs) = let rest = set_insert n xs in if x == n then x ∷ xs else x ∷ rest

unfoldable pub set_erase : ℕ → List ℕ → List ℕ
set_erase n [] = []
set_erase n (x ∷ xs) = let rest = set_erase n xs in if x == n then rest else x ∷ rest

abbrev pub update_table : ℕ → List ℕ → (ℕ → List ℕ) → ℕ → List ℕ
update_table o t tables p = if p == o then t else tables p

abbrev pub update_lookup : Bytes → Option ℕ → (Bytes → Option ℕ) → Bytes → Option ℕ
update_lookup k d table j = if bytes_eq j k then d else table j

-- The item of a block, the list without it, and a change of it.
unfoldable pub find_item : ℕ → List CacheItem → Option CacheItem
find_item d [] = none
find_item d (x ∷ xs) = if x.block == d then some x else find_item d xs

unfoldable pub erase_item : ℕ → List CacheItem → List CacheItem
erase_item d [] = []
erase_item d (x ∷ xs) = let rest = erase_item d xs in if x.block == d then xs else x ∷ rest

unfoldable pub disown : ℕ → ℕ → List CacheItem → List CacheItem
unfolding set_erase
disown owner d [] = []
disown owner d (x ∷ xs) =
    let rest = disown owner d xs in
    if x.block == d then record x { owners = set_erase owner x.owners } ∷ xs else x ∷ rest

module _ {W : Type 0} (blocks : Blocks W) where
  -- The first loop of remove_item.
  unfoldable pub leave_tables : ℕ → List ℕ → (ℕ → List ℕ) → ℕ → List ℕ
  unfolding set_erase
  leave_tables d [] tables = tables
  leave_tables d (o ∷ os) tables =
      leave_tables d os (update_table o (set_erase d (tables o)) tables)

  -- remove_item, of an item of the cache
  unfoldable pub remove_item : CacheItem → W → DataCache → DataCache
  unfolding leave_tables erase_item
  remove_item x w c =
      let size = blocks.capacity x.block w in
      let gone = record c {
        owner_tables = leave_tables x.block x.owners c.owner_tables;
        lookup = update_lookup (blocks.identity x.block w) none c.lookup;
        current_size = size_sub c.current_size size;
        cache = erase_item x.block c.cache;
      } in
      if ltb c.capacity (10 * c.unused_size) then gone else record gone {
        unused_size = size_add c.unused_size size;
        unused_items = x ∷ c.unused_items;
      }

  -- The loop of drop.
  unfoldable pub drop_each : ℕ → Bool → W → List ℕ → DataCache → DataCache
  unfolding disown find_item remove_item
  drop_each owner force w [] c = c
  drop_each owner force w (d ∷ ds) c =
      let c' = record c { cache = disown owner d c.cache } in
      drop_each owner force w ds (
        if force
        then (elim (find_item d c'.cache) [ none ↦ c' | some x ↦ remove_item x w c' ])
        else c')

  -- drop
  unfoldable pub drop : ℕ → Bool → W → DataCache → DataCache
  unfolding drop_each
  drop owner force w c =
      let c' = drop_each owner force w (c.owner_tables owner) c in
      record c' { owner_tables = update_table owner [] c'.owner_tables }

  -- flush: the blocks of the owner, and what the flush of one throws
  unfoldable pub flush_each : List ℕ → W → Result (Unit {0}) × W
  flush_each [] w = (ok tt, w)
  flush_each (d ∷ ds) w =
      let (r, w') = blocks.flush d w in
      let rest = flush_each ds in
      if blocks.dirty d w then (elim r [ throw e ↦ (throw e, w') | ok _ ↦ rest w' ]) else rest w

  unfoldable pub flush : ℕ → DataCache → W → Result (Unit {0}) × W
  unfolding flush_each
  flush owner c w = flush_each (c.owner_tables owner) w

  -- An item that was not used for five seconds.
  unfoldable pub is_expired : ℕ → CacheItem → Bool
  is_expired now x = ltb (x.last_access + 5_000) now

  -- Whether try_shrink drops an item at its first turn.
  unfoldable pub is_unneeded : ℕ → CacheItem → W → Bool
  unfolding is_expired
  is_unneeded now x w =
      (ltb (length x.owners) 1 || is_expired now x)
      && not (blocks.dirty x.block w)
      && blocks.unique x.block w

  unfoldable pub shrink_item : ℕ → CacheItem → DataCache × W → DataCache × W
  unfolding is_unneeded remove_item
  shrink_item now x (c, w) =
      if is_unneeded now x w
      then (remove_item x w c, w)
      else if blocks.dirty x.block w && is_expired now x
      then (c, blocks.try_flush x.block w)
      else (c, w)

  -- The first loop of try_shrink, from position `i` down to the first; a removal returns the iterator
  -- that follows, so that the decrement leads to the position before. `slots` is ten times num_items.
  unfoldable pub shrink_loop : ℕ → ℕ → ℕ → ℕ → DataCache × W → DataCache × W
  unfolding shrink_item
  shrink_loop now slots zero count (c, w) = (c, w)
  shrink_loop now slots (suc i) count (c, w) =
      let next : DataCache × W = elim (get_elem? c.cache (suc i)) [
        | none ↦ (c, w)
        | some x ↦ shrink_item now x (c, w)
      ] in
      let rest = shrink_loop now slots i (count + 1) next in
      if ltb (10 * count) slots then rest else (c, w)

  -- The second loop: it removes a clean block, and then decrements the iterator of the removed one.
  unfoldable pub force_clean : ℕ → DataCache → W → Option DataCache
  force_clean zero c w = some c
  force_clean (suc i) c w =
      let rest = force_clean i c w in
      if ltb c.capacity c.current_size
      then elim (get_elem? c.cache (suc i)) [
        | none ↦ rest
        | some x ↦ if blocks.unique x.block w && not (blocks.dirty x.block w) then none else rest
      ]
      else some c

  -- The third loop: it flushes a dirty block and removes it in the same way, or goes on where the
  -- flush throws.
  unfoldable pub force_item : CacheItem → (W → Option (DataCache × W)) → W → Option (DataCache × W)
  force_item x rest w =
      let (r, w') = blocks.flush x.block w in
      if blocks.unique x.block w
      then (if blocks.dirty x.block w then (elim r [ throw e ↦ rest w' | ok _ ↦ none ]) else none)
      else rest w

  unfoldable pub force_dirty : ℕ → DataCache → W → Option (DataCache × W)
  unfolding force_item
  force_dirty zero c w = some (c, w)
  force_dirty (suc i) c w =
      let rest = force_dirty i c in
      if ltb c.capacity c.current_size
      then elim (get_elem? c.cache (suc i)) [ none ↦ rest w | some x ↦ force_item x rest w ]
      else some (c, w)

  -- The second part of try_shrink.
  unfoldable pub force_shrink : DataCache × W → Option (DataCache × W)
  unfolding force_clean force_dirty
  force_shrink (c, w) =
      if ltb c.capacity c.current_size
      then elim (force_clean (length c.cache - 1) c w) [
        | none ↦ none
        | some c' ↦ force_dirty (length c'.cache - 1) c' w
      ]
      else some (c, w)

  -- try_shrink
  unfoldable pub try_shrink : DataCache → W → Option (DataCache × W)
  unfolding shrink_loop force_shrink
  try_shrink c w = elim (get_elem? c.cache (length c.cache - 1)) [
    | none ↦ none
    | some last ↦
        let size = blocks.capacity last.block w in
        if size == 0
        then none
        else force_shrink
            (shrink_loop (blocks.now w) (c.current_size / size) (length c.cache - 1) 0 (c, w))
  ]

-- utilization, as the two sides of the quotient
unfoldable pub utilization : DataCache → ℕ × ℕ
utilization c = (c.current_size, c.capacity)
