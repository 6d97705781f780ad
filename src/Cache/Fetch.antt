-- ===== src/Cache/Fetch.antt =====
-- getDataKey of src/DataCache.cc.
use kineticio.Prelude.{ℕ, ◌*◌, [], ◌∷◌, ◌++◌, Option, none, some, ltb, if◌then◌else◌}
use kineticio.Str.{Bytes, size_add}
use kineticio.Words.{size_sub}
use kineticio.Keys.Numbers.{make_data_key}
use kineticio.DataBlock.{Mode}
use kineticio.Cache.{
  Blocks, CacheItem, DataCache, Owner, set_insert, update_table, update_lookup, find_item,
  erase_item, try_shrink,
}

module _ {W : Type 0} (blocks : Blocks W) where
  -- A cached block is moved to the front.
  unfoldable pub serve_cached : ℕ → CacheItem → W → DataCache → DataCache
  unfolding set_insert erase_item
  serve_cached owner x w c = record c {
    cache =
        record x { owners = set_insert owner x.owners; last_access = blocks.now w }
        ∷ erase_item x.block c.cache;
    owner_tables = update_table owner (set_insert x.block (c.owner_tables owner)) c.owner_tables;
  }

  -- The end of getDataKey, for a block that is not in the cache.
  unfoldable pub insert_block : ℕ → Bytes → ℕ → W → DataCache → ℕ × DataCache × W
  unfolding set_insert
  insert_block owner cache_key d w c = (
    d,
    record c {
      cache = record { owners = owner ∷ []; block = d; last_access = blocks.now w } ∷ c.cache;
      current_size = size_add c.current_size (blocks.capacity d w);
      lookup = update_lookup cache_key (some d) c.lookup;
      owner_tables = update_table owner (set_insert d (c.owner_tables owner)) c.owner_tables;
    },
    w,
  )

  -- The block is an unused one, or a new one.
  unfoldable pub add_block : ℕ → Bytes → Bytes → Mode → DataCache × W → ℕ × DataCache × W
  unfolding insert_block
  add_block owner data_key instance_id mode (c, w) = elim c.unused_items [
    | [] ↦
        let (d, w') = blocks.create data_key instance_id mode w in
        insert_block owner (data_key ++ instance_id) d w' c
    | x ∷ xs ↦
        insert_block owner (data_key ++ instance_id) x.block
          (blocks.reassign x.block data_key instance_id mode w)
          (record c {
            unused_size = size_sub c.unused_size (blocks.capacity x.block w);
            unused_items = xs;
          })
  ]

  -- The part of getDataKey for a block that is not cached.
  unfoldable pub fetch_block : ℕ → Bytes → Bytes → Mode → DataCache → W → Option (ℕ × DataCache × W)
  unfolding try_shrink add_block
  fetch_block owner data_key instance_id mode c w =
      if ltb (7 * c.capacity) (10 * c.current_size)
      then elim (try_shrink blocks c w) [
        | none ↦ none
        | some s ↦ some (add_block owner data_key instance_id mode s)
      ]
      else some (add_block owner data_key instance_id mode (c, w))

  -- getDataKey
  unfoldable pub get_data_key : Owner → ℕ → Mode → DataCache → W → Option (ℕ × DataCache × W)
  get_data_key owner blocknumber mode c w =
      let data_key = make_data_key owner.cluster_id owner.path blocknumber in
      elim (c.lookup (data_key ++ owner.instance_id)) [
        | none ↦ fetch_block owner.number data_key owner.instance_id mode c w
        | some d ↦ elim (find_item d c.cache) [
          | none ↦ none
          | some x ↦ some (d, serve_cached owner.number x w c, w)
        ]
      ]
