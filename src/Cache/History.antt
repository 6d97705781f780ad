-- ===== src/Cache/History.antt =====
-- The cache over any history of its methods (src/DataCache.cc).
use kineticio.Prelude.{
  ℕ, ◌*◌, ◌<◌, ◌≡◌, ◌⊎◌, refl, sym, ◌∙◌, subst, Bool, ◌++◌, Option, none, some, ltb, ltb→lt,
  Bool-cases, Option-cases, inl, inr,
}
use kineticio.Str.{Bytes}
use kineticio.Keys.Numbers.{make_data_key}
use kineticio.DataBlock.{Mode}
use kineticio.Cache.{
  Blocks, CacheItem, DataCache, Owner, new_cache, change_capacity, drop, try_shrink,
}
use kineticio.Cache.Fetch.{serve_cached, add_block, fetch_block, get_data_key}
use kineticio.Cache.Coherent.{find_key-find_item}
use kineticio.Cache.Kept.{IsBlocks, IsCoherent, keys, Held, same_keys, try_shrink-Held}
use kineticio.Cache.Served.{Serves, serve_cached-Serves, add_block-Serves}
use kineticio.Cache.Dropped.{drop-IsCoherent, new_cache-IsCoherent, change_capacity-IsCoherent}

module _ {W : Type 0} (blocks : Blocks W) (made : W → ℕ) (laws : IsBlocks blocks made) where
  abbrev Coherent : DataCache → W → Type 0
  Coherent = IsCoherent blocks made

  -- The cache after any calls of its methods. Between them the files may do anything with the blocks
  -- that leaves them their keys.
  pub data Reached : DataCache → W → Type 0 where
    start : (capacity : ℕ) (w : W) → Reached (new_cache capacity) w
    served :
        (owner : Owner) (n : ℕ) (mode : Mode) (d : ℕ) {c c' : DataCache} {w w' : W}
        → Reached c w
        → get_data_key blocks owner n mode c w ≡ some (d, c', w')
        → Reached c' w'
    dropped :
        (o : ℕ) (force : Bool) {c : DataCache} {w : W}
        → Reached c w
        → Reached (drop blocks o force w c) w
    configured : (n : ℕ) {c : DataCache} {w : W} → Reached c w → Reached (change_capacity n c) w
    used :
        {c : DataCache} {w w' : W}
        → Reached c w
        → ((d : ℕ) → blocks.identity d w' ≡ blocks.identity d w)
        → made w' ≡ made w
        → Reached c w'

  -- What getDataKey does for a key: the block is cached already; or it is not, and then it is, or
  -- room has to be made and what follows is not defined.
  abbrev pub Outcome : Bytes → Option (ℕ × DataCache × W) → DataCache → W → Type 0
  Outcome key result c w =
      ((d : ℕ) × (c' : DataCache) × (c.lookup key ≡ some d)
        × (result ≡ some (d, c', w))
        × Serves blocks made laws key d c' w
        × (c'.lookup ≡ c.lookup))
      ⊎ ((c.lookup key ≡ none)
          × (((d : ℕ) × (c' : DataCache) × (w' : W) × (result ≡ some (d, c', w'))
                × Serves blocks made laws key d c' w')
              ⊎ ((7 * c.capacity < 10 * c.current_size) × (result ≡ none))))

  abbrev Fetched : Bytes → Option (ℕ × DataCache × W) → DataCache → Type 0
  Fetched key result c =
      ((d : ℕ) × (c' : DataCache) × (w' : W) × (result ≡ some (d, c', w'))
        × Serves blocks made laws key d c' w')
      ⊎ ((7 * c.capacity < 10 * c.current_size) × (result ≡ none))

  fetch_block-Fetched :
      (owner : ℕ) (data_key instance_id : Bytes) (mode : Mode) (c : DataCache) (w : W)
      → Coherent c w
      → c.lookup (data_key ++ instance_id) ≡ none
      → Fetched (data_key ++ instance_id) (fetch_block blocks owner data_key instance_id mode c w) c
  unfolding fetch_block
  fetch_block-Fetched owner data_key instance_id mode c w h absent =
      let key = data_key ++ instance_id in
      elim (Bool-cases (ltb (7 * c.capacity) (10 * c.current_size))) [
        | inr small ↦
            let (d, c', w') = add_block blocks owner data_key instance_id mode (c, w) in
            inl (
              d,
              c',
              w',
              rw small refl,
              add_block-Serves blocks made laws owner data_key instance_id mode (c, w) (h, absent),
            )
        | inl full ↦ elim (Option-cases (try_shrink blocks c w)) [
          | inl e ↦ inr (ltb→lt _ _ full, rw (full, e) refl)
          | inr (s, e) ↦
              let (d, c', w') = add_block blocks owner data_key instance_id mode s in
              let room =
                subst (Held blocks made laws key) e
                  (try_shrink-Held blocks made laws key c w (h, absent)) in
              inl (
                d,
                c',
                w',
                rw (full, e) refl,
                add_block-Serves blocks made laws owner data_key instance_id mode s room,
              )
        ]
      ]

  -- The key under which the cache holds a block of a file.
  abbrev pub cache_key : Owner → ℕ → Bytes
  cache_key owner n = make_data_key owner.cluster_id owner.path n ++ owner.instance_id

  serve_cached-lookup :
      (owner : ℕ) (x : CacheItem) (w : W) (c : DataCache)
      → (serve_cached blocks owner x w c).lookup ≡ c.lookup
  unfolding serve_cached
  serve_cached-lookup owner x w c = refl

  get_data_key-Outcome :
      (owner : Owner) (n : ℕ) (mode : Mode) (c : DataCache) (w : W)
      → Coherent c w
      → Outcome (cache_key owner n) (get_data_key blocks owner n mode c w) c w
  unfolding get_data_key
  get_data_key-Outcome owner n mode c w h = elim (Option-cases (c.lookup (cache_key owner n))) [
    | inl absent ↦ inr (
      absent,
      rw (absent, get_data_key)
          (fetch_block-Fetched owner.number (make_data_key owner.cluster_id owner.path n)
            owner.instance_id mode c w h absent),
    )
    | inr (d, at_key) ↦
        let key = cache_key owner n in
        let (x, named, found, b) =
          find_key-find_item (keys blocks made w) key d c.cache (sym (h.looked_up key) ∙ at_key) in
        let c' = serve_cached blocks owner.number x w c in
        let serves : Serves blocks made laws key x.block c' w =
          serve_cached-Serves blocks made laws owner.number key x x w c h (rw b at_key) (rw b named)
            (rw b found) in
        inl (
          d,
          c',
          at_key,
          rw (get_data_key, at_key, found) refl,
          subst (λ k. Serves blocks made laws key k c' w) b serves,
          serve_cached-lookup owner.number x w c,
        )
  ]

  -- The state that a call returns is the one that was described.
  returned :
      (t : ℕ × DataCache × W) (d : ℕ) (c : DataCache) (w : W) {result : Option (ℕ × DataCache × W)}
      → result ≡ some (d, c, w)
      → result ≡ some t
      → Coherent c w
      → Coherent t.1 t.2
  returned t d c w e e' h =
      let same : (d, c, w) ≡ t = cc in subst (λ (s : ℕ × DataCache × W). Coherent s.1 s.2) same h

  Outcome-IsCoherent :
      (key : Bytes) (result : Option (ℕ × DataCache × W)) (c : DataCache) (w : W)
      (t : ℕ × DataCache × W)
      → result ≡ some t
      → Outcome key result c w
      → Coherent t.1 t.2
  Outcome-IsCoherent key result c w t e (inl (d, c', at_key, made_so, serves, same)) =
      returned t d c' w made_so e serves.0
  Outcome-IsCoherent key result c w t e (inr (absent, inl (d, c', w', made_so, serves))) =
      returned t d c' w' made_so e serves.0
  Outcome-IsCoherent key result c w t e (inr (absent, inr (full, undefined))) =
      let no_way : ⊥ = cc in absurd no_way

  Reached-IsCoherent : {c : DataCache} {w : W} → Reached c w → Coherent c w
  Reached-IsCoherent (start capacity w) = new_cache-IsCoherent blocks made laws capacity w
  Reached-IsCoherent (served owner n mode d {c} {c'} {w} {w'} r e) =
      Outcome-IsCoherent (cache_key owner n) _ c w (d, c', w') e
        (get_data_key-Outcome owner n mode c w (Reached-IsCoherent r))
  Reached-IsCoherent (dropped o force {c} {w} r) =
      drop-IsCoherent blocks made laws o force w c (Reached-IsCoherent r)
  Reached-IsCoherent (configured n {c} {w} r) =
      change_capacity-IsCoherent blocks made laws n c w (Reached-IsCoherent r)
  Reached-IsCoherent (used {c} {w} {w'} r ids number) =
      same_keys blocks made c w w' ids number (Reached-IsCoherent r)

  -- After any calls of the methods of a cache, and whatever the files did with its blocks that leaves
  -- them their keys: getDataKey returns a block that has the key of the file's block and stands in
  -- the table under it, where the table agrees with the cached blocks and no two of them have one
  -- key. If a block was cached under the key it is that one, with no call to the outside and no other
  -- entry changed; and if the behaviour is not defined, the key was not cached and the cache was
  -- filled to more than seven tenths.
  pub get_data_key-Reached :
      (owner : Owner) (n : ℕ) (mode : Mode) {c : DataCache} {w : W}
      → Reached c w
      → Outcome (cache_key owner n) (get_data_key blocks owner n mode c w) c w
  get_data_key-Reached owner n mode {c} {w} r =
      get_data_key-Outcome owner n mode c w (Reached-IsCoherent r)
