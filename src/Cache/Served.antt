-- ===== src/Cache/Served.antt =====
-- The block that a file is given for a key (src/DataCache.cc: getDataKey, drop).
use kineticio.Prelude.{
  ℕ, suc, ◌<◌, ◌≡◌, ◌⊎◌, refl, sym, ap, ◌∙◌, subst, List, [], ◌∷◌, ◌++◌, none, some, ◌==◌, bytes_eq,
  bytes_eq→eq, bytes_eq_refl, if◌then◌else◌, Bool-cases, inl, inr, arith,
}
use kineticio.Str.{Bytes}
use kineticio.DataBlock.{Mode}
use kineticio.Cache.{Blocks, CacheItem, DataCache, find_item, erase_item}
use kineticio.Cache.Fetch.{serve_cached, insert_block, add_block}
use kineticio.Cache.Coherent.{
  find_key, Apart, Below, find_key-erase_item, Distinct-erase_item, Below-erase_item, Below-le,
  find_item-Below, Agree-Below, Agree-except, find_key-Agree, Distinct-Agree, Agree,
}
use kineticio.Cache.Kept.{
  IsBlocks, IsCoherent, keys, Holds, Apart-none, Apart-erase_item, find_item-Below_cached,
}

list_cases :
    (l : List CacheItem) → (l ≡ []) ⊎ ((x : CacheItem) × (xs : List CacheItem) × (l ≡ x ∷ xs))
list_cases [] = inl refl
list_cases (x ∷ xs) = inr (x, xs, refl)

module _ {W : Type 0} (blocks : Blocks W) (made : W → ℕ) (laws : IsBlocks blocks made) where
  abbrev Coherent : DataCache → W → Type 0
  Coherent = IsCoherent blocks made

  -- The block of the key is cached, and the table leads to it.
  abbrev pub Serves : Bytes → ℕ → DataCache → W → Type 0
  Serves key d c w = Coherent c w × (c.lookup key ≡ some d) × (blocks.identity d w ≡ key)

  abbrev pub ServesKey : Bytes → ℕ × DataCache × W → Type 0
  ServesKey key (d, c, w) = Serves key d c w

  Apart-cons :
      (d : ℕ) (x : CacheItem) (used l : List CacheItem)
      → x.block ≡ d
      → find_item d l ≡ none
      → Apart used l
      → Apart (x ∷ used) l
  unfolding find_item
  Apart-cons d x used [] e h a = tt
  Apart-cons d x used (y ∷ ys) e h a = elim (Bool-cases (y.block == d)) [
    | inl same ↦ let no_way : ⊥ = cc (rw (find_item, same) at h) in absurd no_way
    | inr other ↦ (ground (arith), a.1, Apart-cons d x used ys e (rw (find_item, other) at h) a.2)
  ]

  -- A new item for a block that is neither cached nor unused, under a key that is not cached.
  insert_block-Serves :
      (owner : ℕ) (key : Bytes) (d : ℕ) (w : W) (c : DataCache)
      → Coherent c w
      → c.lookup key ≡ none
      → blocks.identity d w ≡ key
      → d < made w
      → find_item d c.cache ≡ none
      → find_item d c.unused_items ≡ none
      → ServesKey key (insert_block blocks owner key d w c)
  unfolding insert_block
  insert_block-Serves owner key d w c h absent named number new spare = (
    record {
      looked_up = λ k. rw (named, h.looked_up k) refl;
      distinct = (rw named (sym (h.looked_up key) ∙ absent), h.distinct);
      apart = Apart-cons d _ c.cache c.unused_items refl spare h.apart;
      below = (number, h.below);
      below_unused = h.below_unused;
    },
    rw (bytes_eq_refl key) refl,
    named,
  )

  -- A cached block, moved to the front.
  pub serve_cached-Serves :
      (owner : ℕ) (key : Bytes) (x y : CacheItem) (w : W) (c : DataCache)
      → Coherent c w
      → c.lookup key ≡ some x.block
      → blocks.identity x.block w ≡ key
      → find_item x.block c.cache ≡ some y
      → Serves key x.block (serve_cached blocks owner x w c) w
  unfolding serve_cached
  serve_cached-Serves owner key x y w c h at_key named found =
      let rest : (k : Bytes)
          → find_key (keys blocks made w) k (erase_item x.block c.cache)
            ≡ (if bytes_eq k key then none else find_key (keys blocks made w) k c.cache) =
        λ k.
          find_key-erase_item (keys blocks made w) k x.block y c.cache h.distinct found
          ∙ (rw named refl) in
      (
        record {
          looked_up = λ k. elim (Bool-cases (bytes_eq k key)) [
            | inl eq ↦ rw (named, eq) (ap c.lookup (bytes_eq→eq k key eq) ∙ at_key)
            | inr ne ↦ rw (named, ne) (h.looked_up k ∙ sym (rest k ∙ (rw ne refl)))
          ];
          distinct = (
            rw named (rest key ∙ rw (bytes_eq_refl key) refl),
            Distinct-erase_item (keys blocks made w) x.block c.cache h.distinct,
          );
          apart =
              Apart-cons x.block _ (erase_item x.block c.cache) c.unused_items refl
                (Apart-none blocks made x.block y c.cache c.unused_items found h.apart)
                (Apart-erase_item blocks made x.block c.cache c.unused_items h.apart);
          below = (
            find_item-Below_cached blocks made (made w) x.block y c.cache found h.below,
            Below-erase_item (made w) x.block c.cache h.below,
          );
          below_unused = h.below_unused;
        },
        at_key,
        named,
      )

  -- The invariant where the keys of the cached blocks are the same.
  renamed :
      (c : DataCache) (f g : ℕ → Bytes)
      → Agree f g c.cache
      → ((k : Bytes) → c.lookup k ≡ find_key f k c.cache)
      → (k : Bytes) → c.lookup k ≡ find_key g k c.cache
  renamed c f g a h k = h k ∙ find_key-Agree f g k c.cache a

  -- A block that is made for the key.
  create-Serves :
      (owner : ℕ) (data_key instance_id : Bytes) (mode : Mode) (c : DataCache) (w : W)
      → Coherent c w
      → c.lookup (data_key ++ instance_id) ≡ none
      → let (d, w') = blocks.create data_key instance_id mode w in
        ServesKey
          (data_key ++ instance_id)
          (insert_block blocks owner (data_key ++ instance_id) d w' c)
  create-Serves owner data_key instance_id mode c w h absent =
      let key = data_key ++ instance_id in
      let w' = (blocks.create data_key instance_id mode w).1 in
      let number : made w' ≡ suc (made w) = laws.create_made data_key instance_id mode w in
      let agree : Agree (keys blocks made w) (keys blocks made w') c.cache =
        Agree-Below _ _ (made w) c.cache
          (λ d lt. laws.create_other data_key instance_id mode w d lt) h.below in
      let coherent : Coherent c w' = record {
        looked_up = renamed c (keys blocks made w) (keys blocks made w') agree h.looked_up;
        distinct = Distinct-Agree _ _ c.cache agree h.distinct;
        apart = h.apart;
        below = Below-le (made w) (made w') c.cache (omega arith) h.below;
        below_unused = Below-le (made w) (made w') c.unused_items (omega arith) h.below_unused;
      } in
      subst (λ d. ServesKey key (insert_block blocks owner key d w' c))
        (sym (laws.create_number data_key instance_id mode w))
        (insert_block-Serves owner key (made w) w' c coherent absent
          (laws.create_self data_key instance_id mode w) (omega arith)
          (find_item-Below (made w) c.cache h.below)
          (find_item-Below (made w) c.unused_items h.below_unused))

  -- An unused block that is given the key.
  reassign-Serves :
      (owner n : ℕ) (data_key instance_id : Bytes) (mode : Mode) (x : CacheItem)
      (xs : List CacheItem) (c : DataCache) (w : W)
      → Coherent c w
      → c.lookup (data_key ++ instance_id) ≡ none
      → c.unused_items ≡ x ∷ xs
      → ServesKey (data_key ++ instance_id) (
          insert_block blocks owner
            (data_key ++ instance_id)
            x.block
            (blocks.reassign x.block data_key instance_id mode w)
            (record c { unused_size = n; unused_items = xs }))
  reassign-Serves owner n data_key instance_id mode x xs c w h absent e =
      let key = data_key ++ instance_id in
      let w' = blocks.reassign x.block data_key instance_id mode w in
      let number : made w' ≡ made w = laws.reassign_made x.block data_key instance_id mode w in
      let (new, alone, apart) : Apart c.cache (x ∷ xs) = subst (Apart c.cache) e h.apart in
      let (lt, below_unused) : Below (made w) (x ∷ xs) = subst (Below (made w)) e h.below_unused in
      let agree : Agree (keys blocks made w) (keys blocks made w') c.cache =
        Agree-except _ _ x.block c.cache
          (λ d ne. laws.reassign_other x.block data_key instance_id mode w d ne) new in
      insert_block-Serves owner key x.block w' (record c { unused_size = n; unused_items = xs })
        (record {
          looked_up = renamed c (keys blocks made w) (keys blocks made w') agree h.looked_up;
          distinct = Distinct-Agree _ _ c.cache agree h.distinct;
          apart = apart;
          below = rw number h.below;
          below_unused = rw number below_unused;
        })
        absent (laws.reassign_self x.block data_key instance_id mode w) (rw number lt) new alone

  pub add_block-Serves :
      (owner : ℕ) (data_key instance_id : Bytes) (mode : Mode) (s : DataCache × W)
      → Holds blocks made laws (data_key ++ instance_id) s
      → ServesKey (data_key ++ instance_id) (add_block blocks owner data_key instance_id mode s)
  unfolding add_block
  add_block-Serves owner data_key instance_id mode (c, w) (h, absent) =
      elim (list_cases c.unused_items) [
        | inl e ↦ rw (e, add_block) (create-Serves owner data_key instance_id mode c w h absent)
        | inr (x, xs, e) ↦
            rw (e, add_block)
              (reassign-Serves owner _ data_key instance_id mode x xs c w h absent e)
      ]
