-- ===== src/Cache/Kept.antt =====
-- The lookup table of the cache agrees with its items whatever is removed (src/DataCache.cc:
-- remove_item, try_shrink).
use kineticio.Prelude.{
  length, ◌-◌, ℕ, zero, suc, ◌+◌, ◌<◌, ◌≡◌, ◌≢◌, ◌*◌, ltb, ==→eq, refl, sym, ap, ◌∙◌, subst, ◌&&◌,
  ok, throw, List, [], ◌∷◌, ◌++◌, Option, none, some, ◌==◌, bytes_eq, if◌then◌else◌, Bool-cases,
  Option-cases, inl, inr, arith, on_if, get_elem?,
}
use mathlib.Core.Path.{fun_ext}
use kineticio.Str.{Bytes}
use kineticio.DataBlock.{Mode}
use kineticio.Cache.{
  force_item, Blocks, is_unneeded, is_expired, CacheItem, DataCache, find_item, erase_item,
  remove_item, shrink_item, shrink_loop, force_clean, force_dirty, force_shrink, try_shrink,
  update_lookup,
}
use kineticio.Cache.Coherent.{
  find_key, Distinct, Apart, Below, find_key-erase_item, Distinct-erase_item, find_item-erase_self,
  find_item-erase_none, find_item-get_elem?, Below-erase_item,
}

-- What the cache relies on of its blocks (src/DataBlock.cc), which are numbered as they are made: the
-- key of a block is changed by reassign alone.
pub record IsBlocks {W : Type 0} (blocks : Blocks W) (made : W → ℕ) : Type 0 where
  pub reassign_self :
      (d : ℕ) (k i : Bytes) (m : Mode) (w : W)
      → blocks.identity d (blocks.reassign d k i m w) ≡ k ++ i
  pub reassign_other :
      (d : ℕ) (k i : Bytes) (m : Mode) (w : W) (e : ℕ)
      → e ≢ d
      → blocks.identity e w ≡ blocks.identity e (blocks.reassign d k i m w)
  pub reassign_made :
      (d : ℕ) (k i : Bytes) (m : Mode) (w : W) → made (blocks.reassign d k i m w) ≡ made w
  pub create_number : (k i : Bytes) (m : Mode) (w : W) → (blocks.create k i m w).0 ≡ made w
  pub create_made : (k i : Bytes) (m : Mode) (w : W) → made (blocks.create k i m w).1 ≡ suc (made w)
  pub create_self :
      (k i : Bytes) (m : Mode) (w : W) → blocks.identity (made w) (blocks.create k i m w).1 ≡ k ++ i
  pub create_other :
      (k i : Bytes) (m : Mode) (w : W) (e : ℕ)
      → e < made w
      → blocks.identity e w ≡ blocks.identity e (blocks.create k i m w).1
  pub flush_same :
      (d : ℕ) (w : W)
      → ((e : ℕ) → blocks.identity e (blocks.flush d w).1 ≡ blocks.identity e w)
        × (made (blocks.flush d w).1 ≡ made w)
  pub try_flush_same :
      (d : ℕ) (w : W)
      → ((e : ℕ) → blocks.identity e (blocks.try_flush d w) ≡ blocks.identity e w)
        × (made (blocks.try_flush d w) ≡ made w)

module _ {W : Type 0} (blocks : Blocks W) (made : W → ℕ) where
  -- The keys of the blocks.
  abbrev pub keys : W → ℕ → Bytes
  keys w d = blocks.identity d w

  -- The table leads to the block that has the key, and no two cached blocks have one key; and no
  -- block stands twice in the cache and the list of unused blocks.
  pub record IsCoherent (c : DataCache) (w : W) : Type 0 where
    pub looked_up : (k : Bytes) → c.lookup k ≡ find_key (keys w) k c.cache
    pub distinct : Distinct (keys w) c.cache
    pub apart : Apart c.cache c.unused_items
    pub below : Below (made w) c.cache
    pub below_unused : Below (made w) c.unused_items

  pub Apart-erase_item :
      (d : ℕ) (used l : List CacheItem) → Apart used l → Apart (erase_item d used) l
  Apart-erase_item d used [] h = tt
  Apart-erase_item d used (y ∷ ys) h =
      (find_item-erase_none (λ e. []) y.block d used h.0, h.1, Apart-erase_item d used ys h.2)

  -- A cached block is none of the unused ones.
  pub Apart-none :
      (d : ℕ) (x : CacheItem) (used l : List CacheItem)
      → find_item d used ≡ some x
      → Apart used l
      → find_item d l ≡ none
  unfolding find_item
  Apart-none d x used [] e h = refl
  Apart-none d x used (y ∷ ys) e h = elim (Bool-cases (y.block == d)) [
    | inl same ↦
        let b : y.block ≡ d = ==→eq y.block d same in
        let gone : find_item d used ≡ none = subst (λ (n : ℕ). find_item n used ≡ none) b h.0 in
        let no_way : ⊥ = cc in absurd no_way
    | inr other ↦ rw (other) (Apart-none d x used ys e h.2)
  ]

  pub find_item-Below_cached :
      (n d : ℕ) (x : CacheItem) (l : List CacheItem) → find_item d l ≡ some x → Below n l → d < n
  unfolding find_item
  find_item-Below_cached n d x [] e h = let no_way : ⊥ = cc in absurd no_way
  find_item-Below_cached n d x (y ∷ ys) e h = ground (arith, find_item-Below_cached n d x ys)

  -- remove_item, whether it keeps the block for later or not.
  pub remove_item-IsCoherent :
      (x y : CacheItem) (c : DataCache) (w : W)
      → find_item x.block c.cache ≡ some y
      → IsCoherent c w
      → IsCoherent (remove_item blocks x w c) w
  unfolding remove_item
  remove_item-IsCoherent x y c w found h =
      let looked : (k : Bytes)
          → update_lookup (blocks.identity x.block w) none c.lookup k
            ≡ find_key (keys w) k (erase_item x.block c.cache) =
        λ k.
          ap (λ (o : Option ℕ). if bytes_eq k (keys w x.block) then none else o) (h.looked_up k)
          ∙ sym (find_key-erase_item (keys w) k x.block y c.cache h.distinct found) in
      let distinct = Distinct-erase_item (keys w) x.block c.cache h.distinct in
      let apart = Apart-erase_item x.block c.cache c.unused_items h.apart in
      let below = Below-erase_item (made w) x.block c.cache h.below in
      on_if (λ (z : DataCache). IsCoherent z w) (ltb c.capacity (10 * c.unused_size)) _ _
        (λ _. record {
          looked_up = looked;
          distinct = distinct;
          apart = apart;
          below = below;
          below_unused = h.below_unused;
        })
        (λ _. record {
          looked_up = looked;
          distinct = distinct;
          apart = (
            find_item-erase_self (keys w) x.block c.cache h.distinct,
            Apart-none x.block y c.cache c.unused_items found h.apart,
            apart,
          );
          below = below;
          below_unused =
              (find_item-Below_cached (made w) x.block y c.cache found h.below, h.below_unused);
        })

  -- A call that changes no key and makes no block.
  pub same_keys :
      (c : DataCache) (w w' : W)
      → ((d : ℕ) → blocks.identity d w' ≡ blocks.identity d w)
      → made w' ≡ made w
      → IsCoherent c w
      → IsCoherent c w'
  same_keys c w w' ids number h =
      let e : keys w ≡ keys w' = fun_ext (λ d. sym (ids d)) in
      record {
        looked_up = λ k. subst (λ f. c.lookup k ≡ find_key f k c.cache) e (h.looked_up k);
        distinct = subst (λ f. Distinct f c.cache) e h.distinct;
        apart = h.apart;
        below = rw number h.below;
        below_unused = rw number h.below_unused;
      }

  -- A key that is not in the table is not in it after a removal.
  remove_item-absent :
      (key : Bytes) (x : CacheItem) (c : DataCache) (w : W)
      → c.lookup key ≡ none
      → (remove_item blocks x w c).lookup key ≡ none
  unfolding remove_item
  remove_item-absent key x c w h = ground arith

  module _ (laws : IsBlocks blocks made) (key : Bytes) where
    -- The invariant of a search for room for a key that is not cached.
    abbrev pub Holds : DataCache × W → Type 0
    Holds s = IsCoherent s.0 s.1 × (s.0.lookup key ≡ none)

    shrink_item-IsCoherent :
        (now i : ℕ) (x : CacheItem) (s : DataCache × W)
        → get_elem? s.0.cache i ≡ some x
        → Holds s
        → Holds (shrink_item blocks now x s)
    unfolding shrink_item
    shrink_item-IsCoherent now i x (c, w) at_i h =
        let (y, found) = find_item-get_elem? (keys w) i x c.cache at_i in
        on_if Holds (is_unneeded blocks now x w) _ _
          (λ _. (remove_item-IsCoherent x y c w found h.0, remove_item-absent key x c w h.1))
          (λ _.
            on_if Holds (blocks.dirty x.block w && is_expired blocks now x) _ _
              (λ _.
                let (ids, number) = laws.try_flush_same x.block w in
                (same_keys c w (blocks.try_flush x.block w) ids number h.0, h.1))
              (λ _. h))

    shrink_loop-IsCoherent :
        (now slots i count : ℕ) (s : DataCache × W)
        → Holds s
        → Holds (shrink_loop blocks now slots i count s)
    unfolding shrink_loop
    shrink_loop-IsCoherent now slots zero count (c, w) h = h
    shrink_loop-IsCoherent now slots (suc i) count (c, w) h =
        on_if Holds (ltb (10 * count) slots) _ _
          (λ _.
            shrink_loop-IsCoherent now slots i (count + 1) _
              (turn (get_elem? c.cache (suc i)) refl))
          (λ _. h)
      where
        turn :
            (o : Option CacheItem)
            → get_elem? c.cache (suc i) ≡ o
            → Holds (elim o [ none ↦ (c, w) | some x ↦ shrink_item blocks now x (c, w) ])
        turn none e = h
        turn (some x) e = shrink_item-IsCoherent now (suc i) x (c, w) e h

    force_clean-same :
        (i : ℕ) (c c' : DataCache) (w : W) → force_clean blocks i c w ≡ some c' → c' ≡ c
    unfolding force_clean
    force_clean-same zero c c' w e = cc
    force_clean-same (suc i) c c' w e = ground (arith, force_clean-same i c c' w)

    abbrev pub Held : Option (DataCache × W) → Type 0
    Held none = Unit {0}
    Held (some s) = Holds s

    force_item-Held :
        (x : CacheItem) (c : DataCache) (rest : W → Option (DataCache × W)) (w : W)
        → ((w' : W) → Holds (c, w') → Held (rest w'))
        → Holds (c, w)
        → Held (force_item blocks x rest w)
    unfolding force_item
    force_item-Held x c rest w keep h =
        let (ids, number) = laws.flush_same x.block w in
        let flushed = same_keys c w (blocks.flush x.block w).1 ids number h.0 in
        on_if Held (blocks.unique x.block w) _ _
          (λ _.
            on_if Held (blocks.dirty x.block w) _ _
              (λ _.
                elim (blocks.flush x.block w).0
                  as (λ r.
                    Held (elim r [ throw e ↦ rest (blocks.flush x.block w).1 | ok _ ↦ none ])) [
                      | throw e ↦ keep (blocks.flush x.block w).1 (flushed, h.1)
                      | ok _ ↦ tt
                    ])
              (λ _. tt))
          (λ _. keep w h)

    force_dirty-Held :
        (i : ℕ) (c : DataCache) (w : W) → Holds (c, w) → Held (force_dirty blocks i c w)
    unfolding force_dirty
    force_dirty-Held zero c w h = h
    force_dirty-Held (suc i) c w h =
        let keep = force_dirty-Held i c in
        on_if Held (ltb c.capacity c.current_size) _ _
          (λ _.
            elim (get_elem? c.cache (suc i))
              as (λ o. Held (elim o [
                | none ↦ force_dirty blocks i c w
                | some x ↦ force_item blocks x (force_dirty blocks i c) w
              ])) [
                | none ↦ keep w h
                | some x ↦ force_item-Held x c (force_dirty blocks i c) w keep h
              ])
          (λ _. h)

    force_shrink-Held : (s : DataCache × W) → Holds s → Held (force_shrink blocks s)
    unfolding force_shrink
    force_shrink-Held (c, w) h =
        on_if Held (ltb c.capacity c.current_size) _ _
          (λ _. elim (Option-cases (force_clean blocks (length c.cache - 1) c w)) [
            | inl e ↦ rw e tt
            | inr (c', e) ↦
                let same = force_clean-same (length c.cache - 1) c c' w e in
                rw e (
                  force_dirty-Held (length c'.cache - 1) c' w
                    (subst (λ z. Holds (z, w)) (sym same) h))
          ])
          (λ _. h)

    -- Where the behaviour of try_shrink is defined, the lookup table agrees with the items after it.
    pub try_shrink-Held : (c : DataCache) (w : W) → Holds (c, w) → Held (try_shrink blocks c w)
    unfolding try_shrink
    try_shrink-Held c w h = elim (Option-cases (get_elem? c.cache (length c.cache - 1))) [
      | inl e ↦ rw (e, try_shrink) tt
      | inr (last, e) ↦
          rw (e, try_shrink)
            (on_if Held (blocks.capacity last.block w == 0) _ _ (λ _. tt)
              (λ _.
                force_shrink-Held _
                  (shrink_loop-IsCoherent (blocks.now w) _ (length c.cache - 1) 0 (c, w) h)))
    ]
