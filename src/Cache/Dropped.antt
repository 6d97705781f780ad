-- ===== src/Cache/Dropped.antt =====
-- The cache after an owner dropped its blocks, and when it is new (src/DataCache.cc).
use kineticio.Prelude.{
  ℕ, ◌≡◌, refl, sym, ◌∙◌, subst, Bool, List, [], ◌∷◌, none, some, ◌==◌, Option-cases, inl, inr,
  arith, on_if,
}
use kineticio.Str.{Bytes}
use kineticio.Cache.{
  Blocks, CacheItem, DataCache, find_item, disown, new_cache, change_capacity, drop, drop_each,
}
use kineticio.Cache.Coherent.{find_key, Distinct, Apart, Below}
use kineticio.Cache.Kept.{IsBlocks, IsCoherent, keys, remove_item-IsCoherent}

-- An owner that leaves changes no key and no block.
module _ (o d : ℕ) where
  find_key-disown :
      (f : ℕ → Bytes) (k : Bytes) (xs : List CacheItem)
      → find_key f k (disown o d xs) ≡ find_key f k xs
  unfolding disown
  find_key-disown f k [] = refl
  find_key-disown f k (x ∷ xs) = ground (arith, find_key-disown f k xs)

  Distinct-disown :
      (f : ℕ → Bytes) (xs : List CacheItem) → Distinct f xs → Distinct f (disown o d xs)
  unfolding disown
  Distinct-disown f [] h = tt
  Distinct-disown f (x ∷ xs) h =
      on_if (Distinct f) (x.block == d) _ _ (λ _. h)
        (λ _. (find_key-disown f (f x.block) xs ∙ h.0, Distinct-disown f xs h.1))

  Below-disown : (n : ℕ) (xs : List CacheItem) → Below n xs → Below n (disown o d xs)
  unfolding disown
  Below-disown n [] h = tt
  Below-disown n (x ∷ xs) h = ground (arith, Below-disown n xs h.1)

  find_item-disown :
      (e : ℕ) (xs : List CacheItem) → find_item e xs ≡ none → find_item e (disown o d xs) ≡ none
  unfolding disown find_item
  find_item-disown e [] h = refl
  find_item-disown e (x ∷ xs) h = ground (arith, find_item-disown e xs)

  Apart-disown : (xs l : List CacheItem) → Apart xs l → Apart (disown o d xs) l
  Apart-disown xs [] h = tt
  Apart-disown xs (y ∷ ys) h = (find_item-disown y.block xs h.0, h.1, Apart-disown xs ys h.2)

module _ {W : Type 0} (blocks : Blocks W) (made : W → ℕ) (laws : IsBlocks blocks made) where
  abbrev Coherent : DataCache → W → Type 0
  Coherent = IsCoherent blocks made

  disown-IsCoherent :
      (o d : ℕ) (c : DataCache) (w : W)
      → Coherent c w
      → Coherent (record c { cache = disown o d c.cache }) w
  disown-IsCoherent o d c w h = record {
    looked_up = λ k. h.looked_up k ∙ sym (find_key-disown o d (keys blocks made w) k c.cache);
    distinct = Distinct-disown o d (keys blocks made w) c.cache h.distinct;
    apart = Apart-disown o d c.cache c.unused_items h.apart;
    below = Below-disown o d (made w) c.cache h.below;
    below_unused = h.below_unused;
  }

  find_item_block :
      (d : ℕ) (x : CacheItem) (xs : List CacheItem) → find_item d xs ≡ some x → x.block ≡ d
  unfolding find_item
  find_item_block d x [] e = let no_way : ⊥ = cc in absurd no_way
  find_item_block d x (y ∷ ys) e = ground (arith, find_item_block d x ys)

  drop_each-IsCoherent :
      (o : ℕ) (force : Bool) (w : W) (ds : List ℕ) (c : DataCache)
      → Coherent c w
      → Coherent (drop_each blocks o force w ds c) w
  unfolding drop_each
  drop_each-IsCoherent o force w [] c h = h
  drop_each-IsCoherent o force w (d ∷ ds) c h =
      let c' = record c { cache = disown o d c.cache } in
      let h' : Coherent c' w = disown-IsCoherent o d c w h in
      drop_each-IsCoherent o force w ds _ (
        on_if (λ z. Coherent z w) force _ _
          (λ _. elim (Option-cases (find_item d c'.cache)) [
            | inl e ↦ rw e h'
            | inr (x, e) ↦
                let found : find_item x.block c'.cache ≡ some x =
                  subst (λ n. find_item n c'.cache ≡ some x) (sym (find_item_block d x c'.cache e))
                    e in
                rw e (remove_item-IsCoherent blocks made x x c' w found h')
          ])
          (λ _. h'))

  pub drop-IsCoherent :
      (o : ℕ) (force : Bool) (w : W) (c : DataCache)
      → Coherent c w
      → Coherent (drop blocks o force w c) w
  unfolding drop
  drop-IsCoherent o force w c h =
      let h' = drop_each-IsCoherent o force w (c.owner_tables o) c h in
      record {
        looked_up = h'.looked_up;
        distinct = h'.distinct;
        apart = h'.apart;
        below = h'.below;
        below_unused = h'.below_unused;
      }

  pub new_cache-IsCoherent : (capacity : ℕ) (w : W) → Coherent (new_cache capacity) w
  unfolding new_cache
  new_cache-IsCoherent capacity w = record {
    looked_up = λ k. refl;
    distinct = tt;
    apart = tt;
    below = tt;
    below_unused = tt;
  }

  pub change_capacity-IsCoherent :
      (n : ℕ) (c : DataCache) (w : W) → Coherent c w → Coherent (change_capacity n c) w
  unfolding change_capacity
  change_capacity-IsCoherent n c w h = record {
    looked_up = h.looked_up;
    distinct = h.distinct;
    apart = h.apart;
    below = h.below;
    below_unused = h.below_unused;
  }
