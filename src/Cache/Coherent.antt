-- ===== src/Cache/Coherent.antt =====
-- The items of the cache by their keys (src/DataCache.cc): what the lookup table has to agree with.
use kineticio.Prelude.{
  ℕ, zero, suc, ◌≤◌, ◌<◌, ◌≡◌, ◌≢◌, refl, sym, ap, ◌∙◌, subst, false, List, [], ◌∷◌, Option, none,
  some, ◌==◌, ==→eq, ==_refl, bytes_eq, bytes_eq→eq, bytes_eq_refl, if◌then◌else◌, Bool-cases, inl,
  inr, arith, on_if, get_elem?, Option-cases,
}
use kineticio.Str.{Bytes}
use kineticio.Cache.{CacheItem, find_item, erase_item}

module _ (identity : ℕ → Bytes) where
  -- The first block with a key.
  abbrev pub find_key : Bytes → List CacheItem → Option ℕ
  find_key k [] = none
  find_key k (x ∷ xs) = if bytes_eq k (identity x.block) then some x.block else find_key k xs

  -- No two items have the same key.
  abbrev pub Distinct : List CacheItem → Type 0
  Distinct [] = Unit {0}
  Distinct (x ∷ xs) = (find_key (identity x.block) xs ≡ none) × Distinct xs

  -- A block is found by its key.
  pub find_key_of_find_item :
      (d : ℕ) (x : CacheItem) (xs : List CacheItem)
      → Distinct xs
      → find_item d xs ≡ some x
      → find_key (identity d) xs ≡ some d
  unfolding find_item
  find_key_of_find_item d x [] h e = cc
  find_key_of_find_item d x (y ∷ ys) h e = elim (Bool-cases (y.block == d)) [
    | inl same ↦
        let b : y.block ≡ d = ==→eq y.block d same in rw b (rw (bytes_eq_refl (identity d)) refl)
    | inr other ↦
        let found : find_key (identity d) ys ≡ some d =
          find_key_of_find_item d x ys h.1 (rw (find_item, other) at e) in
        elim (Bool-cases (bytes_eq (identity d) (identity y.block))) [
          | inl eq ↦
              let k : identity d ≡ identity y.block = bytes_eq→eq _ _ eq in
              let no_way : ⊥ = cc (h.0, found, ap (λ (i : Bytes). find_key i ys) k) in absurd no_way
          | inr ne ↦ rw ne found
        ]
  ]

  -- What is found by a key has the key, and is an item.
  pub find_key-find_item :
      (k : Bytes) (d : ℕ) (xs : List CacheItem)
      → find_key k xs ≡ some d
      → (x : CacheItem) × (identity d ≡ k) × (find_item d xs ≡ some x) × (x.block ≡ d)
  unfolding find_item
  find_key-find_item k d [] e = let no_way : ⊥ = cc in absurd no_way
  find_key-find_item k d (y ∷ ys) e = elim (Bool-cases (bytes_eq k (identity y.block))) [
    | inl eq ↦
        let b : y.block ≡ d = cc (rw eq at e) in
        (
          y,
          ap identity (sym b) ∙ sym (bytes_eq→eq k (identity y.block) eq),
          rw (b, ==_refl d) refl,
          b,
        )
    | inr ne ↦
        let (x, at_key, found, b) = find_key-find_item k d ys (rw ne at e) in
        elim (Bool-cases (y.block == d)) [
          | inl same ↦ (y, at_key, rw same refl, ==→eq y.block d same)
          | inr other ↦ (x, at_key, rw other found, b)
        ]
  ]

  -- The keys of the list without a block.
  find_key-erase_none :
      (k : Bytes) (d : ℕ) (xs : List CacheItem)
      → find_key k xs ≡ none
      → find_key k (erase_item d xs) ≡ none
  unfolding erase_item
  find_key-erase_none k d [] e = refl
  find_key-erase_none k d (y ∷ ys) e = ground (arith, find_key-erase_none k d ys)

  pub Distinct-erase_item : (d : ℕ) (xs : List CacheItem) → Distinct xs → Distinct (erase_item d xs)
  unfolding erase_item
  Distinct-erase_item d [] h = tt
  Distinct-erase_item d (y ∷ ys) h =
      on_if Distinct (y.block == d) _ _ (λ _. h.1)
        (λ _. (find_key-erase_none (identity y.block) d ys h.0, Distinct-erase_item d ys h.1))

  two_keys :
      (d : ℕ) (x y : CacheItem) (ys : List CacheItem)
      → Distinct (y ∷ ys)
      → find_item d ys ≡ some x
      → identity y.block ≢ identity d
  two_keys d x y ys h found same =
      let at_d : find_key (identity d) ys ≡ some d = find_key_of_find_item d x ys h.1 found in
      cc (h.0, at_d, ap (λ (i : Bytes). find_key i ys) same)

  pub find_key-erase_item :
      (k : Bytes) (d : ℕ) (x : CacheItem) (xs : List CacheItem)
      → Distinct xs
      → find_item d xs ≡ some x
      → find_key k (erase_item d xs) ≡ (if bytes_eq k (identity d) then none else find_key k xs)
  unfolding find_item erase_item
  find_key-erase_item k d x [] h e = let no_way : ⊥ = cc in absurd no_way
  find_key-erase_item k d x (y ∷ ys) h e = elim (Bool-cases (y.block == d)) [
    | inl same ↦
        let b : y.block ≡ d = ==→eq y.block d same in
        let gone : find_key (identity d) ys ≡ none =
          subst (λ (n : ℕ). find_key (identity n) ys ≡ none) b h.0 in
        elim (Bool-cases (bytes_eq k (identity d))) [
          | inl eq ↦
              let at_k : find_key k ys ≡ none =
                subst (λ (i : Bytes). find_key i ys ≡ none) (sym (bytes_eq→eq k (identity d) eq))
                  gone in
              rw (same, eq) at_k
          | inr ne ↦
              let ne' : bytes_eq k (identity y.block) ≡ false =
                ap (λ (n : ℕ). bytes_eq k (identity n)) b ∙ ne in
              rw (same, ne, ne') refl
        ]
    | inr other ↦
        let found : find_item d ys ≡ some x = rw (find_item, other) at e in
        let ih = find_key-erase_item k d x ys h.1 found in
        elim (Bool-cases (bytes_eq k (identity y.block))) [
          | inl eq ↦ elim (Bool-cases (bytes_eq k (identity d))) [
            | inl eq' ↦ absurd (
                two_keys d x y ys h found
                  (sym (bytes_eq→eq k (identity y.block) eq) ∙ bytes_eq→eq k (identity d) eq'))
            | inr ne ↦ rw (other, eq, ne) refl
          ]
          | inr ne ↦ rw (other, ne) ih
        ]
  ]

  -- A block that is not in the list.
  pub find_item-erase_self :
      (d : ℕ) (xs : List CacheItem) → Distinct xs → find_item d (erase_item d xs) ≡ none
  unfolding find_item erase_item
  find_item-erase_self d [] h = refl
  find_item-erase_self d (y ∷ ys) h = elim (Bool-cases (y.block == d)) [
    | inr other ↦ ground (arith, find_item-erase_self d ys h.1)
    | inl same ↦ elim (Option-cases (find_item d ys)) [
      | inl gone ↦ rw same gone
      | inr (x, found) ↦
          let e : identity y.block ≡ identity d = ap identity (==→eq y.block d same) in
          absurd (two_keys d x y ys h found e)
    ]
  ]

  pub find_item-erase_none :
      (e d : ℕ) (xs : List CacheItem) → find_item e xs ≡ none → find_item e (erase_item d xs) ≡ none
  unfolding find_item erase_item
  find_item-erase_none e d [] h = refl
  find_item-erase_none e d (y ∷ ys) h = ground (arith, find_item-erase_none e d ys)

  -- Where an item stands, its block is found.
  pub find_item-get_elem? :
      (i : ℕ) (x : CacheItem) (xs : List CacheItem)
      → get_elem? xs i ≡ some x
      → (y : CacheItem) × (find_item x.block xs ≡ some y)
  unfolding find_item
  find_item-get_elem? i x [] e = let no_way : ⊥ = cc in absurd no_way
  find_item-get_elem? zero x (y ∷ ys) e =
      let b : y.block ≡ x.block = cc in (y, rw (b, ==_refl x.block) refl)
  find_item-get_elem? (suc i) x (y ∷ ys) e = elim (Bool-cases (y.block == x.block)) [
    | inl same ↦ (y, rw same refl)
    | inr other ↦ let (z, found) = find_item-get_elem? i x ys e in (z, rw other found)
  ]

-- The same keys under two namings of the blocks.
abbrev pub Agree : (ℕ → Bytes) → (ℕ → Bytes) → List CacheItem → Type 0
Agree f g [] = Unit {0}
Agree f g (x ∷ xs) = (f x.block ≡ g x.block) × Agree f g xs

pub find_key-Agree :
    (f g : ℕ → Bytes) (k : Bytes) (xs : List CacheItem)
    → Agree f g xs
    → find_key f k xs ≡ find_key g k xs
find_key-Agree f g k [] h = refl
find_key-Agree f g k (x ∷ xs) h = rw (h.0, find_key-Agree f g k xs h.1) refl

pub Distinct-Agree :
    (f g : ℕ → Bytes) (xs : List CacheItem) → Agree f g xs → Distinct f xs → Distinct g xs
Distinct-Agree f g [] h d = tt
Distinct-Agree f g (x ∷ xs) h d = (
  sym (find_key-Agree f g (g x.block) xs h.1)
      ∙ subst (λ (k : Bytes). find_key f k xs ≡ none) h.0 d.0,
  Distinct-Agree f g xs h.1 d.1,
)

-- All blocks of the list are numbered below `n`.
abbrev pub Below : ℕ → List CacheItem → Type 0
Below n [] = Unit {0}
Below n (x ∷ xs) = (x.block < n) × Below n xs

pub Below-erase_item : (n d : ℕ) (xs : List CacheItem) → Below n xs → Below n (erase_item d xs)
unfolding erase_item
Below-erase_item n d [] h = tt
Below-erase_item n d (x ∷ xs) h =
    on_if (Below n) (x.block == d) _ _ (λ _. h.1) (λ _. (h.0, Below-erase_item n d xs h.1))

pub Below-le : (n m : ℕ) (xs : List CacheItem) → n ≤ m → Below n xs → Below m xs
Below-le n m [] le h = tt
Below-le n m (x ∷ xs) le h = (omega arith, Below-le n m xs le h.1)

-- A block with a number that is not below is none of them.
pub find_item-Below : (n : ℕ) (xs : List CacheItem) → Below n xs → find_item n xs ≡ none
unfolding find_item
find_item-Below n [] h = refl
find_item-Below n (x ∷ xs) h = ground (arith, find_item-Below n xs h.1)

pub Agree-Below :
    (f g : ℕ → Bytes) (n : ℕ) (xs : List CacheItem)
    → ((d : ℕ) → d < n → f d ≡ g d)
    → Below n xs
    → Agree f g xs
Agree-Below f g n [] same h = tt
Agree-Below f g n (x ∷ xs) same h = (same x.block h.0, Agree-Below f g n xs same h.1)

pub Agree-except :
    (f g : ℕ → Bytes) (d : ℕ) (xs : List CacheItem)
    → ((e : ℕ) → e ≢ d → f e ≡ g e)
    → find_item d xs ≡ none
    → Agree f g xs
unfolding find_item
Agree-except f g d [] same h = tt
Agree-except f g d (x ∷ xs) same h = elim (Bool-cases (x.block == d)) [
  | inl eq ↦ let no_way : ⊥ = cc (rw (find_item, eq) at h) in absurd no_way
  | inr ne ↦ (
    same x.block (λ e. cc (ne, ==_refl d, ap (λ (n : ℕ). n == d) e)),
    Agree-except f g d xs same (rw (find_item, ne) at h),
  )
]

-- The blocks of the second list are not in the first, and no two of them are the same.
abbrev pub Apart : List CacheItem → List CacheItem → Type 0
Apart used [] = Unit {0}
Apart used (y ∷ ys) =
    (find_item y.block used ≡ none) × (find_item y.block ys ≡ none) × Apart used ys
