-- ===== src/DataBlock/Content.antt =====
-- What a block holds between its methods, and that write and read keep to it.
use kineticio.Prelude.{
  ℕ, ◌+◌, ◌≤◌, ◌<◌, max, ◌≡◌, refl, subst, sym, ◌∙◌, ◌⊎◌, inl, inr, [], ◌∷◌, ◌++◌, none, some,
  arith, length, take, replicate, ltb, if◌then◌else◌, ok, throw, invalid_argument, get_elem?,
  get_elem?-take, le→not-ltb, Option-cases,
}
use kineticio.Str.{
  Bytes, size_mod, size_add, resize, overwrite, replace-overwrite, length-overwrite, length-resize,
  get_elem?-resize, get_elem?-overwrite_below, get_elem?-overwrite_inside,
  get_elem?-overwrite_above,
}
use kineticio.ClusterInterface.{ClusterInterface}
use kineticio.DataBlock.{DataBlock, capacity}
use kineticio.DataBlock.Changes.{make_local, store, store_local, write}

-- The bytes that the methods work on: the local copy, or else the remote value.
abbrev pub backing : DataBlock → Bytes
backing b = elim b.local_value [
  | some v ↦ v
  | none ↦ elim b.remote_value [ some r ↦ r | none ↦ [] ]
]

-- The block's contents.
abbrev pub content : DataBlock → Bytes
content b = take b.value_size (backing b)

-- The size is backed by bytes, and within the capacity.
pub record IsBacked (cap : ℕ) (b : DataBlock) : Type 0 where
  pub backed : b.value_size ≤ length (backing b)
  pub within : b.value_size ≤ cap

-- The local copy before it grows.
abbrev pub base : ℕ → DataBlock → Bytes
base cap b = elim b.local_value [
  | some v ↦ v
  | none ↦ elim b.remote_value [ some r ↦ r | none ↦ replicate cap 48 ]
]

abbrev grow : ℕ → ℕ → Bytes → Bytes
grow cap size v = if ltb (length v) size then resize cap 0 v else v

length-grow : (cap size : ℕ) (v : Bytes) → size ≤ cap → size ≤ length (grow cap size v)
length-grow cap size v h = ground (arith, length-resize cap 0 v)

get_elem?-grow :
    (cap size : ℕ) (v : Bytes) (i : ℕ)
    → i < length v
    → i < cap
    → get_elem? (grow cap size v) i ≡ get_elem? v i
get_elem?-grow cap size v i h k = ground (arith, get_elem?-resize cap 0 v i)

length-base : (cap : ℕ) (b : DataBlock) → length (backing b) ≤ length (base cap b)
length-base cap b = ground arith

get_elem?-base :
    (cap : ℕ) (b : DataBlock) (i : ℕ)
    → i < length (backing b)
    → get_elem? (base cap b) i ≡ get_elem? (backing b) i
get_elem?-base cap b i h = ground arith

module _ {W : Type 0} (cluster : ClusterInterface W) (buffer : Bytes) (offset : ℕ) where
  abbrev cap : ℕ
  cap = capacity cluster

  abbrev new_size : DataBlock → ℕ
  new_size b = max (offset + length buffer) b.value_size

  abbrev new_local : DataBlock → Bytes
  new_local b = overwrite offset buffer (grow cap (new_size b) (base cap b))

  -- The block after a write that is accepted.
  abbrev pub written : DataBlock → DataBlock
  written b = record b {
    value_size = new_size b;
    local_value = some (new_local b);
    remote_value = elim b.local_value [ some _ ↦ b.remote_value | none ↦ none ];
    updates = b.updates ++ (offset, length buffer) ∷ [];
  }

  store_lem :
      (b : DataBlock) (v : Bytes)
      → b.value_size ≤ cap
      → offset + length buffer ≤ b.value_size
      → store cluster buffer offset b v ≡ (
        ok tt,
        record b {
          local_value = some (overwrite offset buffer (grow cap b.value_size v));
          updates = b.updates ++ (offset, length buffer) ∷ [];
        },
      )
  unfolding store
  store_lem b v h k = rw (
    replace-overwrite offset buffer (grow cap b.value_size v)
        (omega (arith, length-grow cap b.value_size v h)),
    store,
  )

  store_base :
      (b : DataBlock)
      → b.value_size ≤ cap
      → offset + length buffer ≤ b.value_size
      → store_local cluster buffer offset (make_local cluster b) ≡ (
        ok tt,
        record b {
          local_value = some (overwrite offset buffer (grow cap b.value_size (base cap b)));
          remote_value = elim b.local_value [ some _ ↦ b.remote_value | none ↦ none ];
          updates = b.updates ++ (offset, length buffer) ∷ [];
        },
      )
  unfolding make_local store_local
  store_base b h k = elim (Option-cases b.local_value) [
    | inr (v, e) ↦ ground (arith, store_lem b v h k)
    | inl e ↦ elim (Option-cases b.remote_value) [
      | inl f ↦ ground (
        arith,
        store_lem (record b { local_value = some (replicate cap 48) }) (replicate cap 48) h k,
      )
      | inr (r, f) ↦
          ground (arith, store_lem (record b { local_value = some r; remote_value = none }) r h k)
    ]
  ]

  pub write-written :
      (b : DataBlock)
      → offset + length buffer ≤ cap
      → b.value_size ≤ cap
      → cap < size_mod
      → write cluster (some buffer) offset b ≡ (ok tt, written b)
  unfolding write
  write-written b h k l =
      let e : size_add offset (length buffer) ≡ offset + length buffer = omega arith in
      subst
        (λ (end : ℕ).
          (if ltb cap end
            then (throw invalid_argument, b)
            else store_local cluster buffer offset
                (make_local cluster (record b { value_size = max end b.value_size })))
          ≡ (ok tt, written b))
        (sym e)
        (rw (le→not-ltb cap (offset + length buffer) h)
          (store_base (record b { value_size = new_size b }) (omega arith) (omega arith)))

  -- Below the offset, the bytes are those that the write started from.
  pub content-written-base :
      (b : DataBlock) (i : ℕ)
      → b.value_size ≤ cap
      → offset + length buffer ≤ cap
      → i < offset
      → i < length (base cap b)
      → get_elem? (content (written b)) i ≡ get_elem? (base cap b) i
  content-written-base b i h k below here =
      get_elem?-take (new_size b) i (new_local b) (omega arith)
      ∙ get_elem?-overwrite_below offset buffer _
          (omega (arith, length-grow cap (new_size b) (base cap b) (omega arith))) i below
      ∙ get_elem?-grow cap (new_size b) (base cap b) i here (omega arith)

  module _ (b : DataBlock) (valid : IsBacked cap b) (fits : offset + length buffer ≤ cap) where
    grown : new_size b ≤ length (grow cap (new_size b) (base cap b))
    grown = length-grow cap (new_size b) (base cap b) (omega arith)

    copied : offset + length buffer ≤ length (grow cap (new_size b) (base cap b))
    copied = omega (arith, grown)

    pub written-IsBacked : IsBacked cap (written b)
    written-IsBacked = record {
      backed = omega (arith, grown, length-overwrite offset buffer _ copied);
      within = omega arith;
    }

    -- The bytes of the buffer are the content at the offset,
    pub content-written_inside :
        (i : ℕ)
        → i < length buffer
        → get_elem? (content (written b)) (offset + i) ≡ get_elem? buffer i
    content-written_inside i h =
        get_elem?-take (new_size b) (offset + i) (new_local b) (omega arith)
        ∙ get_elem?-overwrite_inside offset buffer _ copied i h

    kept :
        (i : ℕ)
        → i < b.value_size
        → get_elem? (grow cap (new_size b) (base cap b)) i ≡ get_elem? (content b) i
    kept i h =
        get_elem?-grow cap (new_size b) (base cap b) i (omega (arith, length-base cap b))
          (omega arith)
        ∙ get_elem?-base cap b i (omega arith)
        ∙ sym (get_elem?-take b.value_size i (backing b) h)

    -- and the bytes of the old content that it does not reach stay.
    pub content-written_outside :
        (i : ℕ)
        → i < b.value_size
        → (i < offset) ⊎ (offset + length buffer ≤ i)
        → get_elem? (content (written b)) i ≡ get_elem? (content b) i
    content-written_outside i h (inl below) =
        get_elem?-take (new_size b) i (new_local b) (omega arith)
        ∙ get_elem?-overwrite_below offset buffer _ copied i below
        ∙ kept i h
    content-written_outside i h (inr above) =
        get_elem?-take (new_size b) i (new_local b) (omega arith)
        ∙ get_elem?-overwrite_above offset buffer _ copied i above
        ∙ kept i h

-- A write that fits the capacity is accepted on a well-formed block. Afterwards the block is well
-- formed, its size covers the write, the content at the offset is the buffer, every other byte of
-- the old content is as it was, and the change is the last of the updates.
pub content-write :
    {W : Type 0} (cluster : ClusterInterface W) (buffer : Bytes) (offset : ℕ) (b : DataBlock)
    → IsBacked (capacity cluster) b
    → offset + length buffer ≤ capacity cluster
    → capacity cluster < size_mod
    → let (result, b') = write cluster (some buffer) offset b in
      (result ≡ ok tt)
      × IsBacked (capacity cluster) b'
      × (b'.value_size ≡ max (offset + length buffer) b.value_size)
      × ((i : ℕ) → i < length buffer → get_elem? (content b') (offset + i) ≡ get_elem? buffer i)
      × ((i : ℕ)
          → i < b.value_size
          → (i < offset) ⊎ (offset + length buffer ≤ i)
          → get_elem? (content b') i ≡ get_elem? (content b) i)
      × (b'.updates ≡ b.updates ++ (offset, length buffer) ∷ [])
content-write cluster buffer offset b valid fits small =
    rw (write-written cluster buffer offset b fits valid.within small) (
      refl,
      written-IsBacked cluster buffer offset b valid fits,
      refl,
      content-written_inside cluster buffer offset b valid fits,
      content-written_outside cluster buffer offset b valid fits,
      refl,
    )
