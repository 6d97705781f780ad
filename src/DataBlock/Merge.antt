-- ===== src/DataBlock/Merge.antt =====
-- The merge of the pending changes into a freshly read value (src/DataBlock.cc: getRemoteValue).
use kineticio.Prelude.{
  ℕ, zero, suc, ◌+◌, ◌-◌, ◌≤◌, ◌<◌, max, ◌≡◌, refl, subst, sym, ◌∙◌, ap, ◌⊎◌, inl, inr, false, List,
  [], ◌∷◌, none, some, arith, length, drop, take, ltb, if◌then◌else◌, ok, get_elem?, get_elem?-take,
  length-take, Bool-cases, length-drop, get_elem?-drop, le→not-ltb,
}
use kineticio.Str.{
  Bytes, substr, resize, length-resize, replace, overwrite, replace-overwrite, length-overwrite,
  get_elem?-overwrite_below, get_elem?-overwrite_inside, get_elem?-overwrite_above,
}
use kineticio.ClusterInterface.{ClusterInterface}
use kineticio.DataBlock.{
  DataBlock, replay, merge_updates, accept_remote, remote_size, is_empty, capacity,
}

-- Some pending write covers the position.
abbrev pub Covered : List (ℕ × ℕ) → ℕ → Type 0
Covered [] i = ⊥
Covered ((offset, n) ∷ us) i = ((offset ≤ i) × (i < offset + n)) ⊎ Covered us i

-- Every pending change ends within the size.
abbrev pub Fits : ℕ → List (ℕ × ℕ) → Type 0
Fits size [] = Unit {0}
Fits size ((offset, n) ∷ us) = (offset + n ≤ size) × Fits size us

pub Fits-mono : {m n : ℕ} (us : List (ℕ × ℕ)) → m ≤ n → Fits m us → Fits n us
Fits-mono [] h f = tt
Fits-mono ((offset, k) ∷ us) h (f, g) = (omega arith, Fits-mono us h g)

pub Covered-lt : (us : List (ℕ × ℕ)) (size i : ℕ) → Fits size us → Covered us i → i < size
Covered-lt [] size i f c = elim c [ ]
Covered-lt ((offset, n) ∷ us) size i (f, g) (inl (lo, hi)) = omega arith
Covered-lt ((offset, n) ∷ us) size i (f, g) (inr c) = Covered-lt us size i g c

-- The size after the changes: a truncation sets it, a write extends it.
abbrev pub size_after : List (ℕ × ℕ) → ℕ → ℕ
size_after [] size = size
size_after ((offset, zero) ∷ us) size = size_after us offset
size_after ((offset, suc n) ∷ us) size = size_after us (max (offset + suc n) size)

pub size_after-le :
    (us : List (ℕ × ℕ)) (size bound : ℕ) → Fits bound us → size ≤ bound → size_after us size ≤ bound
size_after-le [] size bound f h = h
size_after-le ((offset, zero) ∷ us) size bound (f, g) h =
    size_after-le us offset bound g (omega arith)
size_after-le ((offset, suc n) ∷ us) size bound (f, g) h =
    size_after-le us (max (offset + suc n) size) bound g (omega arith)

-- A byte is the local one where a pending write covers it, and the remote one elsewhere.
abbrev pub Merged : List (ℕ × ℕ) → Bytes → Bytes → Bytes → Type 0
Merged us v remote m =
    (i : ℕ)
    → (Covered us i × (get_elem? m i ≡ get_elem? v i))
      ⊎ ((¬ Covered us i) × (get_elem? m i ≡ get_elem? remote i))

module _ (v : Bytes) (offset n : ℕ) (m : Bytes) where
  abbrev part : Bytes
  part = take (suc n) (drop offset v)

  module _ (fits : offset + suc n ≤ length v) (room : offset + suc n ≤ length m) where
    length-part : length part ≡ suc n
    length-part = omega (arith, length-take (suc n) (drop offset v), length-drop offset v)

    substr-part : substr offset (suc n) v ≡ ok part
    unfolding substr
    substr-part = rw (le→not-ltb (length v) offset (omega arith))

    replace-part : replace offset (suc n) part m ≡ ok (overwrite offset part m)
    replace-part =
        rw (ap (λ k. replace offset k part m) (sym length-part))
          (replace-overwrite offset part m (omega (arith, length-part)))

    overwrite-part :
        (i : ℕ)
        → ((offset ≤ i)
            × (i < offset + suc n)
            × (get_elem? (overwrite offset part m) i ≡ get_elem? v i))
          ⊎ ((¬ ((offset ≤ i) × (i < offset + suc n)))
              × (get_elem? (overwrite offset part m) i ≡ get_elem? m i))
    overwrite-part i = elim (Bool-cases (ltb i offset)) [
      | inl h ↦ inr (
        λ k. absurd (ground arith),
        get_elem?-overwrite_below offset part m (omega (arith, length-part)) i (ground arith),
      )
      | inr h ↦ elim (Bool-cases (ltb i (offset + suc n))) [
        | inl k ↦
            let j = i - offset in
            let e : offset + j ≡ i = ground arith in
            let q : j < suc n = ground arith in
            inl (
              ground arith,
              ground arith,
              subst (λ l. get_elem? (overwrite offset part m) l ≡ get_elem? v l) e
                  (get_elem?-overwrite_inside offset part m (omega (arith, length-part)) j
                      (omega (arith, length-part))
                    ∙ get_elem?-take (suc n) j (drop offset v) q
                    ∙ get_elem?-drop offset j v),
            )
        | inr k ↦ inr (
          λ l. absurd (ground arith),
          get_elem?-overwrite_above offset part m (omega (arith, length-part)) i
              (let p : offset + suc n ≤ i = ground arith in omega (arith, length-part)),
        )
      ]
    ]

replay_lem :
    (v : Bytes) (us : List (ℕ × ℕ)) (size : ℕ) (m : Bytes)
    → Fits (length v) us
    → Fits (length m) us
    → (m' : Bytes) × (replay (some v) us size m ≡ (ok m', size_after us size))
      × (length m' ≡ length m)
      × Merged us v m m'
unfolding replay
replay_lem v [] size m f g = (m, refl, refl, λ i. inr (λ h. h, refl))
replay_lem v ((offset, zero) ∷ us) size m (f, f') (g, g') =
    let (m', e, l, c) = replay_lem v us offset m f' g' in
    (
      m',
      e,
      l,
      λ i. elim (c i) [
        | inl (p, q) ↦ inl (inr p, q)
        | inr (p, q) ↦ inr (λ h. elim h [ inl x ↦ absurd (omega arith) | inr y ↦ p y ], q)
      ],
    )
replay_lem v ((offset, suc n) ∷ us) size m (f, f') (g, g') =
    let m1 = overwrite offset (part v offset n m) m in
    let same : length m1 ≡ length m =
      length-overwrite offset (part v offset n m) m (omega (arith, length-part v offset n m f g)) in
    let (m', e, l, c) =
      replay_lem v us (max (offset + suc n) size) m1 f' (Fits-mono us (omega (arith, same)) g') in
    (
      m',
      ground (arith, substr-part v offset n m f g, replace-part v offset n m f g, e),
      l ∙ same,
      λ i. elim (c i) [
        | inl (p, q) ↦ inl (inr p, q)
        | inr (p, q) ↦ elim (overwrite-part v offset n m f g i) [
          | inl (lo, hi, r) ↦ inl (inl (lo, hi), q ∙ r)
          | inr (out, r) ↦ inr (λ h. elim h [ inl x ↦ out x | inr y ↦ p y ], q ∙ r)
        ]
      ],
    )

-- The value that the merge starts from.
abbrev pub padded : ℕ → Bytes → Bytes
padded cap remote = if ltb (length remote) cap then resize cap 0 remote else remote

pub length-padded :
    (cap : ℕ) (remote : Bytes)
    → (cap ≤ length (padded cap remote)) × (length remote ≤ length (padded cap remote))
length-padded cap remote = ground (arith, length-resize cap 0 remote)

-- A fetch of an existing value into a block with pending changes, all within its local copy and the
-- capacity, does not throw. It keeps the changes, takes the new version, stamps the block, and its
-- local copy then holds, at each position, the old local byte where a pending write covers it and
-- elsewhere the byte of the fetched value, padded with 0 to the capacity. The size is that of the
-- fetched value after the changes.
pub accept_remote-Merged :
    {W : Type 0} (cluster : ClusterInterface W) (b : DataBlock) (v remote : Bytes) (w : W)
    → b.local_value ≡ some v
    → b.remote_value ≡ some remote
    → is_empty b.updates ≡ false
    → Fits (length v) b.updates
    → Fits (capacity cluster) b.updates
    → (m : Bytes) × (accept_remote cluster false b w ≡ (
      ok tt,
      record b {
        remote_value = none;
        local_value = some m;
        value_size = size_after b.updates (length remote);
        timestamp = cluster.now w;
      },
      w,
    ))
      × (length m ≡ length (padded (capacity cluster) remote))
      × Merged b.updates v (padded (capacity cluster) remote) m
unfolding accept_remote merge_updates remote_size
accept_remote-Merged cluster b v remote w here there pending inside within =
    let (m, e, l, c) =
      replay_lem v b.updates (length remote) (padded (capacity cluster) remote) inside
        (Fits-mono b.updates (length-padded (capacity cluster) remote).0 within) in
    (m, ground (arith, e), l, c)
