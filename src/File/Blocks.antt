-- ===== src/File/Blocks.antt =====
-- The blocks of src/DataBlock.cc in the place of the calls of a file (src/FileIo.cc): all its blocks
-- are cached and younger than the expiration time, and the background threads have not run yet.
use kineticio.Prelude.{
  ℕ, zero, suc, ◌+◌, ◌-◌, ◌≤◌, ◌<◌, ◌≡◌, refl, sym, ap, ◌∙◌, subst, inl, inr, ◌⊎◌, true, false, [],
  ◌∷◌, Option, none, some, ok, throw, Result, length, length-take, arith, ◌==◌, ==→eq,
  if◌then◌else◌, get_elem?, get_elem?-beyond, get_elem?_ext, Bool-cases, ltb,
}
use mathlib.Core.Path.{fun_ext}
use kineticio.Str.{Bytes, size_mod}
use kineticio.Kinetic.{status_ok}
use kineticio.ClusterInterface.{ClusterInterface}
use kineticio.DataBlock.{DataBlock, capacity, expiration_time, read, size}
use kineticio.DataBlock.Changes.{write}
use kineticio.DataBlock.Content.{
  IsBacked, content, backing, written, write-written, written-IsBacked, content-written_inside,
  content-written_outside,
}
use kineticio.DataBlock.Reading.{Shows, read-Shows, refresh_young}
use kineticio.File.Services.{Services}
use kineticio.File.Flat.{overlay, overlay_outside, slice, length-slice}
use kineticio.File.Store.{View, Store, Keeps, Keeps-refl}

-- The byte at a position, and 0 past the end.
abbrev pub byte_at : Bytes → ℕ → ℕ
byte_at v y = elim (get_elem? v y) [ none ↦ 0 | some x ↦ x ]

get_elem?-slice :
    (position n : ℕ) (f : ℕ → ℕ) (i : ℕ)
    → i < n
    → get_elem? (slice position n f) i ≡ some (f (position + i))
get_elem?-slice position zero f i h = absurd (omega arith)
get_elem?-slice position (suc n) f zero h = ap (λ x. some (f x)) (omega arith)
get_elem?-slice position (suc n) f (suc i) h =
    get_elem?-slice (position + 1) n f i (omega arith) ∙ ap (λ x. some (f x)) (omega arith)

overlay_inside :
    (position : ℕ) (bs : Bytes) (f : ℕ → ℕ) (i : ℕ)
    → i < length bs
    → overlay position bs f (position + i) ≡ byte_at bs i
overlay_inside position [] f i h = absurd (omega arith)
overlay_inside position (b ∷ bs) f zero h =
    let e : (position + 0 == position) ≡ true = ground arith in rw e refl
overlay_inside position (b ∷ bs) f (suc i) h =
    let e : (position + suc i == position) ≡ false = ground arith in
    let next : position + suc i ≡ position + 1 + i = omega arith in
    rw e
      (ap (overlay (position + 1) bs f) next ∙ overlay_inside (position + 1) bs f i (omega arith))

byte_at-some : (v : Bytes) (y : ℕ) → y < length v → get_elem? v y ≡ some (byte_at v y)
byte_at-some [] y h = absurd (omega arith)
byte_at-some (x ∷ v) zero h = refl
byte_at-some (x ∷ v) (suc y) h = byte_at-some v y (omega arith)

-- All blocks of a file, by their numbers.
abbrev pub Blocks : Type 0
Blocks = ℕ → DataBlock

abbrev update : ℕ → DataBlock → Blocks → Blocks
update n b w k = if k == n then b else w k

update_same : (n : ℕ) (w : Blocks) → w ≡ update n (w n) w
update_same n w =
    fun_ext
      λ k. elim (Bool-cases (k == n)) [ inl e ↦ rw e (ap w (==→eq k n e)) | inr e ↦ rw e refl ]

module _ {U : Type 0} (cluster : ClusterInterface U) (u : U)
    (small : capacity cluster < size_mod) where
  abbrev pub block_services : Services Blocks
  block_services = record {
    id = [];
    max_value_size = capacity cluster;
    max_range_elements = 100;
    put_versioned = λ key version value w. (status_ok, w);
    put = λ key value w. (status_ok, w);
    get_version = λ key w. (status_ok, w);
    get = λ key w. (status_ok, [], w);
    remove = λ key w. (status_ok, w);
    range = λ start end elements w. (status_ok, [], w);
    flush_cluster = λ w. w;
    get_data_key = λ n mode w. (n, w);
    flush_blocks = λ w. (ok tt, w);
    drop_blocks = λ force w. w;
    current_size = λ w. 0;
    cache_capacity = λ w. 100;
    read_block = λ h buffer offset w.
        let (r, b, _) = read cluster (some buffer) offset (w h) u in (r, update h b w);
    write_block = λ h bytes offset w.
        let (r, b) = write cluster (some bytes) offset (w h) in (r, update h b w);
    size_block = λ h w. let (r, b, _) = size cluster (w h) u in (r, update h b w);
    truncate_block = λ h size w. (ok tt, w);
    dirty_block = λ h w. false;
    try_read_ahead = λ h w. w;
    run_flush = λ h w. w;
    next_exception = λ w. (none, w);
    readahead_window = 2;
    now = λ w. cluster.now u;
    walk = λ ds. ds;
  }

  -- A block that is not asked for anew by a read.
  pub record IsYoung (b : DataBlock) : Type 0 where
    pub backed : IsBacked (capacity cluster) b
    pub young : cluster.now u - b.timestamp < expiration_time

  abbrev pub block_view : View Blocks
  block_view = record {
    byte = λ w n y. byte_at (content (w n)) y;
    size = λ w n. (w n).value_size;
    Good = λ w. (n : ℕ) → IsYoung (w n);
    Names = λ w h n. h ≡ n;
  }

  unchanged : (w w' : Blocks) → ((n : ℕ) → IsYoung (w n)) → w ≡ w' → Keeps block_view w w'
  unchanged w w' good same = subst (Keeps block_view w) same (Keeps-refl block_view w good)

  length-content : (b : DataBlock) → IsYoung b → length (content b) ≡ b.value_size
  length-content b h = omega (arith, length-take b.value_size (backing b), h.backed.backed)

  read-block :
      (b : DataBlock) (buffer : Bytes) (offset : ℕ)
      → IsYoung b
      → offset + length buffer ≤ capacity cluster
      → (out : Bytes) × (read cluster (some buffer) offset b u ≡ (ok out, b, u))
        × Shows out (length buffer) offset b
  read-block b buffer offset h fits =
      read-Shows cluster offset buffer b b u u fits small (refresh_young cluster offset b u h.young)
        h.backed

  Shows-slice :
      (out : Bytes) (n offset : ℕ) (b : DataBlock)
      → IsYoung b
      → Shows out n offset b
      → out ≡ slice offset n (byte_at (content b))
  Shows-slice out n offset b h s =
      let whole = length-content b h in
      let sized = length-slice offset n (byte_at (content b)) in
      get_elem?_ext out (slice offset n (byte_at (content b))) λ i. elim (Bool-cases (ltb i n)) [
        | inr e ↦
            let past : n ≤ i = ground arith in
            get_elem?-beyond out i (omega (arith, s.sized))
            ∙ sym (get_elem?-beyond (slice offset n (byte_at (content b))) i (omega (arith, sized)))
        | inl e ↦
            let below : i < n = ground arith in
            let at = get_elem?-slice offset n (byte_at (content b)) i below in
            elim (Bool-cases (ltb (offset + i) b.value_size)) [
              | inl f ↦
                  let inside : offset + i < b.value_size = ground arith in
                  s.shown i below inside
                  ∙ byte_at-some (content b) (offset + i) (omega (arith, whole))
                  ∙ sym at
              | inr f ↦
                  let beyond : b.value_size ≤ offset + i = ground arith in
                  s.zeroed i below beyond
                  ∙ ap (λ (o : Option ℕ). some (elim o [ none ↦ 0 | some x ↦ x ]))
                      (sym (get_elem?-beyond (content b) (offset + i) (omega (arith, whole))))
                  ∙ sym at
            ]
      ]

  written-IsYoung :
      (b : DataBlock) (bytes : Bytes) (offset : ℕ)
      → IsYoung b
      → offset + length bytes ≤ capacity cluster
      → IsYoung (written cluster bytes offset b)
  written-IsYoung b bytes offset h fits = record {
    backed = written-IsBacked cluster bytes offset b h.backed fits;
    young = h.young;
  }

  -- The bytes after a write that leaves no gap.
  byte_at-written :
      (b : DataBlock) (bytes : Bytes) (offset y : ℕ)
      → IsYoung b
      → offset + length bytes ≤ capacity cluster
      → offset ≤ b.value_size
      → byte_at (content (written cluster bytes offset b)) y
        ≡ overlay offset bytes (byte_at (content b)) y
  byte_at-written b bytes offset y h fits joined =
      let b' = written cluster bytes offset b in
      let to_byte : Option ℕ → ℕ = λ o. elim o [ none ↦ 0 | some x ↦ x ] in
      let whole = length-content b h in
      let whole' = length-content b' (written-IsYoung b bytes offset h fits) in
      let beside : ((y < offset) ⊎ (offset + length bytes ≤ y))
          → byte_at (content b') y ≡ overlay offset bytes (byte_at (content b)) y =
        λ out. elim (Bool-cases (ltb y b.value_size)) [
          | inl e ↦
              let held : y < b.value_size = ground arith in
              ap to_byte (content-written_outside cluster bytes offset b h.backed fits y held out)
              ∙ sym (overlay_outside offset bytes (byte_at (content b)) y out)
          | inr e ↦
              let past : b.value_size ≤ y = ground arith in
              let after : offset + length bytes ≤ y = omega (arith, out) in
              ap to_byte (get_elem?-beyond (content b') y (omega (arith, whole')))
              ∙ ap to_byte (sym (get_elem?-beyond (content b) y (omega (arith, whole))))
              ∙ sym (overlay_outside offset bytes (byte_at (content b)) y out)
        ] in
      elim (Bool-cases (ltb y offset)) [
        | inl e ↦ beside (inl (ground arith))
        | inr e ↦ elim (Bool-cases (ltb y (offset + length bytes))) [
          | inr f ↦ beside (inr (ground arith))
          | inl f ↦
              let i = y - offset in
              let at : offset + i ≡ y = ground arith in
              let inside : i < length bytes = ground arith in
              ap (byte_at (content b')) (sym at)
              ∙ ap to_byte (content-written_inside cluster bytes offset b h.backed fits i inside)
              ∙ sym (overlay_inside offset bytes (byte_at (content b)) i inside)
              ∙ ap (overlay offset bytes (byte_at (content b))) at
        ]
      ]

  -- A write of a piece: the block is written, and the others stay.
  write_law :
      (h n : ℕ) (bytes : Bytes) (offset : ℕ) (w : Blocks)
      → ((k : ℕ) → IsYoung (w k))
      → h ≡ n
      → offset + length bytes ≤ capacity cluster
      → offset ≤ (w n).value_size
      → ((k : ℕ) → IsYoung (update h (write cluster (some bytes) offset (w h)).1 w k))
        × ((k y : ℕ)
            → byte_at (content (update h (write cluster (some bytes) offset (w h)).1 w k)) y ≡ (
                if k == n
                then overlay offset bytes (byte_at (content (w n))) y
                else byte_at (content (w k)) y))
  write_law h n bytes offset w good named fits joined =
      let wrote = write-written cluster bytes offset (w n) fits (good n).backed.within small in
      rw (named, wrote)
        (
          λ k. elim (Bool-cases (k == n)) [
            | inl e ↦ rw e (written-IsYoung (w n) bytes offset (good n) fits)
            | inr e ↦ rw e (good k)
          ],
          λ k y. elim (Bool-cases (k == n)) [
            | inl e ↦ rw e (byte_at-written (w n) bytes offset y (good n) fits joined)
            | inr e ↦ rw e refl
          ],
        )

  read_law :
      (h n : ℕ) (buffer : Bytes) (offset : ℕ) (w : Blocks) (out : Bytes)
      → ((k : ℕ) → IsYoung (w k))
      → h ≡ n
      → offset + length buffer ≤ capacity cluster
      → (read cluster (some buffer) offset (w h) u).0 ≡ ok out
      → out ≡ slice offset (length buffer) (byte_at (content (w n)))
  read_law h n buffer offset w out good named fits e =
      let (shown, done, s) = read-block (w h) buffer offset (good h) fits in
      let same : out ≡ shown = cc (e, ap (λ t. t.0) done) in
      same
      ∙ Shows-slice shown (length buffer) offset (w h) (good h) s
      ∙ ap (λ m. slice offset (length buffer) (byte_at (content (w m)))) named

  size-block : (b : DataBlock) → IsYoung b → size cluster b u ≡ (ok b.value_size, b, u)
  unfolding size
  size-block b h =
      ap
        (λ (t : Result (Unit {0}) × DataBlock × U). (elim t.0 [
          | throw e ↦ (throw e, t.1, t.2)
          | ok _ ↦ (ok t.1.value_size, t.1, t.2)
        ]))
        (refresh_young cluster 0 b u h.young)

  update-Keeps :
      (h : ℕ) (b : DataBlock) (w : Blocks)
      → ((k : ℕ) → IsYoung (w k))
      → b ≡ w h
      → Keeps block_view w (update h b w)
  update-Keeps h b w good same =
      unchanged w (update h b w) good (update_same h w ∙ ap (λ c. update h c w) (sym same))

  -- The blocks of src/DataBlock.cc keep the laws that a file relies on.
  pub block_services-Store : Store block_services block_view
  block_services-Store = record {
    keeps_get = λ n w good below. (Keeps-refl block_view w good, refl);
    keeps_create = λ n w good below empty. (Keeps-refl block_view w good, refl);
    keeps_try_read_ahead = λ h n w good named. Keeps-refl block_view w good;
    keeps_run_flush = λ h n w good named. Keeps-refl block_view w good;
    keeps_next_exception = λ w good. Keeps-refl block_view w good;
    keeps_size = λ h n w good named.
        update-Keeps h (size cluster (w h) u).1 w good (ap (λ t. t.1) (size-block (w h) (good h)));
    keeps_range = λ start end elements w good. Keeps-refl block_view w good;
    keeps_get_version = λ key w good. Keeps-refl block_view w good;
    keeps_read = λ h n buffer offset w good named fits.
        let (out, done, s) = read-block (w h) buffer offset (good h) fits in
        update-Keeps h (read cluster (some buffer) offset (w h) u).1 w good (ap (λ t. t.1) done);
    read_law = read_law;
    write_law = λ h n bytes offset w good named fits joined e.
        let (young, bytes_now) = write_law h n bytes offset w good named fits joined in
        (young, bytes_now, λ g m other. other);
  }
