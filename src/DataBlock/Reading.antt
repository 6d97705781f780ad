-- ===== src/DataBlock/Reading.antt =====
-- What read returns (src/DataBlock.cc: read), and that it returns what was written.
use kineticio.Prelude.{
  ℕ, ◌+◌, ◌-◌, ◌≤◌, ◌<◌, min, ◌≡◌, refl, subst, sym, ◌∙◌, inl, inr, ◌++◌, some, arith, length, drop,
  take, replicate, ltb, if◌then◌else◌, ok, get_elem?, get_elem?-take, length-take, Bool-cases,
  lt→ltb, length-drop, length-append, length-replicate, get_elem?-drop, get_elem?-append_left,
  get_elem?-append_right, get_elem?-replicate, get_elem?-beyond, le→not-ltb, Option-cases,
  get_elem?_ext, ap,
}
use kineticio.Str.{Bytes, size_mod, substr}
use kineticio.ClusterInterface.{ClusterInterface}
use kineticio.DataBlock.{DataBlock, refresh, read, copy_out, copy_from, capacity, expiration_time}
use kineticio.DataBlock.Changes.{write}
use kineticio.DataBlock.Content.{
  IsBacked, backing, content, written, write-written, written-IsBacked, content-written_inside,
}

-- `out` is the content from the offset on, and 0 where the content ends.
pub record Shows (out : Bytes) (n offset : ℕ) (b : DataBlock) : Type 0 where
  pub sized : length out ≡ n
  pub shown :
      (i : ℕ)
      → i < n
      → offset + i < b.value_size
      → get_elem? out i ≡ get_elem? (content b) (offset + i)
  pub zeroed : (i : ℕ) → i < n → b.value_size ≤ offset + i → get_elem? out i ≡ some 0

module _ (buffer : Bytes) (offset : ℕ) (b : DataBlock) where
  abbrev cleared : Bytes
  cleared =
      if ltb b.value_size (offset + length buffer) then replicate (length buffer) 0 else buffer

  abbrev piece : Bytes
  piece = take (min (length buffer) (b.value_size - offset)) (drop offset (backing b))

  abbrev shown_bytes : Bytes
  shown_bytes = piece ++ drop (length piece) cleared

  length-cleared : length cleared ≡ length buffer
  length-cleared = ground (arith, length-replicate {A = ℕ} (length buffer) 0)

  module _ (backed : b.value_size ≤ length (backing b)) (reaches : offset < b.value_size) where
    length-piece : length piece ≡ min (length buffer) (b.value_size - offset)
    length-piece = omega (
      arith,
      length-take (min (length buffer) (b.value_size - offset)) (drop offset (backing b)),
      length-drop offset (backing b),
    )

    shown_inside :
        (i : ℕ)
        → i < length buffer
        → offset + i < b.value_size
        → get_elem? shown_bytes i ≡ get_elem? (content b) (offset + i)
    shown_inside i h k =
        get_elem?-append_left piece _ i (omega (arith, length-piece))
        ∙ get_elem?-take _ i (drop offset (backing b)) (omega arith)
        ∙ get_elem?-drop offset i (backing b)
        ∙ sym (get_elem?-take b.value_size (offset + i) (backing b) k)

    shown_beyond :
        (i : ℕ) → i < length buffer → b.value_size ≤ offset + i → get_elem? shown_bytes i ≡ some 0
    shown_beyond i h k =
        get_elem?-append_right piece _ i (omega (arith, length-piece))
        ∙ get_elem?-drop (length piece) (i - length piece) cleared
        ∙ rw (lt→ltb b.value_size (offset + length buffer) (omega arith))
            (get_elem?-replicate (length buffer) _ 0 (omega (arith, length-piece)))

    shown_bytes-Shows : Shows shown_bytes (length buffer) offset b
    shown_bytes-Shows = record {
      sized = omega (
        arith,
        length-append piece (drop (length piece) cleared),
        length-piece,
        length-drop (length piece) cleared,
        length-cleared,
      );
      shown = shown_inside;
      zeroed = shown_beyond;
    }

    copy_from_lem :
        (zeros v : Bytes)
        → offset ≤ length v
        → copy_from (length buffer) zeros offset b.value_size v
          ≡ ok (
              let p = take (min (length buffer) (b.value_size - offset)) (drop offset v) in
              p ++ drop (length p) zeros)
    unfolding copy_from substr
    copy_from_lem zeros v h = rw (le→not-ltb (length v) offset h, copy_from)

    module _ {W : Type 0} (cluster : ClusterInterface W) where
      copy_out_lem :
          offset + length buffer < size_mod → copy_out cluster buffer offset b ≡ ok shown_bytes
      unfolding copy_out
      copy_out_lem small = elim (Option-cases b.local_value) [
        | inr (v, e) ↦ ground (arith, copy_from_lem cleared v)
        | inl e ↦ elim (Option-cases b.remote_value) [
          | inr (v, f) ↦ ground (arith, copy_from_lem cleared v)
          | inl f ↦ absurd (ground arith)
        ]
      ]

  copy_out_beyond :
      {W : Type 0} (cluster : ClusterInterface W)
      → offset + length buffer < size_mod
      → b.value_size ≤ offset
      → copy_out cluster buffer offset b ≡ ok cleared
  unfolding copy_out
  copy_out_beyond cluster small h = ground arith

  cleared-Shows : b.value_size ≤ offset → Shows cleared (length buffer) offset b
  cleared-Shows h = record {
    sized = length-cleared;
    shown = λ i k l. absurd (omega arith);
    zeroed = λ i k l.
        rw (lt→ltb b.value_size (offset + length buffer) (omega arith))
          (get_elem?-replicate (length buffer) i 0 k);
  }

  pub copy_out-Shows :
      {W : Type 0} (cluster : ClusterInterface W)
      → offset + length buffer < size_mod
      → b.value_size ≤ length (backing b)
      → (out : Bytes) × (copy_out cluster buffer offset b ≡ ok out)
        × Shows out (length buffer) offset b
  copy_out-Shows cluster small backed = elim (Bool-cases (ltb offset b.value_size)) [
    | inl h ↦
        let reaches : offset < b.value_size = ground arith in
        (shown_bytes, copy_out_lem backed reaches cluster small, shown_bytes-Shows backed reaches)
    | inr h ↦
        let past : b.value_size ≤ offset = ground arith in
        (cleared, copy_out_beyond cluster small past, cleared-Shows past)
  ]

module _ {W : Type 0} (cluster : ClusterInterface W) (offset : ℕ) where
  -- Where the refresh succeeds and leaves a well-formed block, a read within the capacity succeeds,
  -- and the buffer holds the block's content from the offset on and 0 where the content ends,
  -- whatever the buffer held before.
  pub read-Shows :
      (buffer : Bytes) (b b' : DataBlock) (w w' : W)
      → offset + length buffer ≤ capacity cluster
      → capacity cluster < size_mod
      → refresh cluster b w ≡ (ok tt, b', w')
      → IsBacked (capacity cluster) b'
      → (out : Bytes) × (read cluster (some buffer) offset b w ≡ (ok out, b', w'))
        × Shows out (length buffer) offset b'
  unfolding read
  read-Shows buffer b b' w w' fits small fresh valid =
      let (out, e, s) = copy_out-Shows buffer offset b' cluster (omega arith) valid.backed in
      (out, ground arith, s)

  pub refresh_young :
      (b : DataBlock) (w : W)
      → cluster.now w - b.timestamp < expiration_time
      → refresh cluster b w ≡ (ok tt, b, w)
  unfolding refresh
  refresh_young b w young = rw (lt→ltb _ _ young, refresh)

  Shows-written :
      (bytes out : Bytes) (b : DataBlock)
      → IsBacked (capacity cluster) b
      → offset + length bytes ≤ capacity cluster
      → Shows out (length bytes) offset (written cluster bytes offset b)
      → out ≡ bytes
  Shows-written bytes out b valid fits s = get_elem?_ext out bytes λ i.
      elim (Bool-cases (ltb i (length bytes))) [
        | inl h ↦
            let k : i < length bytes = ground arith in
            s.shown i k (omega arith) ∙ content-written_inside cluster bytes offset b valid fits i k
        | inr h ↦
            let k : length bytes ≤ i = ground arith in
            get_elem?-beyond out i (omega (arith, s.sized)) ∙ sym (get_elem?-beyond bytes i k)
      ]

  -- A read of what was just written, within the expiration time, returns it: the write succeeds,
  -- and a read of the same range returns the written bytes and leaves the block as it was.
  pub read-write :
      (bytes buffer : Bytes) (b : DataBlock) (w : W)
      → IsBacked (capacity cluster) b
      → offset + length bytes ≤ capacity cluster
      → capacity cluster < size_mod
      → length buffer ≡ length bytes
      → cluster.now w - b.timestamp < expiration_time
      → let (result, b') = write cluster (some bytes) offset b in
        (result ≡ ok tt) × (read cluster (some buffer) offset b' w ≡ (ok bytes, b', w))
  read-write bytes buffer b w valid fits small same young =
      let b' = written cluster bytes offset b in
      let (out, e, s) =
        read-Shows buffer b' b' w w (omega arith) small (refresh_young b' w young)
          (written-IsBacked cluster bytes offset b valid fits) in
      rw (write-written cluster bytes offset b fits valid.within small) (
        refl,
        e
            ∙ ap (λ (o : Bytes). (ok o, b', w))
                (Shows-written bytes out b valid fits (subst (λ m. Shows out m offset b') same s)),
      )
