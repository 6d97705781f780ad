-- ===== src/DataBlock/Faults.antt =====
-- Inputs on which a block departs from its contents (src/DataBlock.cc).
use kineticio.Prelude.{
  ℕ, suc, ◌+◌, ◌≤◌, ◌<◌, ◌≡◌, ◌∙◌, ap, ◌≢◌, true, false, [], ◌∷◌, none, some, arith, length, take,
  ok, throw, null_pointer, out_of_range, get_elem?, length-take, bytes_eq_refl, refl, false,
  get_elem?-replicate, length-replicate,
}
use kineticio.Str.{Bytes, size_mod, substr, length-resize}
use kineticio.ClusterInterface.{ClusterInterface}
use kineticio.DataBlock.{
  DataBlock, Mode, init, reassign, replay, merge_updates, accept_remote, copy_out, capacity, dirty,
}
use kineticio.DataBlock.Changes.{
  write, truncate, prepare, put_block, put_after, flush_round, flush_loop, flush,
}
use kineticio.Remote.{Remote, remote_cluster, remote_put}
use kineticio.DataBlock.Content.{content, write-written, base, content-written-base}

module _ {W : Type 0} (cluster : ClusterInterface W) where
  -- A first write at an offset into a new block leaves the character '0' (48) at every byte before
  -- the offset, in the content that is read and flushed.
  pub content-write-init :
      (key buffer : Bytes) (mode : Mode) (offset i : ℕ) (w : W)
      → offset + length buffer ≤ capacity cluster
      → capacity cluster < size_mod
      → i < offset
      → get_elem? (content (write cluster (some buffer) offset (init cluster key mode w)).1) i
        ≡ some 48
  unfolding init
  content-write-init key buffer mode offset i w fits small below =
      let b = init cluster key mode w in
      rw (write-written cluster buffer offset b fits (omega arith) small) (
        content-written-base cluster buffer offset b i (omega arith) fits below
          (omega (arith, length-replicate {A = ℕ} (capacity cluster) 48))
        ∙ get_elem?-replicate (capacity cluster) i 48 (omega arith))

  -- A block that is reassigned to another key while it has a remote value and no local copy keeps
  -- that value: after a write into the new key at an offset, the bytes before the offset are those
  -- of the old key.
  pub content-write-reassign :
      (key buffer r : Bytes) (b : DataBlock) (mode : Mode) (offset i : ℕ)
      → b.local_value ≡ none
      → b.remote_value ≡ some r
      → offset + length buffer ≤ capacity cluster
      → capacity cluster < size_mod
      → i < offset
      → i < length r
      → get_elem? (content (write cluster (some buffer) offset (reassign cluster key mode b)).1) i
        ≡ get_elem? r i
  unfolding reassign
  content-write-reassign key buffer r b mode offset i e f fits small below here =
      let c = reassign cluster key mode b in
      let same : base (capacity cluster) c ≡ r = ground arith in
      rw (write-written cluster buffer offset c fits (omega arith) small) (
        content-written-base cluster buffer offset c i (omega arith) fits below
          (omega (arith, ap length same))
        ∙ ap (λ v. get_elem? v i) same)

  -- A block with one pending write and a truncation below its start cannot be flushed over a change
  -- by another client: once the put has shortened the local copy, the merge throws out_of_range.
  pub accept_remote-prepare_truncated :
      (b : DataBlock) (v remote : Bytes) (offset n : ℕ) (w : W)
      → b.local_value ≡ some v
      → b.updates ≡ (offset, suc n) ∷ (b.value_size, 0) ∷ []
      → b.value_size < offset
      → (accept_remote cluster false
          (record (prepare cluster b).1 { remote_value = some remote })
          w).0
        ≡ throw out_of_range
  unfolding accept_remote merge_updates prepare replay substr
  accept_remote-prepare_truncated b v remote offset n w e f h =
      ground (arith, length-resize b.value_size 0 v)

  -- A clean block without a local copy and without a remote value, as getRemoteValue leaves it when
  -- the key has been removed, keeps its size: a read inside that size follows a null pointer.
  pub copy_out-accept_remote_missing :
      (b : DataBlock) (buffer : Bytes) (offset : ℕ) (w : W)
      → b.updates ≡ []
      → b.remote_value ≡ none
      → offset < b.value_size
      → let (result, b', w') = accept_remote cluster true b w in
        (result ≡ ok tt)
        × (b'.value_size ≡ b.value_size)
        × (copy_out cluster buffer offset b' ≡ throw null_pointer)
  unfolding accept_remote copy_out
  copy_out-accept_remote_missing b buffer offset w e f h =
      (ground arith, ground arith, ground arith)

-- A block that has read the present value of its key and not written to it, and that is truncated
-- below its size: the truncation is accepted, and the flush succeeds, but it puts the value with its
-- old length, so that the cluster does not hold the content that the block shows.
pub flush-truncate :
    (cap fuel offset : ℕ) (b : DataBlock) (r version : Bytes) (w : Remote)
    → b.local_value ≡ none
    → b.remote_value ≡ some r
    → b.version ≡ some version
    → w.entry ≡ some (version, r)
    → offset ≤ cap
    → offset < length r
    → let (result, b') = truncate (remote_cluster cap) offset b in
      (result ≡ ok tt)
      × ((b'' : DataBlock) × (w' : Remote) × (flush (remote_cluster cap) (suc fuel) b' w
            ≡ some (ok tt, b'', w'))
          × (dirty b'' ≡ false)
          × (content b'' ≡ take offset r)
          × (w'.entry ≡ some (w.new_version w.count, r))
          × (r ≢ content b''))
unfolding truncate prepare put_block put_after flush_round flush_loop remote_put dirty
flush-truncate cap fuel offset b r version w e f g h fits below = (
  ground arith,
  (
    record b {
      value_size = offset;
      updates = [];
      version = some (w.new_version w.count);
      timestamp = w.clock;
    },
    record w { entry = some (w.new_version w.count, r); count = w.count + 1 },
    ground (arith, bytes_eq_refl version),
    refl,
    ground arith,
    refl,
    λ q.
        let s : r ≡ take offset r = ground arith in
        absurd (omega (arith, ap length s, length-take offset r)),
  ),
)
