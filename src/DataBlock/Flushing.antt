-- ===== src/DataBlock/Flushing.antt =====
-- A flush against the specification of the cluster (src/DataBlock.cc: flush).
use kineticio.Prelude.{
  ℕ, suc, ◌+◌, ◌-◌, ◌≤◌, ◌<◌, ◌≡◌, refl, subst, sym, ◌∙◌, ap, inl, inr, Bool, true, false, List, [],
  none, some, arith, length, take, ok, ◌&&◌, ◌||◌, get_elem?, get_elem?-take, length-take,
  Bool-cases, bytes_eq, bytes_eq_refl, bytes_eq→eq, Option-cases, take_of_length-le, append-nil,
}
use kineticio.Str.{Bytes, resize}
use kineticio.ClusterInterface.{ClusterInterface}
use kineticio.Kinetic.{status_ok, remote_version_mismatch}
use kineticio.Remote.{
  Remote, remote_cluster, remote_put, remote_get, current_version, given_version,
}
use kineticio.DataBlock.{
  DataBlock, accept_remote, get_remote_value, is_empty, dirty, is_none, is_standard,
}
use kineticio.DataBlock.Changes.{prepare, put_block, put_after, flush_round, flush_loop, flush}
use kineticio.DataBlock.Content.{content}
use kineticio.DataBlock.Merge.{
  Covered, Fits, Fits-mono, Covered-lt, size_after, size_after-le, padded, length-padded,
  accept_remote-Merged,
}

-- A block with pending changes, all within its size, which its local copy and the capacity cover, and
-- no remote value.
pub record IsPending (cap : ℕ) (b : DataBlock) (v : Bytes) : Type 0 where
  pub here : b.local_value ≡ some v
  pub alone : b.remote_value ≡ none
  pub pending : is_empty b.updates ≡ false
  pub backed : b.value_size ≤ length v
  pub within : b.value_size ≤ cap
  pub inside : Fits b.value_size b.updates

resize_shrink : (n c : ℕ) (v : Bytes) → n ≤ length v → resize n c v ≡ take n v
unfolding resize
resize_shrink n c v h = let e : n - length v ≡ 0 = omega arith in rw (e, append-nil)

-- The bytes that cover the pending writes stay the local ones.
abbrev Keeps : List (ℕ × ℕ) → ℕ → Bytes → Bytes → Type 0
Keeps us size v m = (i : ℕ) → i < size → Covered us i → get_elem? m i ≡ get_elem? v i

-- The remote value is the block's content under the block's version, the block is clean, and every
-- byte of a pending write within the final size is the one that was written.
pub record IsFlushed (us : List (ℕ × ℕ)) (v : Bytes) (b : DataBlock) (w : Remote) : Type 0 where
  pub version : Bytes
  pub recorded : w.entry ≡ some (version, content b)
  pub current : b.version ≡ some version
  pub clean : dirty b ≡ false
  pub keeps : Keeps us b.value_size v (content b)

module _ (cap : ℕ) where
  abbrev cluster : ClusterInterface Remote
  cluster = remote_cluster cap

  -- A block whose size is backed by its local copy `m`, at the put.
  module _ (b : DataBlock) (m : Bytes) (here : b.local_value ≡ some m)
      (backed : b.value_size ≤ length m) where
    abbrev sent : Bytes
    sent = take b.value_size m

    length-sent : length sent ≡ b.value_size
    length-sent = omega (arith, length-take b.value_size m)

    prepare_lem : prepare cluster b ≡ (sent, record b { local_value = some sent })
    unfolding prepare
    prepare_lem =
        ground (arith, resize_shrink b.value_size 0 m backed, take_of_length-le b.value_size m)

    abbrev after_put : Remote → DataBlock
    after_put w = record b { local_value = some sent; version = some (w.new_version w.count) }

    put_matched :
        (w : Remote)
        → given_version b.version ≡ current_version w
        → put_block cluster b w ≡ (
          status_ok,
          after_put w,
          record w { entry = some (w.new_version w.count, sent); count = w.count + 1 },
        )
    unfolding put_block remote_put
    put_matched w same =
        rw (prepare_lem, put_block)
          (ground (
            arith,
            same,
            subst (λ x. bytes_eq (given_version b.version) x ≡ true) same
                (bytes_eq_refl (given_version b.version)),
          ))

    put_after_matched :
        (w : Remote)
        → given_version b.version ≡ current_version w
        → put_after cluster (ok tt, b, w) ≡ (
          ok status_ok,
          after_put w,
          record w { entry = some (w.new_version w.count, sent); count = w.count + 1 },
        )
    unfolding put_after
    put_after_matched w same = rw (put_matched w same, put_after)

    put_mismatched :
        (w : Remote)
        → bytes_eq (given_version b.version) (current_version w) ≡ false
        → put_block cluster b w ≡ (remote_version_mismatch, record b { local_value = some sent }, w)
    unfolding put_block remote_put
    put_mismatched w other = rw (prepare_lem, put_block) (ground arith)

    put_after_mismatched :
        (w : Remote)
        → bytes_eq (given_version b.version) (current_version w) ≡ false
        → put_after cluster (ok tt, b, w)
          ≡ (ok remote_version_mismatch, record b { local_value = some sent }, w)
    unfolding put_after
    put_after_mismatched w other = rw (put_mismatched w other, put_after)

  accept_missing :
      (b : DataBlock) (w : Remote)
      → b.remote_value ≡ none
      → is_empty b.updates ≡ false
      → accept_remote cluster true b w
        ≡ (ok tt, record b { version = none; timestamp = w.clock }, w)
  unfolding accept_remote
  accept_missing b w alone pending = ground arith

  -- A fetch into a block with pending writes.
  fetch_lem :
      (b : DataBlock) (v : Bytes) (w : Remote)
      → IsPending cap b v
      → (b' : DataBlock) × (m : Bytes) × (get_remote_value cluster b w ≡ (ok tt, b', w))
        × (b'.local_value ≡ some m)
        × (b'.value_size ≤ length m)
        × (given_version b'.version ≡ current_version w)
        × Keeps b.updates b'.value_size v m
  unfolding get_remote_value remote_get
  fetch_lem b v w p = elim (Option-cases w.entry) [
    | inl e ↦ (
      record b { version = none; timestamp = w.clock },
      v,
      ground (arith, accept_missing b w p.alone p.pending),
      p.here,
      p.backed,
      ground arith,
      λ i h c. refl,
    )
    | inr ((version, r), e) ↦
        let fits : Fits cap b.updates = Fits-mono b.updates p.within p.inside in
        let b1 = record b { version = some version; remote_value = some r } in
        let (m, done, l, c) =
          accept_remote-Merged cluster b1 v r w p.here refl p.pending
            (Fits-mono b.updates p.backed p.inside) fits in
        let size = size_after b.updates (length r) in
        let (wide, wider) = length-padded cap r in
        let room : size ≤ length m = omega (
          arith,
          l,
          wide,
          wider,
          size_after-le b.updates (length r) (length (padded cap r)) (Fits-mono b.updates wide fits)
              wider,
        ) in
        (
          record b1 {
            remote_value = none;
            local_value = some m;
            value_size = size;
            timestamp = w.clock;
          },
          m,
          ground (arith, done),
          refl,
          room,
          ground arith,
          λ i h k. elim (c i) [ inl (_, q) ↦ q | inr (out, _) ↦ absurd (out k) ],
        )
  ]

  loop_done :
      (fuel : ℕ) (mismatch : Bool) (b : DataBlock) (w : Remote) {b' : DataBlock} {w' : Remote}
      → flush_round cluster mismatch b w ≡ (ok status_ok, b', w')
      → flush_loop cluster (suc fuel) mismatch b w
        ≡ some (ok tt, record b' { updates = []; timestamp = w'.clock }, w')
  unfolding flush_loop
  loop_done fuel mismatch b w e = ground arith

  loop_again :
      (fuel : ℕ) (mismatch : Bool) (b : DataBlock) (w : Remote) {b' : DataBlock} {w' : Remote}
      → flush_round cluster mismatch b w ≡ (ok remote_version_mismatch, b', w')
      → flush_loop cluster (suc fuel) mismatch b w ≡ flush_loop cluster fuel true b' w'
  unfolding flush_loop
  loop_again fuel mismatch b w e = ground arith

  -- The end of the loop after a put that succeeds.
  IsFlushed-now :
      (us : List (ℕ × ℕ)) (v m : Bytes) (b : DataBlock) (w : Remote) (fuel : ℕ) (mismatch : Bool)
      → b.local_value ≡ some m
      → b.value_size ≤ length m
      → given_version b.version ≡ current_version w
      → Keeps us b.value_size v m
      → (b0 : DataBlock) (w0 : Remote)
      → flush_round cluster mismatch b0 w0 ≡ put_after cluster (ok tt, b, w)
      → (b' : DataBlock) × (w' : Remote) × (flush_loop cluster (suc fuel) mismatch b0 w0
          ≡ some (ok tt, b', w'))
        × IsFlushed us v b' w'
  unfolding dirty
  IsFlushed-now us v m b w fuel mismatch here backed same keeps b0 w0 round =
      let b' = record (after_put b m here backed w) { updates = []; timestamp = w.clock } in
      let whole : take b.value_size (sent b m here backed) ≡ sent b m here backed =
        take_of_length-le b.value_size (sent b m here backed)
          (omega (arith, length-sent b m here backed)) in
      (
        b',
        record w { entry = some (w.new_version w.count, take b.value_size m); count = w.count + 1 },
        loop_done fuel mismatch b0 w0 (round ∙ put_after_matched b m here backed w same),
        record {
          version = w.new_version w.count;
          recorded = ap (λ (x : Bytes). some (w.new_version w.count, x)) (sym whole);
          current = refl;
          clean = refl;
          keeps = λ i h c. rw whole (get_elem?-take b.value_size i m h ∙ keeps i h c);
        },
      )

  round_first :
      (b : DataBlock) (w : Remote) (mismatch : Bool)
      → (mismatch || (is_none b.version && is_standard b.mode)) ≡ true
      → flush_round cluster mismatch b w ≡ put_after cluster (get_remote_value cluster b w)
  unfolding flush_round
  round_first b w mismatch first = rw (first, flush_round)

  round_put :
      (b : DataBlock) (w : Remote)
      → (is_none b.version && is_standard b.mode) ≡ false
      → flush_round cluster false b w ≡ put_after cluster (ok tt, b, w)
  unfolding flush_round
  round_put b w later = rw (later, flush_round)

  -- A round that begins with a fetch ends the loop.
  IsFlushed-fetched :
      (us : List (ℕ × ℕ)) (u v : Bytes) (b : DataBlock) (w : Remote) (fuel : ℕ) (mismatch : Bool)
      → IsPending cap b v
      → b.updates ≡ us
      → Keeps us b.value_size u v
      → (mismatch || (is_none b.version && is_standard b.mode)) ≡ true
      → (b' : DataBlock) × (w' : Remote) × (flush_loop cluster (suc fuel) mismatch b w
          ≡ some (ok tt, b', w'))
        × IsFlushed us u b' w'
  IsFlushed-fetched us u v b w fuel mismatch p same old first =
      let (b1, m, fetched, here, backed, version, keeps) = fetch_lem b v w p in
      IsFlushed-now us u m b1 w fuel mismatch here backed version
        (λ i h c.
          let c' : Covered b.updates i = subst (λ x. Covered x i) (sym same) c in
          keeps i h c' ∙ old i (Covered-lt b.updates b.value_size i p.inside c') c)
        b w (round_first b w mismatch first ∙ ap (put_after cluster) fetched)

  -- A flush of a block that has pending changes, all within its size and its size within its local
  -- copy and the capacity, and no remote value, ends after two puts at most, whatever the cluster
  -- holds under the key: it succeeds, the cluster then holds the block's content under the block's
  -- version, the block is clean, and the bytes of the pending writes are those that were written.
  pub flush-IsFlushed :
      (b : DataBlock) (v : Bytes) (w : Remote)
      → IsPending cap b v
      → (b' : DataBlock) × (w' : Remote) × (flush cluster 2 b w ≡ some (ok tt, b', w'))
        × IsFlushed b.updates v b' w'
  flush-IsFlushed b v w p = elim (Bool-cases (is_none b.version && is_standard b.mode)) [
    | inl first ↦ IsFlushed-fetched b.updates v v b w 1 false p refl (λ i h c. refl) first
    | inr later ↦ elim (Bool-cases (bytes_eq (given_version b.version) (current_version w))) [
      | inl same ↦
          IsFlushed-now b.updates v v b w 1 false p.here p.backed
            (bytes_eq→eq (given_version b.version) (current_version w) same) (λ i h c. refl) b w
            (round_put b w later)
      | inr other ↦
          let v1 = sent b v p.here p.backed in
          let b1 = record b { local_value = some v1 } in
          let whole = length-sent b v p.here p.backed in
          let (b', w', e, f) =
            IsFlushed-fetched b.updates v v1 b1 w 0 true
              (record {
                here = refl;
                alone = p.alone;
                pending = p.pending;
                backed = omega (arith, whole);
                within = p.within;
                inside = p.inside;
              })
              refl (λ i h c. get_elem?-take b.value_size i v h) refl in
          (
            b',
            w',
            loop_again 1 false b w
                  (round_put b w later ∙ put_after_mismatched b v p.here p.backed w other)
                ∙ e,
            f,
          )
    ]
  ]
