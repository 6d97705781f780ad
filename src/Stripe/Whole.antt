-- ===== src/Stripe/Whole.antt =====
-- The round trip of a whole value: split, stored with losses, read back (src/KineticCluster.cc:
-- valueToStripe; src/KineticClusterStripeOperation.cc: reconstructValue).
use kineticio.Prelude.{
  ℕ, suc, ◌+◌, ◌-◌, ◌*◌, ◌/◌, ◌≤◌, ◌<◌, ◌≡◌, refl, ap, sym, subst, ◌∙◌, inl, inr, Bool, false, List,
  [], ◌∷◌, ◌++◌, Option, length, replicate, ltb, ◌==◌, arith, length-append, length-replicate,
  append_assoc, if◌then◌else◌, Bool-cases, ok, ◌>>=◌, drop,
}
use kineticio.Str.{Bytes}
use kineticio.Redundancy.{RedundancyProvider, size, compute}
use kineticio.Redundancy.Damage.{Uniform, errors}
use kineticio.Redundancy.Recovery.{IsErasureCode, IsStripe, compute-append_replicate}
use kineticio.Stripe.{
  KineticRecord, reconstruct_value, value_to_stripe, data_chunks, clear_chunks, chunk_size,
}
use kineticio.Stripe.Chunks.{
  concat, data_chunks-Uniform, data_chunks-add, data_chunks_past, concat-data_chunks,
  clear_chunks_lem,
}
use kineticio.Stripe.Merged.{merged}
use kineticio.Stripe.RoundTrip.{Served}

ceil-ge : (l n : ℕ) → l ≤ (l + suc n - 1) / suc n * suc n
ceil-ge l n = grind arith

ceil-le : (l n k : ℕ) → l ≤ k * suc n → (l + suc n - 1) / suc n ≤ k
ceil-le l n k h = grind arith

-- A stripe of value_to_stripe, in its three parts.
record Written (rp : RedundancyProvider) (code : IsErasureCode rp) (value : Bytes)
    (stripe : List Bytes) : Type 0 where
  m : ℕ
  a : List Bytes
  tail : List Bytes
  k : ℕ
  pad : Bytes
  some_chunk : 0 < length a
  counted : length a + k ≡ rp.num_data
  parities : length tail ≡ rp.num_parity
  full_u : Uniform (suc m) (a ++ (replicate k (replicate (suc m) 0) ++ tail))
  a_u : Uniform (suc m) a
  tail_u : Uniform (suc m) tail
  kind : IsStripe rp code (a ++ (replicate k (replicate (suc m) 0) ++ tail))
  begins : concat a ≡ value ++ pad
  parts : stripe ≡ a ++ (replicate k [] ++ tail)

Uniform-append_right : (n : ℕ) (xs ys : List Bytes) → Uniform n (xs ++ ys) → Uniform n ys
Uniform-append_right n [] ys u = u
Uniform-append_right n (x ∷ xs) ys (h, u) = Uniform-append_right n xs ys u

module _ (value : Bytes) (n used : ℕ) (reaches : length value ≤ used * n) where
  -- The chunks that hold bytes of the value, and those of 0 only.
  chunks_split :
      (nd : ℕ)
      → used ≤ nd
      → data_chunks value n 0 nd
        ≡ data_chunks value n 0 used ++ replicate (nd - used) (replicate n 0)
  chunks_split nd h =
      let whole : used + (nd - used) ≡ nd = omega arith in
      let past : length value ≤ (0 + used) * n =
        (let e : 0 + used ≡ used = omega arith in rw e reaches) in
      ap (data_chunks value n 0) (sym whole)
      ∙ data_chunks-add value n 0 used (nd - used)
      ∙ ap (◌++◌ (data_chunks value n 0 used))
          (data_chunks_past value n (0 + used) (nd - used) past)

  chunks_begin : (pad : Bytes) × (concat (data_chunks value n 0 used) ≡ value ++ pad)
  chunks_begin =
      let past : length value ≤ (0 + used) * n =
        (let e : 0 + used ≡ used = omega arith in rw e reaches) in
      let (pad, e) = concat-data_chunks value n used 0 past in
      let start : 0 * n ≡ 0 = omega arith in (pad, e ∙ ap (λ k. drop k value ++ pad) start)

some_used : (l n : ℕ) → 0 < l → 0 < (l + suc n - 1) / suc n
some_used l n h = grind (arith, ceil-ge l n)

-- The two steps of value_to_stripe on a value that is not empty.
stripe_steps :
    (rp : RedundancyProvider) (capacity n : ℕ) (value : Bytes)
    → 0 < length value
    → chunk_size capacity value ≡ n
    → value_to_stripe rp capacity value ≡ (
        compute rp (data_chunks value n 0 rp.num_data ++ replicate rp.num_parity []) >>= λ stripe.
        ok (
          clear_chunks
            (rp.num_data - (length value + n - 1) / n)
            ((length value + n - 1) / n)
            stripe))
unfolding value_to_stripe
stripe_steps rp capacity n value some_bytes chunk =
    let nonzero : (length value == 0) ≡ false = ground arith in
    subst
      (λ k. value_to_stripe rp capacity value ≡ (
        compute rp (data_chunks value k 0 rp.num_data ++ replicate rp.num_parity []) >>= λ stripe.
        ok (
          clear_chunks (rp.num_data - (length value + k - 1) / k) ((length value + k - 1) / k)
            stripe)))
      chunk (rw (nonzero, value_to_stripe))

cleared_parts :
    (a z tail : List Bytes) (used k : ℕ)
    → length a ≡ used
    → length z ≡ k
    → clear_chunks k used ((a ++ z) ++ tail) ≡ a ++ (replicate k [] ++ tail)
cleared_parts a z tail used k e f =
    ap (clear_chunks k used) (append_assoc a z tail)
    ∙ subst (λ j. clear_chunks j used (a ++ (z ++ tail)) ≡ a ++ (replicate j [] ++ tail)) f
        (subst
          (λ j.
            clear_chunks (length z) j (a ++ (z ++ tail)) ≡ a ++ (replicate (length z) [] ++ tail))
          e (clear_chunks_lem z a tail))

written_lem :
    (rp : RedundancyProvider) (code : IsErasureCode rp) (capacity m : ℕ) (value : Bytes)
    → 0 < rp.num_data
    → 0 < length value
    → chunk_size capacity value ≡ suc m
    → length value ≤ rp.num_data * suc m
    → (stripe : List Bytes) × (value_to_stripe rp capacity value ≡ ok stripe)
      × Written rp code value stripe
written_lem rp code capacity m value some_data some_bytes chunk fits =
    let used = (length value + suc m - 1) / suc m in
    let k = rp.num_data - used in
    let used_le : used ≤ rp.num_data = ceil-le (length value) m rp.num_data fits in
    let used_ge : length value ≤ used * suc m = ceil-ge (length value) m in
    let a = data_chunks value (suc m) 0 used in
    let z : List Bytes = replicate k (replicate (suc m) 0) in
    let d = data_chunks value (suc m) 0 rp.num_data in
    let (a_len, a_u) = data_chunks-Uniform value (suc m) 0 used in
    let (d_len, d_u) = data_chunks-Uniform value (suc m) 0 rp.num_data in
    let d_parts : d ≡ a ++ z = chunks_split value (suc m) used used_ge rp.num_data used_le in
    let (tail, computed, kind, t_len, all_u) =
      compute-append_replicate rp code m d some_data d_len d_u in
    let (pad, begins) = chunks_begin value (suc m) used used_ge in
    let all_parts : d ++ tail ≡ a ++ (z ++ tail) =
      ap (λ x. x ++ tail) d_parts ∙ append_assoc a z tail in
    (
      a ++ (replicate k [] ++ tail),
      stripe_steps rp capacity (suc m) value some_bytes chunk
          ∙ rw computed (
              ap (λ x. ok (clear_chunks k used (x ++ tail))) d_parts
              ∙ ap ok
                  (cleared_parts a z tail used k a_len (length-replicate k (replicate (suc m) 0)))),
      record {
        m = m;
        a = a;
        tail = tail;
        k = k;
        pad = pad;
        some_chunk = omega (arith, a_len, some_used (length value) m some_bytes);
        counted = omega (arith, a_len);
        parities = t_len;
        full_u = subst (Uniform (suc m)) all_parts all_u;
        a_u = a_u;
        tail_u = Uniform-append_right (suc m) d tail all_u;
        kind = subst (IsStripe rp code) all_parts kind;
        begins = begins;
        parts = refl;
      },
    )

capacity_enough :
    (capacity l nd m : ℕ)
    → 0 < nd
    → l ≤ nd * capacity
    → (if ltb l capacity then l else capacity) ≡ suc m
    → l ≤ nd * suc m
capacity_enough capacity l nd m h fits e = elim (Bool-cases (ltb l capacity)) [
  | inl small ↦ let f : l ≡ suc m = ground arith in grind arith
  | inr large ↦ let f : capacity ≡ suc m = ground arith in rw (← f) fits
]

length-parts :
    (a tail : List Bytes) (k : ℕ)
    → length (a ++ (replicate k [] ++ tail)) ≡ length a + k + length tail
length-parts a tail k = omega (
  arith,
  length-append a (replicate k [] ++ tail),
  length-append (replicate {A = Bytes} k []) tail,
  length-replicate {A = Bytes} k [],
)

-- A value of at most the capacity of a stripe (`num_data` chunks) is split into a stripe with a chunk
-- for each data and parity position. From any answers of the drives that carry the chunks
-- unchanged, but for at most `num_parity` of them (no answer, no value, another version, a failed
-- checksum), the value is reconstructed.
pub reconstruct_value-value_to_stripe :
    (rp : RedundancyProvider) (code : IsErasureCode rp) (crc : Bytes → ℕ) (capacity : ℕ)
    (value version : Bytes)
    → 0 < rp.num_data
    → 0 < capacity
    → length value ≤ rp.num_data * capacity
    → (stripe : List Bytes) × (value_to_stripe rp capacity value ≡ ok stripe)
      × (length stripe ≡ size rp)
      × ((records : List (Option KineticRecord)) (p : List Bool)
          → Served crc version stripe records p
          → errors p ≤ rp.num_parity
          → reconstruct_value crc rp version (length value) records ≡ ok value)
unfolding value_to_stripe reconstruct_value
reconstruct_value-value_to_stripe rp code crc capacity [] version some_data some_capacity fits = (
  replicate (size rp) [],
  refl,
  length-replicate {A = Bytes} (size rp) [],
  λ records p s few. refl,
)
reconstruct_value-value_to_stripe rp code crc capacity (x ∷ rest) version some_data some_capacity
      fits =
    let value : Bytes = x ∷ rest in
    let m = chunk_size capacity value - 1 in
    let some_bytes : 0 < length value = omega arith in
    let chunk : chunk_size capacity value ≡ suc m = ground arith in
    let (stripe, made, w) =
      written_lem rp code capacity m value some_data some_bytes chunk
        (capacity_enough capacity (length value) rp.num_data m some_data fits chunk) in
    (
      stripe,
      made,
      ap length w.parts ∙ (length-parts w.a w.tail w.k ∙ omega (arith, w.counted, w.parities)),
      λ records p s few.
          merged rp code crc version w.m w.a w.tail w.k some_data w.some_chunk w.counted w.parities
            w.full_u w.a_u w.tail_u w.kind records p
            (subst (λ y. Served crc version y records p) w.parts s) few value w.pad some_bytes
            w.begins,
    )
