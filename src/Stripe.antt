-- ===== src/Stripe.antt =====
-- A value as the chunks of a stripe: src/KineticCluster.cc (valueToStripe) splits it, and
-- src/KineticClusterStripeOperation.cc (makeRecord, reconstructValue) puts it together again out of
-- the records that the drives returned.
pub mod Chunks
pub mod RoundTrip
pub mod Merged
pub mod Whole
use kineticio.Prelude.{
  ℕ, zero, suc, ◌+◌, ◌-◌, ◌*◌, ◌/◌, ◌≤◌, ◌≡◌, Bool, true, false, List, [], ◌∷◌, ◌++◌, Option, none,
  some, length, take, drop, replicate, set, ltb, leb, ◌==◌, ◌&&◌, ◌||◌, not, bytes_eq,
  if◌then◌else◌, Result, ok, throw, ◌>>=◌,
}
use kineticio.Str.{Bytes, resize}
use kineticio.Redundancy.{RedundancyProvider, size, compute}

-- Chunk `i` of valueToStripe's loop: a piece of the value, filled up with 0, or only 0.
unfoldable pub data_chunk : Bytes → ℕ → ℕ → Bytes
data_chunk value chunk_size i =
    if ltb (i * chunk_size) (length value)
    then resize chunk_size 0 (take chunk_size (drop (i * chunk_size) value))
    else replicate chunk_size 0

-- The first loop, with the number of rounds left.
unfoldable pub data_chunks : Bytes → ℕ → ℕ → ℕ → List Bytes
data_chunks value chunk_size i zero = []
data_chunks value chunk_size i (suc rounds) =
    data_chunk value chunk_size i ∷ data_chunks value chunk_size (i + 1) rounds

-- The last loop: chunks that hold only 0 are not written.
unfoldable pub clear_chunks : ℕ → ℕ → List Bytes → List Bytes
clear_chunks zero index stripe = stripe
clear_chunks (suc rounds) index stripe = clear_chunks rounds (index + 1) (set stripe index [])

abbrev pub chunk_size : ℕ → Bytes → ℕ
chunk_size capacity value = if ltb (length value) capacity then length value else capacity

-- valueToStripe, with the chunk capacity. (A capacity of 0, by which the code would divide, is not
-- modelled faithfully: here the quotient is 0.)
unfoldable pub value_to_stripe : RedundancyProvider → ℕ → Bytes → Result (List Bytes)
value_to_stripe rp capacity value =
    if length value == 0
    then ok (replicate (size rp) [])
    else let n = chunk_size capacity value in
      let used = (length value + n - 1) / n in
      compute rp (data_chunks value n 0 rp.num_data ++ replicate rp.num_parity []) >>= λ stripe.
      ok (clear_chunks (rp.num_data - used) used stripe)

-- KineticRecord: the tag is the number whose decimal digits are the tag of the record.
pub record KineticRecord : Type 0 where
  pub version : Bytes
  pub value : Option Bytes
  pub tag : ℕ

-- What reconstructValue collects from the records.
pub record Collected : Type 0 where
  pub stripe : List Bytes
  pub need_recovery : Bool
  pub need_indicator : Bool
  pub zeroed_indices : List ℕ

abbrev pub is_empty : Bytes → Bool
is_empty [] = true
is_empty (x ∷ xs) = false

-- The length of the first chunk that is not empty, or 0.
unfoldable pub first_length : List Bytes → ℕ
first_length [] = 0
first_length ([] ∷ cs) = first_length cs
first_length ((x ∷ c) ∷ cs) = suc (length c)

unfoldable pub set_all : List ℕ → Bytes → List Bytes → List Bytes
set_all [] zero_chunk stripe = stripe
set_all (i ∷ is) zero_chunk stripe = set_all is zero_chunk (set stripe i zero_chunk)

-- Step 2: the chunks merged into one value of the given size.
unfoldable pub merge_chunks : ℕ → List Bytes → Bytes → Bytes
merge_chunks total [] value = value
merge_chunks total (c ∷ cs) value =
    let rest = merge_chunks total cs (value ++ c) in
    if leb (length value + length c) total then rest else value ++ take (total - length value) c

-- The recovery of step 1.
unfoldable pub recover : RedundancyProvider → Collected → Result (List Bytes)
recover rp c =
    if c.need_recovery
    then compute rp (set_all c.zeroed_indices (replicate (first_length c.stripe) 0) c.stripe)
    else ok c.stripe

module _ (crc : Bytes → ℕ) where
  -- makeRecord
  unfoldable pub make_record : Bytes → Bytes → KineticRecord
  make_record value version = record { version = version; value = some value; tag = crc value }

  -- One record of step 1 that is present, has the version and a value: the checksum test.
  unfoldable pub collect_value : ℕ → ℕ → ℕ → Bytes → Collected → Collected
  collect_value num_data i tag value rest =
      if crc value == tag
      then record rest {
        stripe = value ∷ rest.stripe;
        zeroed_indices =
            if is_empty value && ltb i num_data
            then i ∷ rest.zeroed_indices
            else rest.zeroed_indices;
      }
      else record rest { stripe = [] ∷ rest.stripe; need_recovery = true; need_indicator = true }

  unfoldable pub collect_one : ℕ → Bytes → ℕ → Option KineticRecord → Collected → Collected
  unfolding collect_value
  collect_one num_data version i none rest = record rest {
    stripe = [] ∷ rest.stripe;
    need_recovery = true;
  }
  collect_one num_data version i (some r) rest = elim r.value [
    | none ↦ record rest { stripe = [] ∷ rest.stripe; need_recovery = true }
    | some value ↦
        if bytes_eq r.version version
        then collect_value num_data i r.tag value rest
        else record rest { stripe = [] ∷ rest.stripe; need_recovery = true }
  ]

  -- Step 1, from record `i` on.
  unfoldable pub collect : ℕ → Bytes → ℕ → List (Option KineticRecord) → Collected
  collect num_data version i [] = record {
    stripe = [];
    need_recovery = false;
    need_indicator = false;
    zeroed_indices = [];
  }
  collect num_data version i (r ∷ rs) =
      collect_one num_data version i r (collect num_data version (i + 1) rs)

  -- reconstructValue, with the size that the version tells.
  unfoldable pub reconstruct_value :
      RedundancyProvider → Bytes → ℕ → List (Option KineticRecord) → Result Bytes
  reconstruct_value rp version total records =
      if total == 0
      then ok []
      else recover rp (collect rp.num_data version 0 records) >>= λ stripe.
          ok (merge_chunks total stripe [])
