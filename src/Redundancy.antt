-- ===== src/Redundancy.antt =====
-- src/RedundancyProvider.cc: the check of a stripe and the computation of its missing chunks. A chunk
-- is its bytes, and a null chunk is an empty one: the code takes both for missing.
pub mod Damage
pub mod Recovery
use kineticio.Prelude.{
  ℕ, zero, suc, ◌+◌, ◌≤◌, ◌≡◌, Bool, true, false, List, [], ◌∷◌, ◌++◌, Option, none, some, length,
  get_elem?, ltb, ◌==◌, not, if◌then◌else◌, Result, ok, throw, ◌>>=◌, invalid_argument,
  out_of_range,
}
use kineticio.Str.{Bytes}

-- RedundancyProvider::CodingTable as getCodingTable returns it: the indices of the chunks that are
-- read, and ec_encode_data with the coding table.
pub record CodingTable : Type 0 where
  pub block_indices : List ℕ
  pub encode : List Bytes → List Bytes

-- `coding_table` stands for getCodingTable, which rests on the isa-l library.
pub record RedundancyProvider : Type 0 where
  pub num_data : ℕ
  pub num_parity : ℕ
  pub coding_table : List Bool → Result CodingTable

-- size()
abbrev pub size : RedundancyProvider → ℕ
size rp = rp.num_data + rp.num_parity

-- The loop of getErrorPattern: the pattern (true for a missing chunk) and the number of errors, given
-- the block size seen so far.
unfoldable pub scan_stripe : ℕ → List Bytes → Result (List Bool × ℕ)
scan_stripe block [] = ok ([], 0)
scan_stripe block ([] ∷ cs) = do (p, errors) ← scan_stripe block cs; ok (true ∷ p, suc errors)
scan_stripe block ((x ∷ c) ∷ cs) =
    let new_block = if block == 0 then suc (length c) else block in
    let rest = scan_stripe new_block cs in
    if new_block == suc (length c)
    then (do (p, errors) ← rest; ok (false ∷ p, errors))
    else throw invalid_argument

-- getErrorPattern
unfoldable pub error_pattern : RedundancyProvider → List Bytes → Result (List Bool)
unfolding scan_stripe
error_pattern rp stripe =
    if length stripe == size rp
    then (do
      (p, errors) ← scan_stripe 0 stripe
      if ltb rp.num_parity errors then throw invalid_argument else ok p)
    else throw invalid_argument

-- replication: the first chunk that is there, and the copies of it.
unfoldable pub first_valid : List Bool → List Bytes → Result Bytes
first_valid (false ∷ p) (c ∷ cs) = ok c
first_valid (true ∷ p) (c ∷ cs) = first_valid p cs
first_valid _ _ = throw out_of_range

unfoldable pub copy_to : Bytes → List Bool → List Bytes → List Bytes
copy_to v (true ∷ p) (c ∷ cs) = v ∷ copy_to v p cs
copy_to v (false ∷ p) (c ∷ cs) = c ∷ copy_to v p cs
copy_to v p cs = cs

unfoldable pub replication : List Bool → List Bytes → Result (List Bytes)
unfolding first_valid copy_to
replication p stripe = do v ← first_valid p stripe; ok (copy_to v p stripe)

-- The chunks that the coding table reads.
unfoldable pub pick : List ℕ → List Bytes → Result (List Bytes)
pick [] stripe = ok []
pick (i ∷ is) stripe = elim (get_elem? stripe i) [
  | none ↦ throw out_of_range
  | some c ↦ do cs ← pick is stripe; ok (c ∷ cs)
]

-- The computed chunks take the places of the missing ones, in order.
unfoldable pub fill : List Bool → List Bytes → List Bytes → List Bytes
fill (true ∷ p) (o ∷ os) (c ∷ cs) = o ∷ fill p os cs
fill (false ∷ p) os (c ∷ cs) = c ∷ fill p os cs
fill p os cs = cs

-- compute
-- erasure coding: the end of compute
unfoldable pub recode : RedundancyProvider → List Bool → List Bytes → Result (List Bytes)
recode rp p stripe = do
  table ← rp.coding_table p
  inputs ← pick table.block_indices stripe
  ok (fill p (table.encode inputs) stripe)

-- compute
unfoldable pub compute : RedundancyProvider → List Bytes → Result (List Bytes)
compute rp stripe = error_pattern rp stripe >>= λ p.
    if rp.num_parity == 0
    then ok stripe
    else if rp.num_data == 1
    then replication p stripe
    else recode rp p stripe
