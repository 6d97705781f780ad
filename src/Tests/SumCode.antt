-- ===== src/Tests/SumCode.antt =====
-- A code for two data chunks and one parity, their sum: a stand-in for isa-l's table
-- (src/RedundancyProvider.cc: getCodingTable) that shows what is assumed of the table can hold.
use kineticio.Prelude.{
  ℕ, suc, ◌+◌, ◌-◌, ◌≤◌, ◌≡◌, refl, ap, sym, ◌∙◌, Bool, true, false, List, [], ◌∷◌, ◌++◌, arith,
  length, Result, ok, throw, invalid_argument,
}
use kineticio.Str.{Bytes}
use kineticio.Redundancy.{CodingTable, RedundancyProvider, pick}
use kineticio.Redundancy.Damage.{Uniform, errors, missing, Healthy}
use kineticio.Redundancy.Recovery.{IsErasureCode}

abbrev pub plus : Bytes → Bytes → Bytes
plus (x ∷ xs) (y ∷ ys) = (x + y) ∷ plus xs ys
plus _ _ = []

abbrev pub minus : Bytes → Bytes → Bytes
minus (x ∷ xs) (y ∷ ys) = (x - y) ∷ minus xs ys
minus _ _ = []

length-plus : (a b : Bytes) → length a ≡ length b → length (plus a b) ≡ length a
length-plus [] b h = refl
length-plus (x ∷ a) [] h = absurd (omega arith)
length-plus (x ∷ a) (y ∷ b) h = ap suc (length-plus a b (omega arith))

minus-plus_left : (a b : Bytes) → length a ≡ length b → minus (plus a b) b ≡ a
minus-plus_left [] b h = refl
minus-plus_left (x ∷ a) [] h = absurd (omega arith)
minus-plus_left (x ∷ a) (y ∷ b) h =
    let e : x + y - y ≡ x = omega arith in rw (e, minus-plus_left a b (omega arith))

minus-plus_right : (a b : Bytes) → length a ≡ length b → minus (plus a b) a ≡ b
minus-plus_right [] [] h = refl
minus-plus_right [] (y ∷ b) h = absurd (omega arith)
minus-plus_right (x ∷ a) [] h = absurd (omega arith)
minus-plus_right (x ∷ a) (y ∷ b) h =
    let e : x + y - x ≡ y = omega arith in rw (e, minus-plus_right a b (omega arith))

abbrev pub sum_chunks : List Bytes → List Bytes
sum_chunks (a ∷ b ∷ []) = plus a b ∷ []
sum_chunks _ = []

abbrev pub rest_chunk : List Bytes → List Bytes
rest_chunk (d ∷ s ∷ []) = minus s d ∷ []
rest_chunk _ = []

abbrev pub sum_table : List Bool → Result CodingTable
sum_table (false ∷ false ∷ false ∷ []) = ok (record { block_indices = []; encode = λ _. [] })
sum_table (true ∷ false ∷ false ∷ []) =
    ok (record { block_indices = 1 ∷ 2 ∷ []; encode = rest_chunk })
sum_table (false ∷ true ∷ false ∷ []) =
    ok (record { block_indices = 0 ∷ 2 ∷ []; encode = rest_chunk })
sum_table (false ∷ false ∷ true ∷ []) =
    ok (record { block_indices = 0 ∷ 1 ∷ []; encode = sum_chunks })
sum_table _ = throw invalid_argument

abbrev pub sum_provider : RedundancyProvider
sum_provider = record { num_data = 2; num_parity = 1; coding_table = sum_table }

pub length-sum_chunks :
    (n : ℕ) (chunks : List Bytes)
    → length chunks ≡ 2
    → Uniform n chunks
    → (length (sum_chunks chunks) ≡ 1) × Uniform n (sum_chunks chunks)
length-sum_chunks n [] h u = absurd (omega arith)
length-sum_chunks n (a ∷ []) h u = absurd (omega arith)
length-sum_chunks n (a ∷ b ∷ []) h (e, (f, u)) = (refl, (length-plus a b (e ∙ sym f) ∙ e, tt))
length-sum_chunks n (a ∷ b ∷ c ∷ cs) h u = absurd (omega arith)

abbrev pub Decoded : List Bool → List Bytes → Type 0
Decoded p chunks =
    (table : CodingTable) × (inputs : List Bytes) × (sum_table p ≡ ok table)
    × Healthy p table.block_indices
    × (pick table.block_indices (chunks ++ sum_chunks chunks) ≡ ok inputs)
    × (table.encode inputs ≡ missing p (chunks ++ sum_chunks chunks))

sum_decodes :
    (a b : Bytes) (p : List Bool)
    → length a ≡ length b
    → length p ≡ 3
    → errors p ≤ 1
    → Decoded p (a ∷ b ∷ [])
unfolding pick
sum_decodes a b (false ∷ false ∷ false ∷ []) h l few = (_, [], refl, tt, refl, refl)
sum_decodes a b (true ∷ false ∷ false ∷ []) h l few =
    (_, b ∷ plus a b ∷ [], refl, (refl, (refl, tt)), refl, ap (λ x. x ∷ []) (minus-plus_left a b h))
sum_decodes a b (false ∷ true ∷ false ∷ []) h l few = (
  _,
  a ∷ plus a b ∷ [],
  refl,
  (refl, (refl, tt)),
  refl,
  ap (λ x. x ∷ []) (minus-plus_right a b h),
)
sum_decodes a b (false ∷ false ∷ true ∷ []) h l few =
    (_, a ∷ b ∷ [], refl, (refl, (refl, tt)), refl, refl)
sum_decodes a b (x ∷ y ∷ z ∷ u ∷ p) h l few = absurd (omega arith)
sum_decodes a b [] h l few = absurd (omega arith)
sum_decodes a b (x ∷ []) h l few = absurd (omega arith)
sum_decodes a b (x ∷ y ∷ []) h l few = absurd (omega arith)
sum_decodes a b (true ∷ true ∷ true ∷ []) h l few = absurd (omega arith)
sum_decodes a b (true ∷ true ∷ false ∷ []) h l few = absurd (omega arith)
sum_decodes a b (true ∷ false ∷ true ∷ []) h l few = absurd (omega arith)
sum_decodes a b (false ∷ true ∷ true ∷ []) h l few = absurd (omega arith)

pub decodes_lem :
    (n : ℕ) (chunks : List Bytes) (p : List Bool)
    → length chunks ≡ 2
    → Uniform (suc n) chunks
    → length p ≡ 3
    → errors p ≤ 1
    → Decoded p chunks
decodes_lem n [] p h u l few = absurd (omega arith)
decodes_lem n (a ∷ []) p h u l few = absurd (omega arith)
decodes_lem n (a ∷ b ∷ []) p h (e, (f, u)) l few = sum_decodes a b p (e ∙ sym f) l few
decodes_lem n (a ∷ b ∷ c ∷ cs) p h u l few = absurd (omega arith)

abbrev pub sum_code : IsErasureCode sum_provider
sum_code = record { parity = sum_chunks; length-parity = length-sum_chunks; decodes = decodes_lem }
