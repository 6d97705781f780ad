-- ===== src/Placement.antt =====
-- Which connections the operations of a stripe go to: expandOperationVector of
-- src/KineticClusterOperation.cc and of src/KineticClusterStripeOperation.cc. A connection is its
-- index among `n`; the hash of the key, 32 bits wide, is an argument.
use kineticio.Prelude.{
  ℕ, zero, suc, ◌+◌, ◌-◌, ◌%◌, ◌≤◌, ◌<◌, ◌≡◌, ◌≢◌, refl, ap, sym, ◌∙◌, List, [], ◌∷◌, ◌++◌, some,
  length, get_elem?, arith, get_elem?_ext, get_elem?-append_left, get_elem?-append_right,
  get_elem?-beyond, ltb, Bool-cases, inl, inr,
}
use native.Mathlib.Nat.{mod-lt, mod-eq_of_lt, mod-add-mod, mod-eq-sub-mod}

abbrev pub word_mod : ℕ
word_mod = 4_294_967_296

-- KineticClusterOperation::expandOperationVector, from operation `i` on
unfoldable pub expand : ℕ → ℕ → ℕ → ℕ → List ℕ
expand n offset i zero = []
expand n offset i (suc size) = (i + offset) % n ∷ expand n offset (i + 1) size

-- The loop of KineticClusterStripeOperation::expandOperationVector; `index` is a uint32_t.
unfoldable pub place : ℕ → ℕ → ℕ → List ℕ
place n index zero = []
place n index (suc size) = let next = ((index + 1) % word_mod) % n in next ∷ place n next size

-- KineticClusterStripeOperation::expandOperationVector
unfoldable pub expand_stripe : ℕ → ℕ → ℕ → ℕ → List ℕ
unfolding place
expand_stripe n hash size offset = place n ((hash + offset) % word_mod) size

-- Less than `n` steps apart, the remainders differ.
mod_apart : (n x i j : ℕ) → i < j → j < i + n → (x + i) % n ≢ (x + j) % n
mod_apart n x i j h k e =
    let r = (x + i) % n in
    let d = j - i in
    let r_lt : r < n = mod-lt (x + i) (omega arith) in
    let sum : (r + d) % n ≡ r =
      mod-add-mod (x + i) n d ∙ (let f : x + i + d ≡ x + j = omega arith in rw f (sym e)) in
    elim (Bool-cases (ltb (r + d) n)) [
      | inl small ↦
          let f : (r + d) % n ≡ r + d = mod-eq_of_lt (ground arith) in omega (arith, sum, f)
      | inr large ↦
          let over : n ≤ r + d = ground arith in
          let g : (r + d - n) % n ≡ r + d - n = mod-eq_of_lt (omega arith) in
          let f : (r + d) % n ≡ r + d - n = mod-eq-sub-mod over ∙ g in omega (arith, sum, f)
    ]

length-place : (n index size : ℕ) → length (place n index size) ≡ size
unfolding place
length-place n index zero = refl
length-place n index (suc size) = ap suc (length-place n (((index + 1) % word_mod) % n) size)

some_injective : {a b : ℕ} → some a ≡ some b → a ≡ b
some_injective h = cc

module _ (n : ℕ) (some_drive : 0 < n) (few : n < word_mod) where
  -- The connections are consecutive.
  get_elem?-place :
      (index size j : ℕ)
      → j < size
      → get_elem? (place n index size) j ≡ some (((index + 1) % word_mod + j) % n)
  unfolding place
  get_elem?-place index zero j h = elim h [ ]
  get_elem?-place index (suc size) zero h =
      let x = (index + 1) % word_mod in
      let e : x + 0 ≡ x = omega arith in ap (λ y. some (y % n)) (sym e)
  get_elem?-place index (suc size) (suc j) h =
      let x = (index + 1) % word_mod in
      let small : x % n < n = mod-lt x some_drive in
      let e : (x % n + 1) % word_mod ≡ x % n + 1 = mod-eq_of_lt (omega arith) in
      let f : x % n + 1 + j ≡ x % n + suc j = omega arith in
      get_elem?-place (x % n) size j (omega arith)
      ∙ ap some (ap (λ y. (y + j) % n) e ∙ ap (λ y. y % n) f ∙ mod-add-mod x n (suc j))

  -- The operations of a stripe that has no more chunks than there are connections go to different
  -- connections.
  pub expand_stripe_apart :
      (hash size offset i j : ℕ)
      → size ≤ n
      → i < j
      → j < size
      → get_elem? (expand_stripe n hash size offset) i
        ≢ get_elem? (expand_stripe n hash size offset) j
  unfolding expand_stripe
  expand_stripe_apart hash size offset i j fits h k e =
      let start = (hash + offset) % word_mod in
      let at_i = get_elem?-place start size i (omega arith) in
      let at_j = get_elem?-place start size j k in
      mod_apart n ((start + 1) % word_mod) i j h (omega arith)
        (some_injective (sym at_i ∙ e ∙ at_j))

  get_elem?-expand_stripe :
      (hash size offset j : ℕ)
      → hash + offset + 1 < word_mod
      → j < size
      → get_elem? (expand_stripe n hash size offset) j ≡ some ((hash + offset + 1 + j) % n)
  unfolding expand_stripe
  get_elem?-expand_stripe hash size offset j small h =
      let e : (hash + offset) % word_mod ≡ hash + offset = mod-eq_of_lt (omega arith) in
      let f : (hash + offset + 1) % word_mod ≡ hash + offset + 1 = mod-eq_of_lt (omega arith) in
      get_elem?-place ((hash + offset) % word_mod) size j h
      ∙ ap (λ y. some (((y + 1) % word_mod + j) % n)) e
      ∙ ap (λ y. some ((y + j) % n)) f

  length-expand_stripe : (hash size offset : ℕ) → length (expand_stripe n hash size offset) ≡ size
  unfolding expand_stripe
  length-expand_stripe hash size offset = length-place n ((hash + offset) % word_mod) size

  -- The connections of a read that first asks for the data chunks, and then, with the number of these
  -- as the offset, for the parities, are those that the write of the whole stripe took, where the
  -- sum of hash and offset stays below 2 ^ 32 - 1.
  pub expand_stripe-append :
      (hash num_data num_parity : ℕ)
      → hash + num_data + 1 < word_mod
      → expand_stripe n hash num_data 0 ++ expand_stripe n hash num_parity num_data
        ≡ expand_stripe n hash (num_data + num_parity) 0
  expand_stripe-append hash num_data num_parity small =
      let first = expand_stripe n hash num_data 0 in
      let second = expand_stripe n hash num_parity num_data in
      let sized : length first ≡ num_data = length-expand_stripe hash num_data 0 in
      get_elem?_ext _ _ λ i. elim (Bool-cases (ltb i num_data)) [
        | inl h ↦
            get_elem?-append_left first second i (ground (arith, sized))
            ∙ get_elem?-expand_stripe hash num_data 0 i (omega arith) (ground arith)
            ∙ sym (
                get_elem?-expand_stripe hash (num_data + num_parity) 0 i (omega arith)
                  (ground arith))
        | inr h ↦
            get_elem?-append_right first second i (ground (arith, sized))
            ∙ ap (λ k. get_elem? second (i - k)) sized
            ∙ rest i (ground arith)
      ]
    where
      rest :
          (i : ℕ)
          → num_data ≤ i
          → get_elem? (expand_stripe n hash num_parity num_data) (i - num_data)
            ≡ get_elem? (expand_stripe n hash (num_data + num_parity) 0) i
      rest i h = elim (Bool-cases (ltb i (num_data + num_parity))) [
        | inl k ↦
            let e : hash + num_data + 1 + (i - num_data) ≡ hash + 0 + 1 + i = omega arith in
            get_elem?-expand_stripe hash num_parity num_data (i - num_data) (omega arith)
              (ground arith)
            ∙ ap (λ x. some (x % n)) e
            ∙ sym (
                get_elem?-expand_stripe hash (num_data + num_parity) 0 i (omega arith)
                  (ground arith))
        | inr k ↦
            get_elem?-beyond (expand_stripe n hash num_parity num_data) (i - num_data)
              (ground (arith, length-expand_stripe hash num_parity num_data))
            ∙ sym (
                get_elem?-beyond (expand_stripe n hash (num_data + num_parity) 0) i
                  (ground (arith, length-expand_stripe hash (num_data + num_parity) 0)))
      ]

get_elem?-expand :
    (n offset i size j : ℕ)
    → j < size
    → get_elem? (expand n offset i size) j ≡ some ((offset + i + j) % n)
unfolding expand
get_elem?-expand n offset i zero j h = elim h [ ]
get_elem?-expand n offset i (suc size) zero h =
    let e : i + offset ≡ offset + i + 0 = omega arith in ap (λ x. some (x % n)) e
get_elem?-expand n offset i (suc size) (suc j) h =
    let e : offset + (i + 1) + j ≡ offset + i + suc j = omega arith in
    get_elem?-expand n offset (i + 1) size j (omega arith) ∙ ap (λ x. some (x % n)) e

-- The operations of a request to the whole cluster, one for each of at most `n` connections, go to
-- different connections.
pub expand_apart :
    (n size offset i j : ℕ)
    → size ≤ n
    → i < j
    → j < size
    → get_elem? (expand n offset 0 size) i ≢ get_elem? (expand n offset 0 size) j
expand_apart n size offset i j fits h k e = mod_apart n (offset + 0) i j h (omega arith) (
    some_injective (
      sym (get_elem?-expand n offset 0 size i (omega arith))
      ∙ e
      ∙ get_elem?-expand n offset 0 size j k))
