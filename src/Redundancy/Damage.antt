-- ===== src/Redundancy/Damage.antt =====
-- Stripes with missing chunks and what compute's helpers make of them
-- (src/RedundancyProvider.cc).
use kineticio.Prelude.{
  ℕ, zero, suc, ◌+◌, ◌≤◌, ◌<◌, ◌≡◌, refl, ap, subst, ◌⊎◌, inl, inr, Bool, true, false, List, [],
  ◌∷◌, ◌++◌, some, length, arith, get_elem?, ok, replicate, le→not-ltb, ==_refl,
}
use kineticio.Str.{Bytes}
use kineticio.Redundancy.{
  RedundancyProvider, size, scan_stripe, error_pattern, first_valid, copy_to, replication, pick,
  fill,
}

-- The number of errors of a pattern.
abbrev pub errors : List Bool → ℕ
errors [] = 0
errors (true ∷ p) = suc (errors p)
errors (false ∷ p) = errors p

-- The stripe with the chunks of the pattern missing, and those chunks.
abbrev pub damage : List Bool → List Bytes → List Bytes
damage (true ∷ p) (c ∷ cs) = [] ∷ damage p cs
damage (false ∷ p) (c ∷ cs) = c ∷ damage p cs
damage p cs = cs

abbrev pub missing : List Bool → List Bytes → List Bytes
missing (true ∷ p) (c ∷ cs) = c ∷ missing p cs
missing (false ∷ p) (c ∷ cs) = missing p cs
missing p cs = []

-- Every chunk has the same length.
abbrev pub Uniform : ℕ → List Bytes → Type 0
Uniform n [] = Unit {0}
Uniform n (c ∷ cs) = (length c ≡ n) × Uniform n cs

abbrev pub Healthy : List Bool → List ℕ → Type 0
Healthy p [] = Unit {0}
Healthy p (i ∷ is) = (get_elem? p i ≡ some false) × Healthy p is

pub scan_stripe-damage :
    (n block : ℕ) (p : List Bool) (cs : List Bytes)
    → length p ≡ length cs
    → Uniform (suc n) cs
    → ((block ≡ 0) ⊎ (block ≡ suc n))
    → scan_stripe block (damage p cs) ≡ ok (p, errors p)
unfolding scan_stripe
scan_stripe-damage n block [] [] l u b = refl
scan_stripe-damage n block [] (c ∷ cs) l u b = absurd (omega arith)
scan_stripe-damage n block (x ∷ p) [] l u b = absurd (omega arith)
scan_stripe-damage n block (true ∷ p) (c ∷ cs) l (e, u) b =
    rw (scan_stripe-damage n block p cs (omega arith) u b)
scan_stripe-damage n block (false ∷ p) ([] ∷ cs) l (e, u) b = absurd (omega arith)
scan_stripe-damage n block (false ∷ p) ((x ∷ c) ∷ cs) l (e, u) b =
    ground (arith, scan_stripe-damage n (suc n) p cs (omega arith) u (inr refl))

pub length-damage : (p : List Bool) (cs : List Bytes) → length (damage p cs) ≡ length cs
length-damage [] cs = refl
length-damage (true ∷ p) [] = refl
length-damage (false ∷ p) [] = refl
length-damage (true ∷ p) (c ∷ cs) = ap suc (length-damage p cs)
length-damage (false ∷ p) (c ∷ cs) = ap suc (length-damage p cs)

module _ (rp : RedundancyProvider) (n : ℕ) (p : List Bool) (full : List Bytes)
    (sized : length full ≡ size rp) (covers : length p ≡ length full)
    (uniform : Uniform (suc n) full) (few : errors p ≤ rp.num_parity) where
  pub error_pattern-damage : error_pattern rp (damage p full) ≡ ok p
  unfolding error_pattern
  error_pattern-damage =
      rw
        (
          length-damage p full,
          sized,
          ==_refl (size rp),
          scan_stripe-damage n 0 p full covers uniform (inl refl),
        )
        (rw (le→not-ltb rp.num_parity (errors p) few))

pub fill-damage :
    (p : List Bool) (cs : List Bytes)
    → length p ≡ length cs
    → fill p (missing p cs) (damage p cs) ≡ cs
unfolding fill
fill-damage [] cs l = refl
fill-damage (x ∷ p) [] l = absurd (omega arith)
fill-damage (true ∷ p) (c ∷ cs) l = ap (◌∷◌ c) (fill-damage p cs (omega arith))
fill-damage (false ∷ p) (c ∷ cs) l = ap (◌∷◌ c) (fill-damage p cs (omega arith))

pub get_elem?-damage :
    (p : List Bool) (cs : List Bytes) (i : ℕ)
    → get_elem? p i ≡ some false
    → get_elem? (damage p cs) i ≡ get_elem? cs i
get_elem?-damage [] cs i h = refl
get_elem?-damage (true ∷ p) [] i h = refl
get_elem?-damage (false ∷ p) [] i h = refl
get_elem?-damage (true ∷ p) (c ∷ cs) zero h = cc
get_elem?-damage (false ∷ p) (c ∷ cs) zero h = refl
get_elem?-damage (true ∷ p) (c ∷ cs) (suc i) h = get_elem?-damage p cs i h
get_elem?-damage (false ∷ p) (c ∷ cs) (suc i) h = get_elem?-damage p cs i h

pub pick-damage :
    (p : List Bool) (cs : List Bytes) (is : List ℕ)
    → Healthy p is
    → pick is (damage p cs) ≡ pick is cs
unfolding pick
pick-damage p cs [] h = refl
pick-damage p cs (i ∷ is) (h, hs) =
    ground (arith, get_elem?-damage p cs i h, pick-damage p cs is hs)

pub damage_none : (p : List Bool) (cs : List Bytes) → errors p ≡ 0 → damage p cs ≡ cs
damage_none [] cs h = refl
damage_none (true ∷ p) cs h = absurd (omega arith)
damage_none (false ∷ p) [] h = refl
damage_none (false ∷ p) (c ∷ cs) h = ap (◌∷◌ c) (damage_none p cs h)

pub errors-le : (p : List Bool) → errors p ≤ length p
errors-le [] = omega arith
errors-le (true ∷ p) = omega (arith, errors-le p)
errors-le (false ∷ p) = omega (arith, errors-le p)

pub copy_to-damage :
    (c : Bytes) (p : List Bool)
    → copy_to c p (damage p (replicate (length p) c)) ≡ replicate (length p) c
unfolding copy_to
copy_to-damage c [] = refl
copy_to-damage c (true ∷ p) = ap (◌∷◌ c) (copy_to-damage c p)
copy_to-damage c (false ∷ p) = ap (◌∷◌ c) (copy_to-damage c p)

pub first_valid-damage :
    (c : Bytes) (p : List Bool)
    → errors p < length p
    → first_valid p (damage p (replicate (length p) c)) ≡ ok c
unfolding first_valid
first_valid-damage c [] h = absurd (omega arith)
first_valid-damage c (true ∷ p) h = first_valid-damage c p (omega arith)
first_valid-damage c (false ∷ p) h = refl

pub replication-damage :
    (c : Bytes) (p : List Bool) (k : ℕ)
    → length p ≡ k
    → errors p < k
    → replication p (damage p (replicate k c)) ≡ ok (replicate k c)
unfolding replication
replication-damage c p k e h =
    subst (λ m. replication p (damage p (replicate m c)) ≡ ok (replicate m c)) e
      (ground (arith, first_valid-damage c p (omega arith), copy_to-damage c p))

pub Uniform-append_left : (n : ℕ) (xs ys : List Bytes) → Uniform n (xs ++ ys) → Uniform n xs
Uniform-append_left n [] ys u = tt
Uniform-append_left n (x ∷ xs) ys (h, u) = (h, Uniform-append_left n xs ys u)

pub Uniform-append :
    (n : ℕ) (xs ys : List Bytes) → Uniform n xs → Uniform n ys → Uniform n (xs ++ ys)
Uniform-append n [] ys u v = v
Uniform-append n (x ∷ xs) ys (h, u) v = (h, Uniform-append n xs ys u v)

-- The pattern of a stripe whose parities are not computed yet.
abbrev pub fresh_pattern : ℕ → ℕ → List Bool
fresh_pattern zero m = replicate m true
fresh_pattern (suc k) m = false ∷ fresh_pattern k m

pub fresh_pattern_lem :
    (k m : ℕ) → (length (fresh_pattern k m) ≡ k + m) × (errors (fresh_pattern k m) ≡ m)
fresh_pattern_lem (suc k) m = let (a, b) = fresh_pattern_lem k m in (omega arith, b)
fresh_pattern_lem zero zero = (omega arith, refl)
fresh_pattern_lem zero (suc m) = let (a, b) = fresh_pattern_lem zero m in (omega arith, omega arith)

pub damage-fresh_pattern :
    (k m : ℕ) (xs ys : List Bytes)
    → length xs ≡ k
    → length ys ≡ m
    → damage (fresh_pattern k m) (xs ++ ys) ≡ xs ++ replicate m []
damage-fresh_pattern zero zero [] [] h l = refl
damage-fresh_pattern zero (suc m) [] (y ∷ ys) h l =
    ap (◌∷◌ []) (damage-fresh_pattern zero m [] ys refl (omega arith))
damage-fresh_pattern (suc k) m (x ∷ xs) ys h l =
    ap (◌∷◌ x) (damage-fresh_pattern k m xs ys (omega arith) l)
damage-fresh_pattern zero zero [] (y ∷ ys) h l = absurd (omega arith)
damage-fresh_pattern zero (suc m) [] [] h l = absurd (omega arith)
damage-fresh_pattern zero m (x ∷ xs) ys h l = absurd (omega arith)
damage-fresh_pattern (suc k) m [] ys h l = absurd (omega arith)

pub Uniform-replicate : (n m : ℕ) (c : Bytes) → length c ≡ n → Uniform n (replicate m c)
Uniform-replicate n zero c h = tt
Uniform-replicate n (suc m) c h = (h, Uniform-replicate n m c h)

abbrev pub first_or_empty : List Bytes → Bytes
first_or_empty [] = []
first_or_empty (c ∷ cs) = c
