-- ===== src/Stripe/Chunks.antt =====
-- How a value lies in the chunks of its stripe (src/KineticCluster.cc: valueToStripe).
use kineticio.Prelude.{
  ℕ, zero, suc, ◌+◌, ◌-◌, ◌*◌, ◌≤◌, ◌≡◌, refl, ap, sym, ◌∙◌, inl, inr, true, List, [], ◌∷◌, ◌++◌,
  length, take, drop, replicate, set, ltb, leb, arith, length-take, length-append, length-replicate,
  append-nil, append_assoc, take_of_length-le, take-append-drop, Bool-cases,
}
use kineticio.Str.{Bytes, resize, length-resize}
use kineticio.Redundancy.Damage.{Uniform}
use kineticio.Stripe.{data_chunk, data_chunks, clear_chunks, merge_chunks}

abbrev pub concat : List Bytes → Bytes
concat [] = []
concat (c ∷ cs) = c ++ concat cs

pub concat-append : (xs ys : List Bytes) → concat (xs ++ ys) ≡ concat xs ++ concat ys
concat-append [] ys = refl
concat-append (x ∷ xs) ys =
    ap (◌++◌ x) (concat-append xs ys) ∙ sym (append_assoc x (concat xs) (concat ys))

drop-beyond : (n : ℕ) (xs : Bytes) → length xs ≤ n → drop n xs ≡ []
drop-beyond zero [] h = refl
drop-beyond (suc n) [] h = refl
drop-beyond zero (x ∷ xs) h = absurd (omega arith)
drop-beyond (suc n) (x ∷ xs) h = drop-beyond n xs (omega arith)

drop-nil : (n : ℕ) → drop {A = ℕ} n [] ≡ []
drop-nil n = drop-beyond n [] (omega arith)

drop-drop : (m n : ℕ) (xs : Bytes) → drop n (drop m xs) ≡ drop (m + n) xs
drop-drop zero n xs = let e : 0 + n ≡ n = omega arith in rw e
drop-drop (suc m) n [] = drop-nil n ∙ sym (drop-nil (suc m + n))
drop-drop (suc m) n (x ∷ xs) =
    let e : suc m + n ≡ suc (m + n) = omega arith in rw e (drop-drop m n xs)

take-append_left : (xs ys : Bytes) → take (length xs) (xs ++ ys) ≡ xs
take-append_left [] ys = refl
take-append_left (x ∷ xs) ys = ap (◌∷◌ x) (take-append_left xs ys)

take-append_some :
    (n : ℕ) (xs ys : Bytes) → length xs ≤ n → take n (xs ++ ys) ≡ xs ++ take (n - length xs) ys
take-append_some n [] ys h = let e : n - 0 ≡ n = omega arith in rw e
take-append_some zero (x ∷ xs) ys h = absurd (omega arith)
take-append_some (suc n) (x ∷ xs) ys h =
    let e : suc n - suc (length xs) ≡ n - length xs = omega arith in
    rw e (ap (◌∷◌ x) (take-append_some n xs ys (omega arith)))

take_within : (n : ℕ) (xs ys : Bytes) → n ≤ length xs → take n (xs ++ ys) ≡ take n xs
take_within zero xs ys h = refl
take_within (suc n) [] ys h = absurd (omega arith)
take_within (suc n) (x ∷ xs) ys h = ap (◌∷◌ x) (take_within n xs ys (omega arith))

-- The merge is the first `total` bytes of the chunks.
pub merge_chunks-take :
    (total : ℕ) (cs : List Bytes) (value : Bytes)
    → length value ≤ total
    → merge_chunks total cs value ≡ take total (value ++ concat cs)
unfolding merge_chunks
merge_chunks-take total [] value h = rw append-nil (sym (take_of_length-le total value h))
merge_chunks-take total (c ∷ cs) value h = elim (Bool-cases (leb (length value + length c) total)) [
  | inl room ↦ rw room (
      merge_chunks-take total cs (value ++ c) (ground (arith, length-append value c))
      ∙ ap (take total) (append_assoc value c (concat cs)))
  | inr full ↦ rw full (
      sym (
        take-append_some total value (c ++ concat cs) h
        ∙ ap (◌++◌ value) (take_within (total - length value) c (concat cs) (ground arith))))
]

-- So it is the value, if the chunks begin with it.
pub merge_chunks_lem :
    (value rest : Bytes) (cs : List Bytes)
    → concat cs ≡ value ++ rest
    → merge_chunks (length value) cs [] ≡ value
merge_chunks_lem value rest cs e =
    merge_chunks-take (length value) cs [] (omega arith) ∙ rw e (take-append_left value rest)

module _ (value : Bytes) (n : ℕ) where
  length-data_chunk : (i : ℕ) → length (data_chunk value n i) ≡ n
  unfolding data_chunk
  length-data_chunk i =
      ground (arith, length-resize n 0 (take n (drop (i * n) value)), length-replicate {A = ℕ} n 0)

  pub data_chunks-Uniform :
      (i k : ℕ) → (length (data_chunks value n i k) ≡ k) × Uniform n (data_chunks value n i k)
  unfolding data_chunks
  data_chunks-Uniform i zero = (refl, tt)
  data_chunks-Uniform i (suc k) =
      let (l, u) = data_chunks-Uniform (i + 1) k in (ap suc l, (length-data_chunk i, u))

  pub data_chunks-add :
      (i k m : ℕ)
      → data_chunks value n i (k + m) ≡ data_chunks value n i k ++ data_chunks value n (i + k) m
  unfolding data_chunks
  data_chunks-add i zero m =
      let e : 0 + m ≡ m = omega arith in let f : i + 0 ≡ i = omega arith in rw (e, f)
  data_chunks-add i (suc k) m =
      let e : suc k + m ≡ suc (k + m) = omega arith in
      let f : i + suc k ≡ i + 1 + k = omega arith in
      rw (e, f) (ap (◌∷◌ (data_chunk value n i)) (data_chunks-add (i + 1) k m))

  -- Past the value the chunks hold only 0.
  pub data_chunks_past :
      (i k : ℕ) → length value ≤ i * n → data_chunks value n i k ≡ replicate k (replicate n 0)
  unfolding data_chunks data_chunk
  data_chunks_past i zero h = refl
  data_chunks_past i (suc k) h = ground (arith, data_chunks_past (i + 1) k (omega arith))

  chunk_filled : (d : Bytes) → (pad : Bytes) × (resize n 0 (take n d) ++ drop n d ≡ d ++ pad)
  unfolding resize
  chunk_filled d = elim (Bool-cases (leb n (length d))) [
    | inl h ↦
        let e : n - length (take n d) ≡ 0 = ground (arith, length-take n d) in
        (
          [],
          rw (e, append-nil, append-nil)
              (ap (λ x. x ++ drop n d)
                  (take_of_length-le n (take n d) (omega (arith, length-take n d)))
                ∙ take-append-drop n d),
        )
    | inr h ↦
        let short : length d ≤ n = ground arith in
        (
          replicate (n - length d) 0,
          rw (
            take_of_length-le n d short,
            take_of_length-le n d short,
            drop-beyond n d short,
            append-nil,
          ),
        )
  ]

  chunk_inside :
      (i : ℕ)
      → ltb (i * n) (length value) ≡ true
      → data_chunk value n i ≡ resize n 0 (take n (drop (i * n) value))
  unfolding data_chunk
  chunk_inside i h = rw h

  -- The chunks from `i` on hold the rest of the value, and then padding.
  pub concat-data_chunks :
      (k i : ℕ)
      → length value ≤ (i + k) * n
      → (pad : Bytes) × (concat (data_chunks value n i k) ≡ drop (i * n) value ++ pad)
  unfolding data_chunks
  concat-data_chunks zero i h = ([], rw append-nil (sym (drop-beyond (i * n) value (omega arith))))
  concat-data_chunks (suc k) i h =
      let (tail, e) = concat-data_chunks k (i + 1) (omega arith) in
      elim (Bool-cases (ltb (i * n) (length value))) [
        | inl inside ↦
            let d = drop (i * n) value in
            let (pad, f) = chunk_filled d in
            let next : drop ((i + 1) * n) value ≡ drop n d =
              (let q : (i + 1) * n ≡ i * n + n = omega arith in
                rw q (sym (drop-drop (i * n) n value))) in
            (
              pad ++ tail,
              ap (◌++◌ (data_chunk value n i)) (e ∙ ap (λ x. x ++ tail) next)
                  ∙ ap (λ x. x ++ (drop n d ++ tail)) (chunk_inside i inside)
                  ∙ sym (append_assoc (resize n 0 (take n d)) (drop n d) tail)
                  ∙ ap (λ x. x ++ tail) f
                  ∙ append_assoc d pad tail,
            )
        | inr outside ↦ (
          data_chunk value n i ++ concat (data_chunks value n (i + 1) k),
          sym (
              ap (λ x. x ++ (data_chunk value n i ++ concat (data_chunks value n (i + 1) k)))
                (drop-beyond (i * n) value (ground arith))),
        )
      ]

pub set-length :
    {A : Type 0} (pre : List A) (x y : A) (post : List A)
    → set (pre ++ x ∷ post) (length pre) y ≡ pre ++ y ∷ post
set-length [] x y post = refl
set-length (p ∷ pre) x y post = ap (◌∷◌ p) (set-length pre x y post)

-- The loop that clears the chunks of 0 leaves the chunks before and after them.
pub clear_chunks_lem :
    (zs pre t : List Bytes)
    → clear_chunks (length zs) (length pre) (pre ++ (zs ++ t))
      ≡ pre ++ (replicate (length zs) [] ++ t)
unfolding clear_chunks
clear_chunks_lem [] pre t = refl
clear_chunks_lem (z ∷ zs) pre t =
    let e : length (pre ++ [] ∷ []) ≡ length pre + 1 = omega (arith, length-append pre ([] ∷ [])) in
    ap (clear_chunks (length zs) (length pre + 1)) (set-length pre z [] (zs ++ t))
    ∙ (ap (clear_chunks (length zs) (length pre + 1)) (sym (append_assoc pre ([] ∷ []) (zs ++ t)))
        ∙ ap (λ k. clear_chunks (length zs) k ((pre ++ [] ∷ []) ++ (zs ++ t))) (sym e)
        ∙ clear_chunks_lem zs (pre ++ [] ∷ []) t
        ∙ append_assoc pre ([] ∷ []) (replicate (length zs) [] ++ t))
