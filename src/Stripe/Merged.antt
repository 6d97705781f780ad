-- ===== src/Stripe/Merged.antt =====
-- The chunks of a stripe put together after losses (src/KineticClusterStripeOperation.cc:
-- reconstructValue).
use kineticio.Prelude.{
  ℕ, suc, ◌+◌, ◌≤◌, ◌<◌, ◌≡◌, refl, ap, ◌∙◌, inl, inr, Bool, true, false, List, [], ◌∷◌, ◌++◌,
  Option, length, replicate, ◌==◌, arith, length-append, length-replicate, append_assoc, Bool-cases,
  ok,
}
use kineticio.Str.{Bytes}
use kineticio.Redundancy.{RedundancyProvider, size, compute}
use kineticio.Redundancy.Damage.{Uniform, errors, damage}
use kineticio.Redundancy.Recovery.{IsErasureCode, IsStripe, compute-damage}
use kineticio.Stripe.{KineticRecord, first_length, collect, recover, reconstruct_value}
use kineticio.Stripe.Chunks.{concat, concat-append, merge_chunks_lem}
use kineticio.Stripe.RoundTrip.{
  Served, any_lost, collect_lem, length-Served, set_all_lem, first_length-damage, Cleared-stripe,
}

any_lost-damage : (q : List Bool) (cs : List Bytes) → any_lost q ≡ false → damage q cs ≡ cs
any_lost-damage [] cs h = refl
any_lost-damage (true ∷ q) cs h = cc
any_lost-damage (false ∷ q) [] h = refl
any_lost-damage (false ∷ q) (c ∷ cs) h = ap (◌∷◌ c) (any_lost-damage q cs h)

-- A stripe as it is written: full data chunks, cleared ones, and the parities.
module _ (rp : RedundancyProvider) (code : IsErasureCode rp) (crc : Bytes → ℕ) (version : Bytes)
    (m : ℕ) (a tail : List Bytes) (k : ℕ) (some_data : 0 < rp.num_data) (some_chunk : 0 < length a)
    (counted : length a + k ≡ rp.num_data) (parities : length tail ≡ rp.num_parity)
    (full_u : Uniform (suc m) (a ++ (replicate k (replicate (suc m) 0) ++ tail)))
    (a_u : Uniform (suc m) a) (tail_u : Uniform (suc m) tail)
    (kind : IsStripe rp code (a ++ (replicate k (replicate (suc m) 0) ++ tail)))
    (records : List (Option KineticRecord)) (p : List Bool)
    (served : Served crc version (a ++ (replicate k [] ++ tail)) records p)
    (few : errors p ≤ rp.num_parity) where
  abbrev zeros : Bytes
  zeros = replicate (suc m) 0

  abbrev full : List Bytes
  full = a ++ (replicate k zeros ++ tail)

  abbrev sent : List Bytes
  sent = a ++ (replicate k [] ++ tail)

  length-full : length full ≡ size rp
  length-full = omega (
    arith,
    length-append a (replicate k zeros ++ tail),
    length-append (replicate k zeros) tail,
    length-replicate k zeros,
  )

  length-sent : length sent ≡ size rp
  length-sent = omega (
    arith,
    length-append a (replicate k [] ++ tail),
    length-append (replicate {A = Bytes} k []) tail,
    length-replicate {A = Bytes} k [],
  )

  covers : length p ≡ length sent
  covers = length-Served crc version sent records p served

  restored : any_lost p ≡ true → recover rp (collect crc rp.num_data version 0 records) ≡ ok full
  unfolding recover
  restored lost =
      let (stripe, recovery, zeroed) =
        collect_lem crc version rp.num_data 0 sent records p served in
      let (cleared, f) = Cleared-stripe rp.num_data m zeros a k 0 tail (omega arith) a_u tail_u in
      let first : first_length (damage p sent) ≡ suc m =
        first_length-damage m rp.num_data 0 zeros sent full p cleared full_u covers (omega arith) in
      rw (recovery ∙ lost, stripe, zeroed, first, recover)
        (ap (compute rp) (set_all_lem rp.num_data 0 zeros [] sent full p covers refl cleared)
          ∙ compute-damage rp code m p full kind some_data length-full full_u (covers ∙ length-sent)
              few)

  untouched : any_lost p ≡ false → recover rp (collect crc rp.num_data version 0 records) ≡ ok sent
  unfolding recover
  untouched whole =
      let (stripe, recovery, zeroed) =
        collect_lem crc version rp.num_data 0 sent records p served in
      rw (recovery ∙ whole, stripe, recover) (ap ok (any_lost-damage p sent whole))

  pub merged :
      (value pad : Bytes)
      → 0 < length value
      → concat a ≡ value ++ pad
      → reconstruct_value crc rp version (length value) records ≡ ok value
  unfolding reconstruct_value
  merged value pad some_bytes begins =
      let filled_first : (rest : List Bytes) → concat (a ++ rest) ≡ value ++ (pad ++ concat rest) =
        λ rest.
          concat-append a rest
          ∙ ap (λ x. x ++ concat rest) begins
          ∙ append_assoc value pad (concat rest) in
      let nonzero : (length value == 0) ≡ false = ground arith in
      elim (Bool-cases (any_lost p)) [
        | inl lost ↦
            rw (nonzero, restored lost, reconstruct_value)
              (ap ok (merge_chunks_lem value _ full (filled_first (replicate k zeros ++ tail))))
        | inr whole ↦
            rw (nonzero, untouched whole, reconstruct_value)
              (ap ok (merge_chunks_lem value _ sent (filled_first (replicate k [] ++ tail))))
      ]
