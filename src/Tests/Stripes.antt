-- ===== src/Tests/Stripes.antt =====
-- Examples for stripes (src/RedundancyProvider.cc, src/KineticCluster.cc: valueToStripe,
-- src/KineticClusterStripeOperation.cc: reconstructValue).
use kineticio.Prelude.{
  ◌≤◌, ◌≡◌, refl, Bool, true, false, List, [], ◌∷◌, Option, none, some, arith, length, ok, bytes_eq,
}
use kineticio.Str.{Bytes}
use kineticio.Redundancy.{compute, error_pattern, recode, pick, fill}
use kineticio.Redundancy.Damage.{errors}
use kineticio.Redundancy.Recovery.{coded, compute-damage}
use kineticio.Stripe.{
  KineticRecord, value_to_stripe, reconstruct_value, recover, collect, collect_one, set_all,
  merge_chunks,
}
use kineticio.Stripe.RoundTrip.{Served}
use kineticio.Stripe.Whole.{reconstruct_value-value_to_stripe}
use kineticio.Tests.SumCode.{sum_provider, sum_code}

abbrev full : List Bytes
full = (1 ∷ 2 ∷ []) ∷ (3 ∷ 4 ∷ []) ∷ (4 ∷ 6 ∷ []) ∷ []

compute-damage_example : compute sum_provider ((1 ∷ 2 ∷ []) ∷ [] ∷ (4 ∷ 6 ∷ []) ∷ []) ≡ ok full
compute-damage_example =
    compute-damage sum_provider sum_code 1 (false ∷ true ∷ false ∷ []) full
      (coded ((1 ∷ 2 ∷ []) ∷ (3 ∷ 4 ∷ []) ∷ []) refl refl refl) (omega arith) refl
      (refl, (refl, (refl, tt))) refl (omega arith)

reconstruct_value-value_to_stripe_example :
    (stripe : List Bytes) × (value_to_stripe sum_provider 2 (1 ∷ 2 ∷ 3 ∷ []) ≡ ok stripe)
    × (length stripe ≡ 3)
    × ((records : List (Option KineticRecord)) (p : List Bool)
        → Served length (7 ∷ []) stripe records p
        → errors p ≤ 1
        → reconstruct_value length sum_provider (7 ∷ []) 3 records ≡ ok (1 ∷ 2 ∷ 3 ∷ []))
reconstruct_value-value_to_stripe_example =
    reconstruct_value-value_to_stripe sum_provider sum_code length 2 (1 ∷ 2 ∷ 3 ∷ []) (7 ∷ [])
      (omega arith) (omega arith) (omega arith)

-- The middle chunk has no answer, and the value is read all the same.
one_lost :
    reconstruct_value length sum_provider (7 ∷ []) 3 (
      some (record { version = 7 ∷ []; value = some (1 ∷ 2 ∷ []); tag = 2 })
      ∷ none
      ∷ some (record { version = 7 ∷ []; value = some (4 ∷ 2 ∷ []); tag = 2 })
      ∷ [])
    ≡ ok (1 ∷ 2 ∷ 3 ∷ [])
unfolding reconstruct_value recover collect collect_one bytes_eq compute error_pattern set_all
    recode pick merge_chunks fill
one_lost = refl
