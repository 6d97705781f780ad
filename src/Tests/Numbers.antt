-- ===== src/Tests/Numbers.antt =====
-- Examples for the numbers in keys (src/Utility.cc) and for predictions (src/PrefetchOracle.cc).
use kineticio.Prelude.{◌≡◌, refl, [], ◌∷◌, some, ok, min, arith, replicate}
use kineticio.Words.{int_max}
use kineticio.Keys.Numbers.{uuid_encode_size, uuid_decode_size, make_data_key, block_number_of}
use kineticio.Keys.Numbers.Decimal.{
  uuid_decode_size-uuid_encode_size, block_number_of-make_data_key,
}
use kineticio.Prefetch.{PrefetchOracle, complete, continue, predict, add, new_oracle, push_all}
use kineticio.Prefetch.Predictions.{start, added, predicted, IsPrediction, predict-IsPrediction}

-- A size of 3,000,000,000 bytes reads as the greatest int.
uuid_decode_size-uuid_encode_size_example :
    uuid_decode_size (some (uuid_encode_size 3_000_000_000 (replicate 36 97)))
    ≡ ok (min 3_000_000_000 int_max)
uuid_decode_size-uuid_encode_size_example =
    uuid_decode_size-uuid_encode_size 3_000_000_000 (replicate 36 97) (omega arith) refl

block_number_of-make_data_key_example :
    block_number_of (make_data_key (99 ∷ []) (97 ∷ 95 ∷ []) 1_234) ≡ ok 1_234
block_number_of-make_data_key_example =
    block_number_of-make_data_key (99 ∷ []) (97 ∷ 95 ∷ []) 1_234 (omega arith)

-- The even steps up to 9 were seen, and one block was predicted from them.
abbrev steps_of_two : PrefetchOracle
steps_of_two = add 9 (add 7 (add 5 (add 3 (new_oracle 3))))

abbrev once : PrefetchOracle
once = (predict (λ ds. ds) 1 complete steps_of_two).1

once_predicted : (predict (λ ds. ds) 1 complete steps_of_two).0 ≡ 11 ∷ []
unfolding predict add new_oracle
once_predicted = refl

predict-IsPrediction_example :
    IsPrediction 2 continue once
      (push_all (predict (λ ds. ds) 1 complete steps_of_two).0 [])
      (predict (λ ds. ds) 2 continue once).0
predict-IsPrediction_example =
    predict-IsPrediction (λ ds. ds) 2 continue
      (predicted (λ ds. ds) 1 complete (added 9 (added 7 (added 5 (added 3 (start 3))))))

predicted_next : (predict (λ ds. ds) 2 continue once).0 ≡ 13 ∷ []
unfolding predict add new_oracle
predicted_next = refl
