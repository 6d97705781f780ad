-- ===== src/Tests/Gets.antt =====
-- Examples for the read of a stripe (src/KineticClusterStripeOperation.cc: StripeOperation_GET), of
-- two data chunks and their sum on three drives.
use kineticio.Prelude.{
  ℕ, ◌≡◌, refl, Bool, true, false, List, [], ◌∷◌, Option, none, some, length, get_elem?, replicate,
  ok, arith, Result, bytes_eq,
}
use kineticio.Str.{Bytes, substr}
use kineticio.Kinetic.{StatusCode, status_ok, valid_status_code}
use kineticio.Keys.Numbers.{
  uuid_encode_size, count_digits, digits, padded, text_to_int, uuid_decode_size, value_from,
}
use kineticio.Stripe.{
  KineticRecord, value_to_stripe, recover, collect_one, set_all, collect, collect_value,
  first_length, merge_chunks, reconstruct_value,
}
use kineticio.Operation.{Delivery, timed_out, answered, deliver, execute_one, execute_vector}
use kineticio.Get.{
  ReadRequest, Get, new_get, attempt, get_execute, add_reads, do_execute, limit_ok, read_version,
  rebuild, rebuild_as, rebuild_sized, serve,
}
use kineticio.Get.Served.{IsAnswer, get_execute-IsAnswer}
use kineticio.Get.Whole.{IsAnswered, attempt-value_to_stripe}
use kineticio.Tests.Answers.{numbered, numbered_distinct}
use kineticio.Tests.SumCode.{sum_provider, sum_code}
use kineticio.Quorum.{
  most_frequent_version, most_frequent_from, frequency_of, lookup, count_results, bump, rank,
  version_equal,
}
use kineticio.Redundancy.{compute, error_pattern, recode, fill, pick, scan_stripe}
use kineticio.Placement.{expand_stripe, place}

-- The records on the drives; a drive without one does not answer.
abbrev pub Records : Type 0
Records = List (Option KineticRecord)

abbrev pub ask_drive : ℕ → ReadRequest → Records → Delivery (Option KineticRecord) × Records
ask_drive i request w = (
  elim (get_elem? w request.connection) [
    | none ↦ timed_out
    | some none ↦ timed_out
    | some (some r) ↦ answered status_ok (some r)
  ],
  w,
)

abbrev pub no_handoffs : Bytes → Bytes → ℕ → Records → List (Option (List Bytes)) × Records
no_handoffs start end elements w = ([], w)

abbrev three_bytes : Bytes
three_bytes = uuid_encode_size 3 (replicate 36 97)

-- The second drive is lost.
abbrev two_answers : Records
two_answers =
    some (record { version = three_bytes; value = some (1 ∷ 2 ∷ []); tag = 2 })
    ∷ none
    ∷ some (record { version = three_bytes; value = some (4 ∷ 2 ∷ []); tag = 2 })
    ∷ []

abbrev whole_read : Get
whole_read = new_get ask_drive no_handoffs numbered length sum_provider (107 ∷ []) 2 3 false true

get_execute-IsAnswer_example :
    IsAnswer numbered numbered_distinct ask_drive no_handoffs length sum_provider
      (107 ∷ [])
      2
      3
      false
      (get_execute ask_drive no_handoffs numbered length sum_provider
        (107 ∷ [])
        2
        3
        false
        whole_read
        two_answers).0
get_execute-IsAnswer_example =
    get_execute-IsAnswer numbered numbered_distinct ask_drive no_handoffs length sum_provider
      (107 ∷ []) 2 3 false whole_read two_answers

attempt-value_to_stripe_example :
    (stripe : List Bytes) × (value_to_stripe sum_provider 2 (1 ∷ 2 ∷ 3 ∷ []) ≡ ok stripe)
    × ((p : List Bool) (next : Get → Records → (Result StatusCode × Get) × Records) (g : Get)
          (w : Records)
        → IsAnswered numbered numbered_distinct ask_drive no_handoffs length sum_provider
            (107 ∷ [])
            2
            3
            three_bytes
            stripe
            p
            g
            w
        → let (r, g') =
            (attempt ask_drive no_handoffs numbered length sum_provider
              (107 ∷ [])
              2
              3
              false
              next
              g
              w).0 in
          (r ≡ ok status_ok)
          × (g'.value ≡ some (1 ∷ 2 ∷ 3 ∷ []))
          × (g'.version.version ≡ some three_bytes))
attempt-value_to_stripe_example =
    attempt-value_to_stripe numbered numbered_distinct ask_drive no_handoffs length sum_provider
      (107 ∷ []) 2 3 sum_code 2 (1 ∷ 2 ∷ 3 ∷ []) (replicate 36 97) (omega arith) (omega arith)
      (omega arith) (omega arith) refl

-- The value is read without the second drive.
one_drive_lost :
    (get_execute ask_drive no_handoffs numbered length sum_provider
      (107 ∷ [])
      2
      3
      false
      whole_read
      two_answers).0.0
    ≡ ok status_ok
unfolding get_execute add_reads do_execute limit_ok read_version rebuild rebuild_as rebuild_sized
    serve most_frequent_version most_frequent_from frequency_of lookup count_results bump rank
    version_equal deliver execute_one execute_vector recover collect_one set_all collect
    collect_value first_length merge_chunks reconstruct_value compute error_pattern recode fill pick
    scan_stripe count_digits digits padded text_to_int uuid_decode_size value_from valid_status_code
    expand_stripe place substr bytes_eq new_get attempt uuid_encode_size
one_drive_lost = refl
