-- ===== src/Tests/Clients.antt =====
-- Examples for the puts and gets of a whole cluster (src/KineticCluster.cc), of two data chunks and
-- their sum on three drives.
use kineticio.Prelude.{
  ℕ, zero, suc, ◌+◌, ◌≡◌, ◌≤◌, ◌⊎◌, Bool, true, false, [], ◌∷◌, Option, none, some, length,
  replicate, ok, arith, Result, bytes_eq,
}
use kineticio.Str.{Bytes, substr}
use kineticio.Kinetic.{StatusCode, status_ok, valid_status_code}
use kineticio.Keys.Numbers.{
  uuid_encode_size, count_digits, digits, padded, text_to_int, uuid_decode_size, value_from,
}
use kineticio.Stripe.{
  KineticRecord, recover, collect_one, set_all, collect, collect_value, first_length, merge_chunks,
  reconstruct_value,
}
use kineticio.Operation.{
  Drives, Delivery, answered, deliver, execute_one, execute_vector, require_same_version,
}
use kineticio.Operation.Clock.{IsClock}
use kineticio.Get.{
  ReadRequest, new_get, attempt, get_execute, add_reads, do_execute, limit_ok, read_version,
  rebuild, rebuild_as, rebuild_sized, serve,
}
use kineticio.Quorum.{
  most_frequent_version, most_frequent_from, frequency_of, lookup, count_results, bump, rank,
  version_equal,
}
use kineticio.Redundancy.{compute, error_pattern, recode, fill, pick, scan_stripe}
use kineticio.Placement.{expand_stripe, place}
use kineticio.Cluster.{KineticCluster, Outside, put}
use kineticio.Cluster.Read.{Answer, get, read_key}
use kineticio.Cluster.Reported.{IsPut, put-IsPut}
use kineticio.Cluster.Answered.{IsGot, Restarted, get-IsGot}
use kineticio.Tests.Answers.{numbered, numbered_distinct}
use kineticio.Tests.SumCode.{sum_provider}

abbrev three_bytes : Bytes
three_bytes = uuid_encode_size 3 (replicate 36 97)

-- The world is its clock, every drive takes its chunk, and each has its chunk of 1, 2, 3.
abbrev pub willing : Drives ℕ
willing = record {
  send_write = λ i r w. (answered status_ok tt, w);
  send_version = λ i r w. (answered status_ok three_bytes, w);
  now = λ w. w;
  sleep = λ n w. w + n;
}

willing-IsClock : IsClock willing
willing-IsClock = record {
  writes = λ i r w. omega arith;
  reads = λ i r w. omega arith;
  sleeps = λ n w. omega arith;
}

abbrev stored : Bytes → Option KineticRecord
stored chunk = some (record { version = three_bytes; value = some chunk; tag = 2 })

abbrev ask_drive : ReadRequest → Delivery (Option KineticRecord)
ask_drive request = elim request.connection [
  | zero ↦ answered status_ok (stored (1 ∷ 2 ∷ []))
  | suc n ↦ elim n [
    | zero ↦ answered status_ok (stored (3 ∷ 0 ∷ []))
    | suc _ ↦ answered status_ok (stored (4 ∷ 2 ∷ []))
  ]
]

abbrev pub outside : Outside ℕ
outside = record {
  put_drives = λ key version stripe. willing;
  del_drives = λ key. willing;
  send_single = λ i r w. (answered status_ok tt, w);
  send_read = λ skip i r w. (ask_drive r, w);
  range_all = λ start end n w. ([], w);
  uuid = λ w. (replicate 36 97, w);
  now = λ w. w;
  sleep = λ n w. w + n;
  crc = length;
  hash = λ key. 2;
  ordinal = numbered;
}

abbrev pub three_drives : KineticCluster
three_drives = record {
  redundancy = sum_provider;
  chunk_capacity = 2;
  operation_timeout = 1_000;
  connections = 3;
}

put-IsPut_example :
    (r : Result (StatusCode × Option Bytes)) × (w' : ℕ) × (put outside three_drives 40
        (some (107 ∷ []))
        (some [])
        (some (1 ∷ 2 ∷ 3 ∷ []))
        none
        0
      ≡ some (r, w'))
    × ((status : StatusCode) (result : Option Bytes)
        → r ≡ ok (status, result)
        → IsPut outside three_drives numbered_distinct
            (omega arith)
            (λ k v s. willing-IsClock)
            40
            (omega arith)
            (107 ∷ [])
            []
            (1 ∷ 2 ∷ 3 ∷ [])
            require_same_version
            none
            0
            status
            result)
put-IsPut_example =
    put-IsPut outside three_drives numbered_distinct (omega arith) (λ k v s. willing-IsClock) 40
      (omega arith) (107 ∷ []) [] (1 ∷ 2 ∷ 3 ∷ []) none 0

-- A read takes no time.
read_key-later :
    (key : Bytes) (skip_value : Bool) (w : ℕ)
    → w ≤ (read_key outside three_drives key skip_value w).1
unfolding read_key get_execute add_reads do_execute limit_ok read_version rebuild rebuild_as
    rebuild_sized serve most_frequent_version most_frequent_from frequency_of lookup count_results
    bump rank version_equal deliver execute_one execute_vector recover collect_one set_all collect
    collect_value first_length merge_chunks reconstruct_value compute error_pattern recode fill pick
    scan_stripe count_digits digits padded text_to_int uuid_decode_size value_from valid_status_code
    expand_stripe place substr bytes_eq new_get attempt uuid_encode_size
read_key-later key true w = omega arith
read_key-later key false w = omega arith

get-IsGot_example :
    ((r : Result (Answer outside three_drives)) × (w' : ℕ) × (get outside three_drives 1 6
          (some (107 ∷ []))
          none
          none
          0
        ≡ some (r, w'))
      × ((a : Answer outside three_drives)
          → r ≡ ok a
          → IsGot outside three_drives numbered_distinct read_key-later
              (λ n w. omega arith)
              5
              (omega arith)
              (107 ∷ [])
              none
              none
              false
              a))
    ⊎ Restarted outside three_drives numbered_distinct read_key-later
        (λ n w. omega arith)
        5
        (omega arith)
        (107 ∷ [])
        none
        none
        false
        1
        0
get-IsGot_example =
    get-IsGot outside three_drives numbered_distinct read_key-later (λ n w. omega arith) 5
      (omega arith) 1 (107 ∷ []) none none 0
