-- ===== src/Tests/Drives.antt =====
-- Examples for the operations on drives (src/KineticClusterStripeOperation.cc,
-- src/KineticClusterOperation.cc).
use kineticio.Prelude.{
  ℕ, ◌+◌, ◌≡◌, ◌≢◌, refl, Bool, throw, null_pointer, [], ◌∷◌, ◌++◌, some, arith, length, get_elem?,
  Result, ok, ◌==◌, if◌then◌else◌,
}
use kineticio.Kinetic.{
  StatusCode, status_ok, remote_version_mismatch, tag, code_eq, code_eq→eq, valid_status_code,
}
use kineticio.Quorum.{rank}
use kineticio.Operation.{
  Writes, WriteRequest, Drives, Delivery, answered, require_same_version, fill_operation, statuses,
  resolve_partial_write, timed_out, get_versions,
}
use kineticio.Operation.Execute.{put_execute}
use kineticio.Operation.Unanswered.{resolve_partial_write_silent}
use kineticio.Operation.Clock.{IsClock, resolve_partial_write-ends}
use kineticio.Operation.Evaluation.{IsReport, put_execute-IsReport}
use kineticio.Placement.{expand_stripe, expand_stripe_apart, expand_stripe-append}

-- The world is its clock. The second drive holds version 8, the others take every write; and every
-- drive answers that it holds version 7.
abbrev write_answer : ℕ → WriteRequest → ℕ → Delivery (Unit {0}) × ℕ
write_answer i r w =
    (if i == 1 then answered remote_version_mismatch tt else answered status_ok tt, w)

abbrev drives : Drives ℕ
drives = record {
  send_write = write_answer;
  send_version = λ i r w. (answered status_ok (7 ∷ []), w);
  now = λ w. w;
  sleep = λ n w. w + n;
}

drives-IsClock : IsClock drives
drives-IsClock = record {
  writes = λ i r w. omega arith;
  reads = λ i r w. omega arith;
  sleeps = λ n w. omega arith;
}

abbrev three_writes : Writes
three_writes =
    fill_operation [] require_same_version
    ∷ fill_operation [] require_same_version
    ∷ fill_operation [] require_same_version
    ∷ []

numbered_distinct : (c d : StatusCode) → rank tag c ≡ rank tag d → c ≡ d
unfolding rank code_eq valid_status_code
numbered_distinct c d h = code_eq→eq c d (ground arith)

put_execute-IsReport_example :
    (result : Result (StatusCode × Bool)) × (ops' : Writes) × (w' : ℕ) × (put_execute drives tag 2 1
        1000 40
        (7 ∷ [])
        three_writes
        0
      ≡ some (result, ops', w'))
    × ((status : StatusCode) (indicator : Bool)
        → result ≡ ok (status, indicator)
        → IsReport 2 1 (statuses ops') status indicator)
put_execute-IsReport_example =
    put_execute-IsReport drives tag numbered_distinct 2 1 1000 (omega arith) drives-IsClock 40
      (7 ∷ []) three_writes 0 refl (omega arith)

resolve_partial_write-ends_example :
    (r : Result (Unit {0})) × (ops' : Writes) × (w' : ℕ) × (resolve_partial_write drives tag 2 1
        1000 40
        (7 ∷ [])
        three_writes
        0
      ≡ some (r, ops', w'))
    × (length ops' ≡ 3)
resolve_partial_write-ends_example =
    resolve_partial_write-ends drives tag 2 1 1000 drives-IsClock 40 (7 ∷ []) three_writes 0
      (omega arith)

-- The hash is the last before the wrap.
expand_stripe_apart_example :
    get_elem? (expand_stripe 5 4_294_967_295 3 0) 0
    ≢ get_elem? (expand_stripe 5 4_294_967_295 3 0) 2
expand_stripe_apart_example =
    expand_stripe_apart 5 (omega arith) (omega arith) 4_294_967_295 3 0 0 2 (omega arith)
      (omega arith) (omega arith)

expand_stripe-append_example :
    expand_stripe 5 13 2 0 ++ expand_stripe 5 13 1 2 ≡ expand_stripe 5 13 3 0
expand_stripe-append_example =
    expand_stripe-append 5 (omega arith) (omega arith) 13 2 1 (omega arith)

abbrev silent : Drives ℕ
silent = record drives { send_version = λ i r w. (timed_out, w) }

resolve_partial_write_silent_example :
    resolve_partial_write silent tag 2 1 1000 40 (7 ∷ []) three_writes 0
    ≡ some (throw null_pointer, three_writes, (get_versions silent tag 2 1 1000 0).1)
resolve_partial_write_silent_example =
    resolve_partial_write_silent silent (λ i r w. refl) tag numbered_distinct 2 1 1000 39 (7 ∷ [])
      three_writes 0
