-- ===== src/Operation/Unanswered.antt =====
-- resolvePartialWrite where no drive tells its version (src/KineticClusterStripeOperation.cc).
use kineticio.Prelude.{
  ℕ, zero, suc, ◌+◌, ◌≡◌, refl, ap, true, List, [], ◌∷◌, map, Option, none, some, replicate, throw,
  null_pointer, arith,
}
use kineticio.Str.{Bytes}
use kineticio.Kinetic.{StatusCode, client_io_error, remote_not_found, code_eq}
use kineticio.Quorum.{rank, lookup, count_results, most_frequent_from, most_frequent_version}
use kineticio.Quorum.Frequency.{frequency_none}
use kineticio.Quorum.Counts.{count, lookup-count_results}
use kineticio.Operation.{
  Operation, Callback, callback, timed_out, deliver, Writes, Drives, execute_one, execute_vector,
  get_versions, stripe_version, counted_version, resolve_round, resolve_loop, resolve_partial_write,
}

abbrev no_answer : Callback Bytes
no_answer = record { done = true; status = client_io_error; payload = [] }

abbrev fresh : Operation (Unit {0}) Bytes
fresh = record { request = tt; callback = callback [] }

most_frequent_none :
    (all : List (Option Bytes)) (n : ℕ)
    → most_frequent_from all (replicate n none) (record { version = none; frequency = 0 })
      ≡ record { version = none; frequency = 0 }
unfolding most_frequent_from
most_frequent_none all zero = refl
most_frequent_none all (suc n) = ground (arith, most_frequent_none all n, frequency_none all)

count_no_answer :
    (n : ℕ)
    → count remote_not_found (map (λ (cb : Callback Bytes). cb.status) (replicate n no_answer)) ≡ 0
unfolding code_eq
count_no_answer zero = refl
count_no_answer (suc n) = count_no_answer n

counted_no_answer : (n : ℕ) → map counted_version (replicate n no_answer) ≡ replicate n none
unfolding counted_version
counted_no_answer zero = refl
counted_no_answer (suc n) = ap (◌∷◌ none) (counted_no_answer n)

none_found :
    (n : ℕ) → most_frequent_version (replicate n none) ≡ record { version = none; frequency = 0 }
unfolding most_frequent_version
none_found n = most_frequent_none (replicate n none) n

module _ {W : Type 0} (drives : Drives W)
    (silent : (i : ℕ) (r : Unit {0}) (w : W) → (drives.send_version i r w).0 ≡ timed_out) where
  execute_one_silent :
      (i : ℕ) (w : W) → (execute_one drives.send_version i fresh w).0.callback ≡ no_answer
  unfolding execute_one deliver
  execute_one_silent i w = rw (silent i tt w) refl

  execute_vector_silent :
      (i n : ℕ) (w : W)
      → map
          (λ (op : Operation (Unit {0}) Bytes). op.callback)
          (execute_vector drives.send_version i (replicate n fresh) w).0
        ≡ replicate n no_answer
  unfolding execute_vector
  execute_vector_silent i zero w = refl
  execute_vector_silent i (suc n) w = rw (execute_one_silent i w) (
      ap (◌∷◌ no_answer)
        (execute_vector_silent (suc i) n (execute_one drives.send_version i fresh w).1))

  module _ (ordinal : StatusCode → ℕ)
      (distinct : (c d : StatusCode) → rank ordinal c ≡ rank ordinal d → c ≡ d)
      (num_data num_parity timeout : ℕ) where
    stripe_version_silent :
        (n : ℕ)
        → (stripe_version drives ordinal num_data num_parity timeout
            (replicate n no_answer)).version
          ≡ none
    unfolding lookup stripe_version
    stripe_version_silent n =
        let codes = map (λ (cb : Callback Bytes). cb.status) (replicate n no_answer) in
        let (s, e) = lookup-count_results ordinal distinct remote_not_found codes [] tt in
        let missing : lookup ordinal remote_not_found (count_results ordinal codes []) ≡ 0 =
          omega (arith, e, count_no_answer n) in
        rw (stripe_version, counted_no_answer n, none_found n, missing) refl

    get_versions_silent :
        (w : W)
        → (get_versions drives ordinal num_data num_parity timeout w).0
          ≡ replicate (num_data + num_parity) no_answer
    unfolding get_versions
    get_versions_silent w = execute_vector_silent 0 (num_data + num_parity) w

    -- If no drive answers the request for versions in time, resolvePartialWrite follows a null
    -- pointer: there is no most frequent version to compare with.
    pub resolve_partial_write_silent :
        (fuel : ℕ) (version : Bytes) (ops : Writes) (w : W)
        → resolve_partial_write drives ordinal num_data num_parity timeout (suc fuel) version ops w
          ≡ some (
            throw null_pointer,
            ops,
            (get_versions drives ordinal num_data num_parity timeout w).1,
          )
    unfolding resolve_partial_write resolve_loop resolve_round
    resolve_partial_write_silent fuel version ops w =
        let e = get_versions_silent w in
        let f : (stripe_version drives ordinal num_data num_parity timeout
              (get_versions drives ordinal num_data num_parity timeout w).0).version
            ≡ none =
          rw e (stripe_version_silent (num_data + num_parity)) in
        rw (resolve_partial_write, resolve_loop, resolve_round, f) refl
