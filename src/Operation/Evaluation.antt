-- ===== src/Operation/Evaluation.antt =====
-- What StripeOperation_PUT::execute reports (src/KineticClusterStripeOperation.cc).
use kineticio.Prelude.{
  ℕ, ◌+◌, ◌*◌, ◌≤◌, ◌<◌, ◌≡◌, refl, sym, subst, ◌∙◌, Bool, List, Option, some, length, ltb,
  Bool-cases, Option-cases, Result, ok, throw, arith, inl, inr,
}
use kineticio.Str.{Bytes}
use kineticio.Kinetic.{StatusCode, status_ok}
use kineticio.Quorum.{rank, find_quorum}
use kineticio.Quorum.Counts.{count, find_quorum-count, find_quorum_unique}
use kineticio.Operation.{Writes, Drives, execute_vector, statuses, results}
use kineticio.Operation.Execute.{evaluate_put, is_partial_put, finish, put_execute}
use kineticio.Operation.Clock.{
  IsClock, length-execute_vector, length-map, resolve_partial_write-ends,
}

-- Success means that enough chunks were written, and the indicator is asked for if not all were; and
-- a code that enough drives gave is the one reported.
pub record IsReport (num_data num_parity : ℕ) (codes : List StatusCode) (status : StatusCode)
    (indicator : Bool) : Type 0 where
  pub written : status ≡ status_ok → num_data ≤ count status_ok codes
  pub indicated :
      status ≡ status_ok → indicator ≡ ltb (count status_ok codes) (num_data + num_parity)
  pub decided : (c : StatusCode) → num_data ≤ count c codes → status ≡ c

module _ {W : Type 0} (drives : Drives W) (ordinal : StatusCode → ℕ)
    (distinct : (c d : StatusCode) → rank ordinal c ≡ rank ordinal d → c ≡ d)
    (num_data num_parity timeout : ℕ) (more_data : num_parity < num_data) where
  evaluate_put-IsReport :
      (codes : List StatusCode)
      → length codes ≡ num_data + num_parity
      → let (status, indicator) =
          evaluate_put drives ordinal num_data num_parity timeout
            (results drives ordinal num_data num_parity timeout codes) in
        IsReport num_data num_parity codes status indicator
  unfolding evaluate_put
  evaluate_put-IsReport codes sized =
      let (some_found, none_found) =
        find_quorum-count ordinal distinct num_data codes (omega arith) in
      elim (Option-cases
        (find_quorum num_data (results drives ordinal num_data num_parity timeout codes))) [
          | inl e ↦
              rw (e, evaluate_put)
                (record {
                  written = λ h. cc;
                  indicated = λ h. cc;
                  decided = λ c h. absurd (omega (arith, none_found e c));
                })
          | inr ((c, n), e) ↦
              let (enough, same) = some_found c n e in
              rw (e, evaluate_put)
                (record {
                  written = λ h. rw (← h) (omega (arith, same));
                  indicated = λ h. ground (arith, h, same);
                  decided = λ d h. sym (
                      find_quorum_unique ordinal distinct num_data num_parity codes c d n more_data
                        sized e h);
                })
        ]

  -- The end of execute, whatever the resolution came to.
  abbrev Reported : Option (Result (StatusCode × Bool) × Writes × W) → Type 0
  Reported o =
      (result : Result (StatusCode × Bool)) × (ops : Writes) × (w : W) × (o ≡ some (result, ops, w))
      × ((status : StatusCode) (indicator : Bool)
          → result ≡ ok (status, indicator)
          → IsReport num_data num_parity (statuses ops) status indicator)

  finish-Reported :
      (r : Result (Unit {0})) (ops : Writes) (w : W)
      → length ops ≡ num_data + num_parity
      → Reported (
          some (
            finish drives ordinal num_data num_parity timeout
              (evaluate_put drives ordinal num_data num_parity timeout)
              (r, ops, w)))
  unfolding finish
  finish-Reported (throw e) ops w sized = (throw e, ops, w, refl, λ s i h. cc)
  finish-Reported (ok _) ops w sized =
      let codes = statuses ops in
      let report =
        evaluate_put drives ordinal num_data num_parity timeout
          (results drives ordinal num_data num_parity timeout codes) in
      let right : IsReport num_data num_parity codes report.0 report.1 =
        evaluate_put-IsReport codes (length-map _ ops ∙ sized) in
      (
        ok report,
        ops,
        w,
        refl,
        λ s i h.
            let e : report ≡ (s, i) = cc in
            subst (λ (x : StatusCode × Bool). IsReport num_data num_parity codes x.0 x.1) e right,
      )

  -- The write of a stripe with more data than parity chunks ends, where the clock does not go back
  -- over a request and a sleep lasts as long as it says. If it does not throw, its report agrees with
  -- the statuses that the operations have in the end, after a resolution too: success means that at
  -- least `num_data` chunks were written, with the indicator asked for unless all were, and a code of
  -- at least `num_data` drives is the one reported.
  pub put_execute-IsReport :
      IsClock drives
      → (fuel : ℕ) (version : Bytes) (ops : Writes) (w : W) → length ops ≡ num_data + num_parity
      → timeout * (num_data + num_parity) < 100 * fuel
      → (result : Result (StatusCode × Bool)) × (ops' : Writes) × (w' : W) × (put_execute drives
            ordinal num_data num_parity timeout fuel version ops w
          ≡ some (result, ops', w'))
        × ((status : StatusCode) (indicator : Bool)
            → result ≡ ok (status, indicator)
            → IsReport num_data num_parity (statuses ops') status indicator)
  unfolding put_execute
  put_execute-IsReport clock fuel version ops w sized enough =
      let (ops1, w1) = execute_vector drives.send_write 0 ops w in
      let sized1 : length ops1 ≡ num_data + num_parity =
        length-execute_vector drives.send_write 0 ops w ∙ sized in
      elim (Bool-cases (
        is_partial_put drives ordinal num_data num_parity timeout
          (results drives ordinal num_data num_parity timeout (statuses ops1)))) [
            | inr e ↦ rw (e, put_execute) (finish-Reported (ok tt) ops1 w1 sized1)
            | inl e ↦
                let (r, ops2, w2, resolved, same) =
                  resolve_partial_write-ends drives ordinal num_data num_parity timeout clock fuel
                    version ops1 w1 enough in
                rw (e, put_execute, resolved) (finish-Reported r ops2 w2 (same ∙ sized1))
          ]
