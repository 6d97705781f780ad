-- ===== src/Cluster/Reported.antt =====
-- What a put of a cluster reports to its caller (src/KineticCluster.cc: put, do_put).
use kineticio.Prelude.{
  ℕ, ◌+◌, ◌*◌, ◌≤◌, ◌<◌, ◌≡◌, ◌≢◌, refl, Bool, false, List, Option, some, length, length-replicate,
  replicate, Result, ok, throw, invalid_argument, inl, inr, Bool-cases, Result-cases, ◌==◌, ==→eq,
  ◌∙◌, sym, if◌then◌else◌, subst,
}
use kineticio.Str.{Bytes}
use kineticio.Kinetic.{StatusCode, status_ok, client_internal_error, is_ok, is_ok→eq}
use kineticio.Keys.Numbers.{uuid_encode_size}
use kineticio.Quorum.{rank}
use kineticio.Quorum.Counts.{count}
use kineticio.Redundancy.{size}
use kineticio.Stripe.{value_to_stripe}
use kineticio.Operation.{WriteMode, require_same_version, Writes, fill_operation, statuses}
use kineticio.Operation.Execute.{put_execute}
use kineticio.Operation.Clock.{IsClock}
use kineticio.Operation.Evaluation.{IsReport, put_execute-IsReport}
use kineticio.Cluster.{KineticCluster, Outside, after_put, put_stripe, do_put, do_put_checked, put}

module _ {W : Type 0} (out : Outside W) (cluster : KineticCluster)
    (distinct : (c d : StatusCode) → rank out.ordinal c ≡ rank out.ordinal d → c ≡ d)
    (more_data : cluster.redundancy.num_parity < cluster.redundancy.num_data)
    (clock : (key version : Bytes) (stripe : List Bytes)
      → IsClock (out.put_drives key version stripe))
    (fuel : ℕ)
    (enough : cluster.operation_timeout
        * (cluster.redundancy.num_data + cluster.redundancy.num_parity)
      < 100 * fuel) where
  open cluster use {redundancy, chunk_capacity, operation_timeout, connections}

  module _ (key version value : Bytes) (mode : WriteMode) (version_out : Option Bytes) (w : W) where
    abbrev version_new : Bytes
    version_new = uuid_encode_size (length value) (out.uuid w).0

    -- The operation of the put on the chunks of the stripe, with its result.
    abbrev Executed : List Bytes → StatusCode → Bool → Writes → Type 0
    Executed stripe status indicator ops =
        (w' : W) × (put_execute (out.put_drives key version_new stripe) out.ordinal
            redundancy.num_data redundancy.num_parity operation_timeout fuel version_new
            (replicate (length stripe) (fill_operation version mode)) (out.uuid w).1
          ≡ some (ok (status, indicator), ops, w'))

    -- With OK the new version is handed out, and at least num_data drives took their chunk of the
    -- value under it; otherwise the caller's version is left alone.
    abbrev pub IsPut : StatusCode → Option Bytes → Type 0
    IsPut status result =
        (status ≡ status_ok
          → (result ≡ some version_new)
            × ((stripe : List Bytes) × (indicator : Bool) × (ops : Writes) × (value_to_stripe
                    redundancy chunk_capacity value
                  ≡ ok stripe)
                × Executed stripe status indicator ops
                × (redundancy.num_data ≤ count status_ok (statuses ops))))
        × (status ≢ status_ok → result ≡ version_out)

    abbrev Ended : Option (Result (StatusCode × Option Bytes) × W) → Type 0
    Ended o =
        (r : Result (StatusCode × Option Bytes)) × (w' : W) × (o ≡ some (r, w'))
        × ((status : StatusCode) (result : Option Bytes)
            → r ≡ ok (status, result)
            → IsPut status result)

    not_ok : (status : StatusCode) → status ≢ status_ok → is_ok status ≡ false
    not_ok status other = elim (Bool-cases (is_ok status)) [
      | inl e ↦ absurd (other (is_ok→eq status e))
      | inr e ↦ e
    ]

    after_put-Ended :
        (stripe : List Bytes) (r : Result (StatusCode × Bool)) (ops : Writes) (w' : W)
        → value_to_stripe redundancy chunk_capacity value ≡ ok stripe
        → put_execute
            (out.put_drives key version_new stripe)
            out.ordinal
            redundancy.num_data
            redundancy.num_parity
            operation_timeout
            fuel
            version_new
            (replicate (length stripe) (fill_operation version mode))
            (out.uuid w).1
          ≡ some (r, ops, w')
        → ((status : StatusCode) (indicator : Bool)
            → r ≡ ok (status, indicator)
            → IsReport redundancy.num_data redundancy.num_parity (statuses ops) status indicator)
        → Ended (some (after_put out cluster key version_new stripe version_out (r, ops, w')))
    unfolding after_put
    after_put-Ended stripe (throw e) ops w' made done report = (throw e, w', refl, λ s v h. cc)
    after_put-Ended stripe (ok (status, indicator)) ops w' made done report =
        let a =
          after_put out cluster key version_new stripe version_out
            (ok (status, indicator), ops, w') in
        let handed : Option Bytes = if is_ok status then some version_new else version_out in
        let right : IsPut status handed = (
          λ fine. (
            rw fine refl,
            (stripe, indicator, ops, made, (w', done), (report status indicator refl).written fine),
          ),
          λ other. rw (not_ok status other) refl,
        ) in
        (
          ok (status, handed),
          a.1,
          refl,
          λ s v h.
              let e : (status, handed) ≡ (s, v) = cc in
              subst (λ (x : StatusCode × Option Bytes). IsPut x.0 x.1) e right,
        )

    put_stripe-Ended :
        (stripe : List Bytes)
        → value_to_stripe redundancy chunk_capacity value ≡ ok stripe
        → Ended (
            put_stripe out cluster fuel key version version_new stripe version_out mode
              (out.uuid w).1)
    unfolding put_stripe
    put_stripe-Ended stripe made = elim (Bool-cases (length stripe == size redundancy)) [
      | inr e ↦ rw (e, put_stripe) (throw invalid_argument, (out.uuid w).1, refl, λ s v h. cc)
      | inl e ↦
          let ops = replicate (length stripe) (fill_operation version mode) in
          let sized : length ops ≡ redundancy.num_data + redundancy.num_parity =
            length-replicate (length stripe) (fill_operation version mode) ∙ ==→eq _ _ e in
          let (r, ops', w', done, report) =
            put_execute-IsReport (out.put_drives key version_new stripe) out.ordinal distinct
              redundancy.num_data redundancy.num_parity operation_timeout more_data
              (clock key version_new stripe) fuel version_new ops (out.uuid w).1 sized enough in
          rw (e, put_stripe, done) (after_put-Ended stripe r ops' w' made done report)
    ]

    do_put-Ended : Ended (do_put out cluster fuel key version value version_out mode w)
    unfolding do_put
    do_put-Ended = elim (Result-cases (value_to_stripe redundancy chunk_capacity value)) [
      | inl (stripe, e) ↦
          let to_stripe : do_put out cluster fuel key version value version_out mode w
              ≡ put_stripe out cluster fuel key version version_new stripe version_out mode
                  (out.uuid w).1 =
            rw (e, do_put) refl in
          subst Ended (sym to_stripe) (put_stripe-Ended stripe e)
      | inr (x, e) ↦ (
        ok (client_internal_error, version_out),
        w,
        rw (e, do_put) refl,
        λ s v h. (λ fine. cc, λ other. cc),
      )
    ]

  -- A versioned put of a value, in a cluster with more data than parity chunks, ends, where the clock
  -- does not go back over a request and a sleep lasts as long as it says. If it does not throw, it
  -- returns OK only where at least num_data drives took their chunk of the value, and then hands out
  -- the new version that holds the value's size; with any other code the caller's version is left
  -- alone.
  pub put-IsPut :
      (key version value : Bytes) (version_out : Option Bytes) (w : W)
      → (r : Result (StatusCode × Option Bytes)) × (w' : W) × (put out cluster fuel
            (some key)
            (some version)
            (some value)
            version_out
            w
          ≡ some (r, w'))
        × ((status : StatusCode) (result : Option Bytes)
            → r ≡ ok (status, result)
            → IsPut key version value require_same_version version_out w status result)
  unfolding put do_put_checked
  put-IsPut key version value version_out w =
      do_put-Ended key version value require_same_version version_out w
