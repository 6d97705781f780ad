-- ===== src/Cluster/Answered.antt =====
-- What a get of a cluster returns to its caller (src/KineticCluster.cc: get, do_get).
use kineticio.Prelude.{
  ℕ, zero, suc, ◌+◌, ◌*◌, ◌≤◌, ◌<◌, ◌≡◌, ◌≢◌, refl, Bool, true, false, Option, some, Result, ok,
  throw, arith, inl, inr, Bool-cases, Result-cases, ltb, ltb→lt, not, ◌∙◌, sym, subst, ◌⊎◌,
}
use kineticio.Str.{Bytes}
use kineticio.Kinetic.{StatusCode, status_ok, is_ok, is_ok→eq}
use kineticio.Quorum.{rank, VersionCount}
use kineticio.Get.{Get, new_get}
use kineticio.Get.Rebuilt.{IsServed}
use kineticio.Get.Served.{IsAnswer, get_execute-IsAnswer}
use kineticio.Cluster.{KineticCluster, Outside, count_equal}
use kineticio.Cluster.Read.{
  Answer, Waited, unchanged, changed, thrown, read_key, frequent, may_be_mixed, await_change,
  finish_get, do_get, get,
}

module _ {W : Type 0} (out : Outside W) (cluster : KineticCluster)
    (distinct : (c d : StatusCode) → rank out.ordinal c ≡ rank out.ordinal d → c ≡ d)
    (later : (key : Bytes) (skip_value : Bool) (w : W)
      → out.now w ≤ out.now (read_key out cluster key skip_value w).1)
    (slept : (n : ℕ) (w : W) → out.now w + n ≤ out.now (out.sleep n w)) (rounds : ℕ)
    (enough : cluster.operation_timeout ≤ 200 * rounds) where
  open cluster use {redundancy, operation_timeout}

  -- A round of the loop ends it, or goes on before the timeout.
  await_change_round :
      (n : ℕ) (key : Bytes) (skip_value : Bool) (before : VersionCount) (start : ℕ) (w : W)
      → ((r : Waited out cluster) × (await_change out cluster (suc n) key skip_value before start w
            ≡ some r))
        ⊎ ((w' : W) × (out.now w + 200 ≤ out.now w')
            × (out.now w' < start + operation_timeout)
            × (await_change out cluster (suc n) key skip_value before start w
                ≡ await_change out cluster n key skip_value before start w'))
  unfolding await_change
  await_change_round n key skip before start w =
      let w1 = out.sleep 200 w in
      let ((r, g), w2) = read_key out cluster key skip w1 in
      let passed : out.now w + 200 ≤ out.now w2 = omega (arith, slept 200 w, later key skip w1) in
      elim (Result-cases r) [
        | inr (x, e) ↦ rw (e, await_change) (inl (thrown x w2, refl))
        | inl (c, e) ↦ elim (Bool-cases (not (count_equal before (frequent out cluster g)))) [
          | inl differs ↦ rw (e, await_change, differs) (inl (changed w2, refl))
          | inr same ↦ elim (Bool-cases (ltb (out.now w2) (start + operation_timeout))) [
            | inr over ↦ rw (e, await_change, same, over) (inl (unchanged w2, refl))
            | inl early ↦ inr (
              w2,
              passed,
              ltb→lt (out.now w2) (start + operation_timeout) early,
              rw (e, await_change, same, early) refl,
            )
          ]
        ]
      ]

  -- The loop ends, whatever the drives answer.
  await_change-ends :
      (n : ℕ) (key : Bytes) (skip_value : Bool) (before : VersionCount) (start : ℕ) (w : W)
      → start + operation_timeout ≤ out.now w + 200 * n
      → (r : Waited out cluster) × (await_change out cluster (suc n) key skip_value before start w
          ≡ some r)
  await_change-ends zero key skip before start w h =
      elim (await_change_round 0 key skip before start w) [
        | inl ended ↦ ended
        | inr (w', passed, early, goes_on) ↦ absurd (omega arith)
      ]
  await_change-ends (suc n) key skip before start w h =
      elim (await_change_round (suc n) key skip before start w) [
        | inl ended ↦ ended
        | inr (w', passed, early, goes_on) ↦
            let (r, e) = await_change-ends n key skip before start w' (omega arith) in
            (r, goes_on ∙ e)
      ]

  -- A read of a key by the cluster, and what it came to.
  abbrev ReadAs : Bytes → Bool → StatusCode → Get → Type 0
  ReadAs key skip status g =
      (w0 : W) × (w1 : W) × (read_key out cluster key skip w0 ≡ ((ok status, g), w1))

  module _ (key : Bytes) (version value : Option Bytes) (skip_value : Bool) where
    -- With OK the caller is given the version and the value that a read of the drives came to, which
    -- found at least num_data answers with that version and made the value of them; with any other
    -- code what the caller had is left alone.
    abbrev pub IsGot : Answer out cluster → Type 0
    IsGot (status, version', value') =
        (status ≡ status_ok
          → ((g : Get) × ReadAs key skip_value status g
              × IsServed out.crc redundancy skip_value (ok status, g)
              × (version' ≡ g.version.version)
              × (value' ≡ g.value)))
        × (status ≢ status_ok → (version' ≡ version) × (value' ≡ value))

    -- As often as that, another version was found while waiting for the write of another client.
    abbrev pub Restarted : ℕ → W → Type 0
    Restarted zero w = Unit {0}
    Restarted (suc n) w =
        (status : StatusCode) × (g : Get) × (w' : W) × (w'' : W) × (read_key out cluster key
            skip_value w
          ≡ ((ok status, g), w'))
        × (await_change out cluster (suc rounds) key skip_value (frequent out cluster g)
              (out.now w') w'
            ≡ some (changed w''))
        × Restarted n w''

    abbrev Ended : Option (Result (Answer out cluster) × W) → Type 0
    Ended o =
        (r : Result (Answer out cluster)) × (w' : W) × (o ≡ some (r, w'))
        × ((a : Answer out cluster) → r ≡ ok a → IsGot a)

    -- A success of a read has what it needs.
    read_key-IsServed :
        (status : StatusCode) (g : Get) (w0 w1 : W)
        → read_key out cluster key skip_value w0 ≡ ((ok status, g), w1)
        → status ≡ status_ok
        → IsServed out.crc redundancy skip_value (ok status, g)
    unfolding read_key
    read_key-IsServed status g w0 w1 read fine =
        let send = out.send_read skip_value in
        let answer =
          get_execute-IsAnswer out.ordinal distinct send out.range_all out.crc redundancy key
            (out.hash key) cluster.connections skip_value
            (new_get send out.range_all out.ordinal out.crc redundancy key (out.hash key)
              cluster.connections skip_value false)
            w0 in
        let here : IsAnswer out.ordinal distinct send out.range_all out.crc redundancy key
            (out.hash key) cluster.connections skip_value (ok status, g) =
          subst
            (λ (x : (Result StatusCode × Get) × W).
              IsAnswer out.ordinal distinct send out.range_all out.crc redundancy key (out.hash key)
                cluster.connections skip_value x.0)
            read answer in
        elim here [ inl lost ↦ (let no_way : ⊥ = cc in absurd no_way) | inr served ↦ served ]

    finish_get-Ended :
        (status : StatusCode) (g : Get) (w0 w1 w : W)
        → read_key out cluster key skip_value w0 ≡ ((ok status, g), w1)
        → Ended
            (let (a, w3) = finish_get out cluster key version value status g w in some (ok a, w3))
    unfolding finish_get
    finish_get-Ended status g w0 w1 w read =
        let (a, w3) = finish_get out cluster key version value status g w in
        let right : IsGot a = elim (Bool-cases (is_ok status)) [
          | inl fine ↦
              let e : status ≡ status_ok = is_ok→eq status fine in
              rw (fine, finish_get)
                (
                  λ _. (g, (w0, w1, read), read_key-IsServed status g w0 w1 read e, refl, refl),
                  λ other. absurd (other e),
                )
          | inr e ↦
              rw (e, finish_get)
                (λ fine. (let no_way : ⊥ = cc in absurd no_way), λ other. (refl, refl))
        ] in
        (ok a, w3, refl, λ b h. let e : a ≡ b = cc in subst IsGot e right)

    abbrev Got : ℕ → W → Type 0
    Got restarts w =
        Ended (do_get out cluster restarts (suc rounds) key version value skip_value w)
        ⊎ Restarted restarts w

    -- What follows the wait for another client.
    waited-Got :
        (n : ℕ) (w : W) (c : StatusCode) (x : Waited out cluster)
        → let ((r, g), w1) = read_key out cluster key skip_value w in
          r ≡ ok c
          → may_be_mixed out cluster c g ≡ true
          → await_change out cluster
              (suc rounds)
              key
              skip_value
              (frequent out cluster g)
              (out.now w1)
              w1
            ≡ some x
          → ((w' : W) → Got n w')
          → Got (suc n) w
    unfolding do_get
    waited-Got n w c (thrown x w2) e mixed waited again =
        inl (throw x, w2, rw (do_get, e, mixed, waited) refl, λ a h. cc)
    waited-Got n w c (unchanged w2) e mixed waited again =
        let ((r, g), w1) = read_key out cluster key skip_value w in
        let to_end : do_get out cluster (suc n) (suc rounds) key version value skip_value w
            ≡ (let (a, w3) = finish_get out cluster key version value c g w2 in some (ok a, w3)) =
          rw (do_get, e, mixed, waited) refl in
        inl (subst Ended (sym to_end) (finish_get-Ended c g w w1 w2 (λ i. ((e i, g), w1))))
    waited-Got n w c (changed w2) e mixed waited again =
        let ((r, g), w1) = read_key out cluster key skip_value w in
        let to_next : do_get out cluster (suc n) (suc rounds) key version value skip_value w
            ≡ do_get out cluster n (suc rounds) key version value skip_value w2 =
          rw (do_get, e, mixed, waited) refl in
        elim (again w2) [
          | inl ended ↦ inl (subst Ended (sym to_next) ended)
          | inr restarted ↦ inr (c, g, w1, w2, (λ i. ((e i, g), w1)), waited, restarted)
        ]

    do_get-Got : (restarts : ℕ) (w : W) → Got restarts w
    unfolding do_get
    do_get-Got zero w = inr tt
    do_get-Got (suc n) w =
        let ((r, g), w1) = read_key out cluster key skip_value w in
        elim (Result-cases r) [
          | inr (x, e) ↦ inl (throw x, w1, rw (e, do_get) refl, λ a h. cc)
          | inl (c, e) ↦ elim (Bool-cases (may_be_mixed out cluster c g)) [
            | inr sure ↦
                let to_end : do_get out cluster (suc n) (suc rounds) key version value skip_value w
                    ≡ (let (a, w3) = finish_get out cluster key version value c g w1 in
                        some (ok a, w3)) =
                  rw (e, do_get, sure) refl in
                inl (subst Ended (sym to_end) (finish_get-Ended c g w w1 w1 (λ i. ((e i, g), w1))))
            | inl mixed ↦
                let (x, waited) =
                  await_change-ends rounds key skip_value (frequent out cluster g) (out.now w1) w1
                    (omega arith) in
                waited-Got n w c x e mixed waited (do_get-Got n)
          ]
        ]

  -- A get of a value, however many restarts it is allowed, ends, unless before each of them another
  -- version was found while it waited for the write of another client; the wait takes a round for
  -- each 200 ms of the timeout and one more, where the clock does not go back over a read and a sleep
  -- lasts as long as it says. If it does not throw, with OK it returns the version and the value of a
  -- read that found at least num_data answers with that version, and the value is what
  -- reconstructValue makes of them; with any other code both arguments are left alone.
  pub get-IsGot :
      (restarts : ℕ) (key : Bytes) (version value : Option Bytes) (w : W)
      → ((r : Result (Answer out cluster)) × (w' : W) × (get out cluster restarts
              (suc rounds)
              (some key)
              version
              value
              w
            ≡ some (r, w'))
          × ((a : Answer out cluster) → r ≡ ok a → IsGot key version value false a))
        ⊎ Restarted key version value false restarts w
  unfolding get
  get-IsGot restarts key version value w = do_get-Got key version value false restarts w
