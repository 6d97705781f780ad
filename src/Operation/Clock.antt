-- ===== src/Operation/Clock.antt =====
-- The loop of resolvePartialWrite ends (src/KineticClusterStripeOperation.cc).
use kineticio.Prelude.{
  ℕ, zero, suc, ◌+◌, ◌*◌, ◌≤◌, ◌<◌, ◌≡◌, refl, ap, ◌∙◌, List, [], ◌∷◌, map, Option, none, some,
  length, length-replicate, ltb, bytes_eq, Bool-cases, Option-cases, Result, arith, ◌⊎◌, inl, inr,
}
use native.Mathlib.Nat.{mul-le-mul_left}
use kineticio.Str.{Bytes}
use kineticio.Kinetic.{StatusCode}
use kineticio.Operation.{
  Operation, Delivery, WriteRequest, Writes, Drives, execute_one, execute_vector, version_at,
  find_position, refill, fresh_reads, get_versions, stripe_version, attempt_repair, repair_turn,
  overwrite_stripe, Round, finished, again, resolve_wait, resolve_turn, resolve_round, resolve_loop,
  resolve_partial_write,
}

pub length-map : {A B : Type 0} (f : A → B) (xs : List A) → length (map f xs) ≡ length xs
length-map f [] = refl
length-map f (x ∷ xs) = ap suc (length-map f xs)

length-refill : (ops : Writes) (vs : List (Option Bytes)) → length (refill ops vs) ≡ length ops
unfolding refill
length-refill [] vs = refl
length-refill (op ∷ ops) [] = refl
length-refill (op ∷ ops) (none ∷ vs) = ap suc (length-refill ops vs)
length-refill (op ∷ ops) (some v ∷ vs) = ap suc (length-refill ops vs)

module _ {W R A : Type 0} (send : ℕ → R → W → Delivery A × W) where
  pub length-execute_vector :
      (i : ℕ) (ops : List (Operation R A)) (w : W)
      → length (execute_vector send i ops w).0 ≡ length ops
  unfolding execute_vector
  length-execute_vector i [] w = refl
  length-execute_vector i (op ∷ ops) w =
      ap suc (length-execute_vector (suc i) ops (execute_one send i op w).1)

  -- A measure that no request lowers is not lowered by all of them.
  module _ (t : W → ℕ) (rises : (i : ℕ) (r : R) (w : W) → t w ≤ t (send i r w).1) where
    execute_one-le : (i : ℕ) (op : Operation R A) (w : W) → t w ≤ t (execute_one send i op w).1
    unfolding execute_one
    execute_one-le i op w = elim (Bool-cases op.callback.done) [
      | inl e ↦ rw e (omega arith)
      | inr e ↦ rw e (rises i op.request w)
    ]

    execute_vector-le :
        (i : ℕ) (ops : List (Operation R A)) (w : W) → t w ≤ t (execute_vector send i ops w).1
    unfolding execute_vector
    execute_vector-le i [] w = omega arith
    execute_vector-le i (op ∷ ops) w =
        omega
          (arith, execute_one-le i op w, execute_vector-le (suc i) ops (execute_one send i op w).1)

find_position-lt :
    (version : Bytes) (vs : List (Option Bytes)) {p : ℕ}
    → find_position version vs ≡ some p
    → p < length vs
unfolding find_position
find_position-lt version [] h = cc
find_position-lt version (v ∷ vs) {p} h = elim (Option-cases (find_position version vs)) [
  | inl e ↦ ground arith
  | inr (q, e) ↦ let r : q < length vs = find_position-lt version vs e in ground arith
]

-- The clock does not go back over a request, and a sleep lasts at least as long as it says.
pub record IsClock {W : Type 0} (drives : Drives W) : Type 0 where
  pub writes :
      (i : ℕ) (r : WriteRequest) (w : W) → drives.now w ≤ drives.now (drives.send_write i r w).1
  pub reads :
      (i : ℕ) (r : Unit {0}) (w : W) → drives.now w ≤ drives.now (drives.send_version i r w).1
  pub sleeps : (n : ℕ) (w : W) → drives.now w + n ≤ drives.now (drives.sleep n w)

module _ {W : Type 0} (drives : Drives W) (ordinal : StatusCode → ℕ)
    (num_data num_parity timeout : ℕ) (clock : IsClock drives) where
  get_versions-le :
      (w : W)
      → drives.now w ≤ drives.now (get_versions drives ordinal num_data num_parity timeout w).1
  unfolding get_versions
  get_versions-le w =
      execute_vector-le drives.send_version drives.now clock.reads 0
        (fresh_reads drives ordinal num_data num_parity timeout) w

  length-get_versions :
      (w : W)
      → length (get_versions drives ordinal num_data num_parity timeout w).0 ≡ num_data + num_parity
  unfolding get_versions
  length-get_versions w =
      length-map _ _
      ∙ length-execute_vector drives.send_version 0
          (fresh_reads drives ordinal num_data num_parity timeout) w
      ∙ length-replicate {A = Operation (Unit {0}) Bytes} (num_data + num_parity) _

  repair_turn-le :
      (version frequent : Bytes) (ops : Writes) (vs : List (Option Bytes)) (w : W)
      → drives.now w
        ≤ drives.now
            (repair_turn drives ordinal num_data num_parity timeout version frequent ops vs w).2
  unfolding repair_turn attempt_repair
  repair_turn-le version frequent ops vs w = elim (Bool-cases (bytes_eq version frequent)) [
    | inl e ↦ rw e (execute_vector-le drives.send_write drives.now clock.writes 0 (refill ops vs) w)
    | inr e ↦ rw e (omega arith)
  ]

  length-attempt_repair :
      (ops : Writes) (vs : List (Option Bytes)) (w : W)
      → length (attempt_repair drives ordinal num_data num_parity timeout ops vs w).1 ≡ length ops
  unfolding attempt_repair
  length-attempt_repair ops vs w =
      length-execute_vector drives.send_write 0 (refill ops vs) w ∙ length-refill ops vs

  length-repair_turn :
      (version frequent : Bytes) (ops : Writes) (vs : List (Option Bytes)) (w : W)
      → length (repair_turn drives ordinal num_data num_parity timeout version frequent ops vs w).1
        ≡ length ops
  unfolding repair_turn
  length-repair_turn version frequent ops vs w = elim (Bool-cases (bytes_eq version frequent)) [
    | inl e ↦ rw e (length-attempt_repair ops vs w)
    | inr e ↦ rw e refl
  ]

  length-overwrite_stripe :
      (ops : Writes) (w : W)
      → length (overwrite_stripe drives ordinal num_data num_parity timeout ops w).0 ≡ length ops
  unfolding overwrite_stripe
  length-overwrite_stripe ops w = length-attempt_repair ops _ _

  slot-le :
      (p : ℕ) → p < num_data + num_parity → timeout * (p + 1) ≤ timeout * (num_data + num_parity)
  slot-le p h = mul-le-mul_left timeout (omega arith)

  -- A round keeps the number of operations, and it ends the loop, or it takes 100 ms and ends before the last chunk's turn does.
  abbrev Goes : ℕ → ℕ → W → Round W → Type 0
  Goes n start w r =
      ((result : Result (Unit {0})) × (ops : Writes) × (w' : W) × (r ≡ finished result ops w')
        × (length ops ≡ n))
      ⊎ ((ops : Writes) × (w' : W) × (r ≡ again ops w')
          × (length ops ≡ n)
          × (drives.now w + 100 ≤ drives.now w')
          × (drives.now w' < start + timeout * (num_data + num_parity)))

  resolve_wait-Goes :
      (start : ℕ) (version : Bytes) (vs : List (Option Bytes)) (ops : Writes) (w : W)
      → length vs ≡ num_data + num_parity
      → Goes
          (length ops)
          start
          w
          (resolve_wait drives ordinal num_data num_parity timeout start version vs ops w)
  unfolding resolve_wait
  resolve_wait-Goes start version vs ops w sized = elim (Option-cases (find_position version vs)) [
    | inl e ↦ rw (e, resolve_wait) (inl (_, _, _, refl, refl))
    | inr (p, e) ↦
        let slept = drives.sleep 100 w in
        elim (Bool-cases (ltb (drives.now slept) (start + timeout * (p + 1)))) [
          | inr late ↦
              rw (e, resolve_wait, late) (inl (_, _, _, refl, length-overwrite_stripe ops slept))
          | inl soon ↦
              rw (e, resolve_wait, soon)
                (inr (
                  ops,
                  slept,
                  refl,
                  refl,
                  clock.sleeps 100 w,
                  (let before : drives.now slept < start + timeout * (p + 1) = ground arith in
                      omega
                        (arith, slot-le p (omega (arith, sized, find_position-lt version vs e)))),
                ))
        ]
  ]

  Goes-earlier :
      (m n start : ℕ) (w w' : W) (r : Round W)
      → m ≡ n
      → drives.now w ≤ drives.now w'
      → Goes m start w' r
      → Goes n start w r
  Goes-earlier m n start w w' r same h (inl (x, ops, v, e, l)) = inl (x, ops, v, e, l ∙ same)
  Goes-earlier m n start w w' r same h (inr (ops, v, e, l, k, j)) =
      inr (ops, v, e, l ∙ same, omega arith, j)

  resolve_turn-Goes :
      (start : ℕ) (version frequent : Bytes) (vs : List (Option Bytes)) (ops : Writes) (w : W)
      → length vs ≡ num_data + num_parity
      → Goes
          (length ops)
          start
          w
          (resolve_turn drives ordinal num_data num_parity timeout start version frequent vs ops w)
  unfolding resolve_turn
  resolve_turn-Goes start version frequent vs ops w sized =
      let (repaired, ops', w') =
        repair_turn drives ordinal num_data num_parity timeout version frequent ops vs w in
      elim (Bool-cases repaired) [
        | inl e ↦ rw e (inl (_, _, _, refl, length-repair_turn version frequent ops vs w))
        | inr e ↦ rw e (
            Goes-earlier (length ops') (length ops) start w w' _
              (length-repair_turn version frequent ops vs w)
              (repair_turn-le version frequent ops vs w)
              (resolve_wait-Goes start version vs ops' w' sized))
      ]

  resolve_round-Goes :
      (start : ℕ) (version : Bytes) (ops : Writes) (w : W)
      → Goes
          (length ops)
          start
          w
          (resolve_round drives ordinal num_data num_parity timeout start version ops w)
  unfolding resolve_round
  resolve_round-Goes start version ops w =
      let (answers, w') = get_versions drives ordinal num_data num_parity timeout w in
      elim (Option-cases
        (stripe_version drives ordinal num_data num_parity timeout answers).version) [
          | inl e ↦ rw (e, resolve_round) (inl (_, _, _, refl, refl))
          | inr (frequent, e) ↦
              rw (e, resolve_round)
                (Goes-earlier (length ops) (length ops) start w w' _ refl (get_versions-le w) (
                  resolve_turn-Goes start version frequent (map version_at answers) ops w'
                    (length-map version_at answers ∙ length-get_versions w)))
        ]

  resolve_loop-ends :
      (fuel start : ℕ) (version : Bytes) (ops : Writes) (w : W)
      → 0 < fuel
      → start + timeout * (num_data + num_parity) < drives.now w + 100 * fuel
      → (r : Result (Unit {0})) × (ops' : Writes) × (w' : W) × (resolve_loop drives ordinal num_data
            num_parity timeout fuel start version ops w
          ≡ some (r, ops', w'))
        × (length ops' ≡ length ops)
  unfolding resolve_loop
  resolve_loop-ends zero start version ops w h k = absurd (omega arith)
  resolve_loop-ends (suc fuel) start version ops w h k =
      elim (resolve_round-Goes start version ops w) [
        | inl (result, ops', w', e, l) ↦ rw (e, resolve_loop) (result, ops', w', refl, l)
        | inr (ops', w', e, l, later, soon) ↦
            let (r, ops'', w'', f, k) =
              resolve_loop-ends fuel start version ops' w' (omega arith) (omega arith) in
            rw (e, resolve_loop) (r, ops'', w'', f, k ∙ l)
      ]

  -- Where the clock does not go back over a request and a sleep lasts as long as it says,
  -- resolvePartialWrite ends, with as many operations as before: it takes no more rounds than periods
  -- of 100 ms fit into the timeout times the number of chunks, and one more.
  pub resolve_partial_write-ends :
      (fuel : ℕ) (version : Bytes) (ops : Writes) (w : W)
      → timeout * (num_data + num_parity) < 100 * fuel
      → (r : Result (Unit {0})) × (ops' : Writes) × (w' : W) × (resolve_partial_write drives ordinal
            num_data num_parity timeout fuel version ops w
          ≡ some (r, ops', w'))
        × (length ops' ≡ length ops)
  unfolding resolve_partial_write
  resolve_partial_write-ends fuel version ops w enough =
      resolve_loop-ends fuel (drives.now w) version ops w (omega arith) (omega arith)
