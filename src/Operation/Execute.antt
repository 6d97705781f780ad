-- ===== src/Operation/Execute.antt =====
-- The execution of a write and of a removal (src/KineticClusterStripeOperation.cc:
-- StripeOperation_PUT::execute, StripeOperation_DEL::execute).
use kineticio.Prelude.{
  ℕ, ◌+◌, Bool, false, [], ◌∷◌, Option, none, some, ltb, ◌==◌, ◌&&◌, ◌||◌, if◌then◌else◌, Result,
  ok, throw,
}
use kineticio.Str.{Bytes}
use kineticio.Kinetic.{
  StatusCode, status_ok, client_io_error, remote_not_found, remote_version_mismatch, is_ok,
}
use kineticio.Quorum.{rank, ResultMap, lookup, find_quorum}
use kineticio.Operation.{
  Writes, Drives, stripe_size, results, statuses, execute_vector, resolve_partial_write,
}

module _ {W : Type 0} (drives : Drives W) (ordinal : StatusCode → ℕ)
    (num_data num_parity timeout : ℕ) where
  -- The search for a quorum at the end of StripeOperation_PUT::execute: the status, and whether the
  -- indicator is needed.
  unfoldable pub evaluate_put : ResultMap → StatusCode × Bool
  evaluate_put m = elim (find_quorum num_data m) [
    | none ↦ (client_io_error, false)
    | some (c, n) ↦ (c, is_ok c && ltb n (stripe_size drives ordinal num_data num_parity timeout))
  ]

  -- The same of StripeOperation_DEL::execute.
  unfoldable pub evaluate_del : ResultMap → StatusCode × Bool
  evaluate_del m = elim (find_quorum num_data m) [
    | none ↦ (client_io_error, false)
    | some (c, n) ↦ (c, ltb n (stripe_size drives ordinal num_data num_parity timeout))
  ]

  -- `rmap[c] = n`, for a code in the map
  unfoldable pub set_count : StatusCode → ℕ → ResultMap → ResultMap
  set_count c n [] = []
  set_count c n ((d, k) ∷ m) =
      if rank ordinal c == rank ordinal d then (d, n) ∷ m else (d, k) ∷ set_count c n m

  -- A drive without the key counts as one that removed it, if another did.
  unfoldable pub count_missing : ResultMap → ResultMap
  unfolding set_count
  count_missing m =
      let removed = lookup ordinal status_ok m in
      let missing = lookup ordinal remote_not_found m in
      if ltb 0 removed && ltb 0 missing
      then set_count remote_not_found 0 (set_count status_ok (removed + missing) m)
      else m

  -- Whether a write or a removal is partial.
  unfoldable pub is_partial_put : ResultMap → Bool
  is_partial_put m =
      ltb 0 (lookup ordinal status_ok m)
      && (ltb 0 (lookup ordinal remote_version_mismatch m)
          || ltb 0 (lookup ordinal remote_not_found m))

  unfoldable pub is_partial_del : ResultMap → Bool
  is_partial_del m =
      ltb 0 (lookup ordinal status_ok m) && ltb 0 (lookup ordinal remote_version_mismatch m)

  -- The end of execute, on the operations after the resolution.
  unfoldable pub finish :
      (ResultMap → StatusCode × Bool)
      → Result (Unit {0}) × Writes × W
      → Result (StatusCode × Bool) × Writes × W
  finish evaluate (throw e, ops, w) = (throw e, ops, w)
  finish evaluate (ok _, ops, w) =
      (ok (evaluate (results drives ordinal num_data num_parity timeout (statuses ops))), ops, w)

  -- StripeOperation_PUT::execute
  unfoldable pub put_execute :
      ℕ → Bytes → Writes → W → Option (Result (StatusCode × Bool) × Writes × W)
  unfolding execute_vector is_partial_put resolve_partial_write evaluate_put finish
  put_execute fuel version ops w =
      let (ops', w') = execute_vector drives.send_write 0 ops w in
      if is_partial_put (results drives ordinal num_data num_parity timeout (statuses ops'))
      then elim (resolve_partial_write drives ordinal num_data num_parity timeout fuel version ops'
          w') [ none ↦ none | some r ↦ some (finish evaluate_put r) ]
      else some (finish evaluate_put (ok tt, ops', w'))

  -- StripeOperation_DEL::execute
  unfoldable pub del_execute : ℕ → Writes → W → Option (Result (StatusCode × Bool) × Writes × W)
  unfolding execute_vector is_partial_del resolve_partial_write evaluate_del count_missing finish
  del_execute fuel ops w =
      let (ops', w') = execute_vector drives.send_write 0 ops w in
      let evaluate : ResultMap → StatusCode × Bool = λ m. evaluate_del (count_missing m) in
      if is_partial_del (results drives ordinal num_data num_parity timeout (statuses ops'))
      then elim (resolve_partial_write drives ordinal num_data num_parity timeout fuel [] ops' w') [
        | none ↦ none
        | some r ↦ some (finish evaluate r)
      ]
      else some (finish evaluate (ok tt, ops', w'))
