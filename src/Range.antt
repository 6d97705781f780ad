-- ===== src/Range.antt =====
-- The requests to all drives of a cluster: ClusterRangeOp and ClusterFlushOp of
-- src/KineticClusterOperation.cc, and range and flush of src/KineticCluster.cc. A key is compared
-- byte by byte, as std::string does.
pub mod Merged
use kineticio.Prelude.{
  ℕ, Bool, true, false, ◌&&◌, ◌||◌, List, [], ◌∷◌, map, Option, none, some, length, take, replicate,
  ltb, ◌==◌, if◌then◌else◌,
}
use kineticio.Str.{Bytes}
use kineticio.Words.{size_sub}
use kineticio.Kinetic.{StatusCode, client_io_error, client_internal_error, is_ok}
use kineticio.Quorum.{ResultMap, count_results, find_quorum}
use kineticio.Operation.{Callback, callback, Operation, Delivery, execute_vector, statuses}

-- `a < b` of two strings
unfoldable pub str_lt : Bytes → Bytes → Bool
str_lt [] [] = false
str_lt [] (y ∷ ys) = true
str_lt (x ∷ xs) [] = false
str_lt (x ∷ xs) (y ∷ ys) = ltb x y || ((x == y) && str_lt xs ys)

-- The insertion of a key into a std::set, as the list of its elements in order.
unfoldable pub insert_key : Bytes → List Bytes → List Bytes
unfolding str_lt
insert_key k [] = k ∷ []
insert_key k (x ∷ xs) =
    let rest = insert_key k xs in
    if str_lt k x then k ∷ x ∷ xs else if str_lt x k then x ∷ rest else x ∷ xs

unfoldable pub insert_each : List Bytes → List Bytes → List Bytes
unfolding insert_key
insert_each [] set = set
insert_each (k ∷ ks) set = insert_each ks (insert_key k set)

-- The loop of getKeys over the keys that each operation has, or null.
unfoldable pub merge_keys : List (Option (List Bytes)) → List Bytes → List Bytes
unfolding insert_each
merge_keys [] set = set
merge_keys (none ∷ found) set = merge_keys found set
merge_keys (some ks ∷ found) set = merge_keys found (insert_each ks set)

-- getKeys
unfoldable pub get_keys : ℕ → List (Option (List Bytes)) → List Bytes
unfolding merge_keys
get_keys max_requested found = take max_requested (merge_keys found [])

-- What every drive is asked: the keys between two keys, both included, from the end if reversed, and
-- how many at most.
pub record RangeRequest : Type 0 where
  pub first_key : Bytes
  pub last_key : Bytes
  pub reverse : Bool
  pub max_requested : ℕ

-- The constructor of ClusterRangeOp
unfoldable pub range_request : Bytes → Bytes → ℕ → RangeRequest
unfolding str_lt
range_request start end max_requested =
    let reverse = str_lt end start in
    record {
      first_key = if reverse then end else start;
      last_key = if reverse then start else end;
      reverse = reverse;
      max_requested = max_requested;
    }

-- The loop over the results of ClusterRangeOp::execute and ClusterFlushOp::execute.
unfoldable pub evaluate_all : ℕ → ResultMap → StatusCode
evaluate_all quorum_size m = elim (find_quorum quorum_size m) [
  | none ↦ client_io_error
  | some (c, n) ↦ c
]

module _ {W : Type 0} (send_range : ℕ → RangeRequest → W → Delivery (Option (List Bytes)) × W)
    (send_flush : ℕ → Unit {0} → W → Delivery (Unit {0}) × W) (ordinal : StatusCode → ℕ)
    (connections num_parity max_range_elements : ℕ) where
  -- KineticCluster::range of keys that are not null: the status, and the keys if it is OK
  unfoldable pub range : Bytes → Bytes → ℕ → W → (StatusCode × Option (List Bytes)) × W
  unfolding range_request execute_vector evaluate_all get_keys
  range start end elements w =
      let max_elements = if elements == 0 then max_range_elements else elements in
      let op : Operation RangeRequest (Option (List Bytes)) = record {
        request = range_request start end max_elements;
        callback = callback none;
      } in
      let (ops, w') = execute_vector send_range 0 (replicate connections op) w in
      let status =
        evaluate_all (size_sub connections num_parity) (count_results ordinal (statuses ops) []) in
      (
        (
          status,
          if is_ok status
              then some (get_keys max_elements (map (λ o. o.callback.payload) ops))
              else none,
        ),
        w',
      )

  -- KineticCluster::range
  unfoldable pub range_checked :
      Option Bytes → Option Bytes → ℕ → W → (StatusCode × Option (List Bytes)) × W
  unfolding range
  range_checked (some start) (some end) elements w = range start end elements w
  range_checked _ _ elements w = ((client_internal_error, none), w)

  -- KineticCluster::flush
  unfoldable pub flush_cluster : W → StatusCode × W
  unfolding execute_vector evaluate_all
  flush_cluster w =
      let op : Operation (Unit {0}) (Unit {0}) = record { request = tt; callback = callback tt } in
      let (ops, w') = execute_vector send_flush 0 (replicate connections op) w in
      (evaluate_all (size_sub connections num_parity) (count_results ordinal (statuses ops) []), w')
