-- ===== src/Range/Merged.antt =====
-- The keys of a range over all drives (src/KineticClusterOperation.cc: ClusterRangeOp::getKeys).
use kineticio.Prelude.{
  ℕ, zero, suc, ◌≤◌, ◌≡◌, refl, ◌∙◌, ap, true, false, List, [], ◌∷◌, Option, none, some, length,
  take, length-take, ◌⊎◌, inl, inr, arith, Bool-cases,
}
use kineticio.Str.{Bytes}
use kineticio.Range.{str_lt, insert_key, insert_each, merge_keys, get_keys}

pub str_lt_trans : (a b c : Bytes) → str_lt a b ≡ true → str_lt b c ≡ true → str_lt a c ≡ true
unfolding str_lt
str_lt_trans [] [] c h k = cc h
str_lt_trans [] (y ∷ b) [] h k = cc k
str_lt_trans [] (y ∷ b) (z ∷ c) h k = refl
str_lt_trans (x ∷ a) [] c h k = cc h
str_lt_trans (x ∷ a) (y ∷ b) [] h k = cc k
str_lt_trans (x ∷ a) (y ∷ b) (z ∷ c) h k = ground (arith, str_lt_trans a b c)

pub str_lt_equal : (a b : Bytes) → str_lt a b ≡ false → str_lt b a ≡ false → a ≡ b
unfolding str_lt
str_lt_equal [] [] h k = refl
str_lt_equal [] (y ∷ b) h k = cc h
str_lt_equal (x ∷ a) [] h k = cc k
str_lt_equal (x ∷ a) (y ∷ b) h k =
    let same : x ≡ y = ground (arith, h, k) in
    let rest : a ≡ b = str_lt_equal a b (ground (arith, h, same)) (ground (arith, k, same)) in
    cc (same, rest)

-- The key is in the list.
abbrev pub In : Bytes → List Bytes → Type 0
In k [] = ⊥
In k (x ∷ xs) = (k ≡ x) ⊎ In k xs

-- A drive returned the key.
abbrev pub Given : Bytes → List (Option (List Bytes)) → Type 0
Given k [] = ⊥
Given k (none ∷ found) = Given k found
Given k (some ks ∷ found) = In k ks ⊎ Given k found

-- The keys rise, from above a key on.
abbrev pub Rising : Bytes → List Bytes → Type 0
Rising k [] = Unit {0}
Rising k (x ∷ xs) = (str_lt k x ≡ true) × Rising x xs

abbrev pub IsRising : List Bytes → Type 0
IsRising [] = Unit {0}
IsRising (x ∷ xs) = Rising x xs

insert_key-Rising :
    (low k : Bytes) (xs : List Bytes)
    → str_lt low k ≡ true
    → Rising low xs
    → Rising low (insert_key k xs)
unfolding insert_key
insert_key-Rising low k [] above rising = (above, tt)
insert_key-Rising low k (x ∷ xs) above rising = elim (Bool-cases (str_lt k x)) [
  | inl e ↦ rw (e, insert_key) (above, (e, rising.1))
  | inr e ↦ elim (Bool-cases (str_lt x k)) [
    | inl f ↦ rw (e, f, insert_key) (rising.0, insert_key-Rising x k xs f rising.1)
    | inr f ↦ rw (e, f, insert_key) rising
  ]
]

insert_key-IsRising : (k : Bytes) (xs : List Bytes) → IsRising xs → IsRising (insert_key k xs)
unfolding insert_key
insert_key-IsRising k [] rising = tt
insert_key-IsRising k (x ∷ xs) rising = elim (Bool-cases (str_lt k x)) [
  | inl e ↦ rw (e, insert_key) (e, rising)
  | inr e ↦ elim (Bool-cases (str_lt x k)) [
    | inl f ↦ rw (e, f, insert_key) (insert_key-Rising x k xs f rising)
    | inr f ↦ rw (e, f, insert_key) rising
  ]
]

insert_key-In : (k j : Bytes) (xs : List Bytes) → (j ≡ k) ⊎ In j xs → In j (insert_key k xs)
unfolding insert_key
insert_key-In k j [] (inl h) = inl h
insert_key-In k j [] (inr h) = absurd h
insert_key-In k j (x ∷ xs) h = elim (Bool-cases (str_lt k x)) [
  | inl e ↦ rw (e, insert_key) h
  | inr e ↦ elim (Bool-cases (str_lt x k)) [
    | inl f ↦
        rw (e, f, insert_key)
          (elim h [
            | inl same ↦ inr (insert_key-In k j xs (inl same))
            | inr (inl first) ↦ inl first
            | inr (inr later) ↦ inr (insert_key-In k j xs (inr later))
          ])
    | inr f ↦
        rw (e, f, insert_key)
          (elim h [ inl same ↦ inl (same ∙ str_lt_equal k x e f) | inr inside ↦ inside ])
  ]
]

In-insert_key : (k j : Bytes) (xs : List Bytes) → In j (insert_key k xs) → (j ≡ k) ⊎ In j xs
unfolding insert_key
In-insert_key k j [] = λ h. h
In-insert_key k j (x ∷ xs) = elim (Bool-cases (str_lt k x)) [
  | inl e ↦ rw (e, insert_key) (λ h. h)
  | inr e ↦ elim (Bool-cases (str_lt x k)) [
    | inl f ↦
        rw (e, f, insert_key)
          (λ h. elim h [
            | inl first ↦ inr (inl first)
            | inr later ↦ elim (In-insert_key k j xs later) [
              | inl same ↦ inl same
              | inr inside ↦ inr (inr inside)
            ]
          ])
    | inr f ↦ rw (e, f, insert_key) (λ h. inr h)
  ]
]

insert_each-IsRising : (ks set : List Bytes) → IsRising set → IsRising (insert_each ks set)
unfolding insert_each
insert_each-IsRising [] set rising = rising
insert_each-IsRising (k ∷ ks) set rising =
    insert_each-IsRising ks (insert_key k set) (insert_key-IsRising k set rising)

insert_each-In : (ks set : List Bytes) (j : Bytes) → In j ks ⊎ In j set → In j (insert_each ks set)
unfolding insert_each
insert_each-In [] set j (inl h) = absurd h
insert_each-In [] set j (inr h) = h
insert_each-In (k ∷ ks) set j (inl (inl same)) =
    insert_each-In ks (insert_key k set) j (inr (insert_key-In k j set (inl same)))
insert_each-In (k ∷ ks) set j (inl (inr later)) = insert_each-In ks (insert_key k set) j (inl later)
insert_each-In (k ∷ ks) set j (inr inside) =
    insert_each-In ks (insert_key k set) j (inr (insert_key-In k j set (inr inside)))

In-insert_each : (ks set : List Bytes) (j : Bytes) → In j (insert_each ks set) → In j ks ⊎ In j set
unfolding insert_each
In-insert_each [] set j h = inr h
In-insert_each (k ∷ ks) set j h = elim (In-insert_each ks (insert_key k set) j h) [
  | inl later ↦ inl (inr later)
  | inr inside ↦ elim (In-insert_key k j set inside) [
    | inl same ↦ inl (inl same)
    | inr old ↦ inr old
  ]
]

merge_keys-IsRising :
    (found : List (Option (List Bytes))) (set : List Bytes)
    → IsRising set
    → IsRising (merge_keys found set)
unfolding merge_keys
merge_keys-IsRising [] set rising = rising
merge_keys-IsRising (none ∷ found) set rising = merge_keys-IsRising found set rising
merge_keys-IsRising (some ks ∷ found) set rising =
    merge_keys-IsRising found (insert_each ks set) (insert_each-IsRising ks set rising)

merge_keys-In :
    (found : List (Option (List Bytes))) (set : List Bytes) (j : Bytes)
    → Given j found ⊎ In j set
    → In j (merge_keys found set)
unfolding merge_keys
merge_keys-In [] set j (inl h) = absurd h
merge_keys-In [] set j (inr h) = h
merge_keys-In (none ∷ found) set j h = merge_keys-In found set j h
merge_keys-In (some ks ∷ found) set j (inl (inl h)) =
    merge_keys-In found (insert_each ks set) j (inr (insert_each-In ks set j (inl h)))
merge_keys-In (some ks ∷ found) set j (inl (inr h)) =
    merge_keys-In found (insert_each ks set) j (inl h)
merge_keys-In (some ks ∷ found) set j (inr h) =
    merge_keys-In found (insert_each ks set) j (inr (insert_each-In ks set j (inr h)))

In-merge_keys :
    (found : List (Option (List Bytes))) (set : List Bytes) (j : Bytes)
    → In j (merge_keys found set)
    → Given j found ⊎ In j set
unfolding merge_keys
In-merge_keys [] set j h = inr h
In-merge_keys (none ∷ found) set j h = In-merge_keys found set j h
In-merge_keys (some ks ∷ found) set j h = elim (In-merge_keys found (insert_each ks set) j h) [
  | inl later ↦ inl (inr later)
  | inr inside ↦ elim (In-insert_each ks set j inside) [
    | inl given ↦ inl (inl given)
    | inr old ↦ inr old
  ]
]

Rising-In : (low k : Bytes) (xs : List Bytes) → Rising low xs → In k xs → str_lt low k ≡ true
Rising-In low k [] rising h = absurd h
Rising-In low k (x ∷ xs) rising (inl h) = rw h rising.0
Rising-In low k (x ∷ xs) rising (inr h) =
    str_lt_trans low x k rising.0 (Rising-In x k xs rising.1 h)

IsRising-tail : (x : Bytes) (xs : List Bytes) → Rising x xs → IsRising xs
IsRising-tail x [] rising = tt
IsRising-tail x (y ∷ xs) rising = rising.1

take-Rising : (n : ℕ) (low : Bytes) (xs : List Bytes) → Rising low xs → Rising low (take n xs)
take-Rising zero low xs rising = tt
take-Rising (suc n) low [] rising = tt
take-Rising (suc n) low (x ∷ xs) rising = (rising.0, take-Rising n x xs rising.1)

take-IsRising : (n : ℕ) (xs : List Bytes) → IsRising xs → IsRising (take n xs)
take-IsRising zero xs rising = tt
take-IsRising (suc n) [] rising = tt
take-IsRising (suc n) (x ∷ xs) rising = take-Rising n x xs rising

In-take : (n : ℕ) (k : Bytes) (xs : List Bytes) → In k (take n xs) → In k xs
In-take zero k xs h = absurd h
In-take (suc n) k [] h = absurd h
In-take (suc n) k (x ∷ xs) (inl h) = inl h
In-take (suc n) k (x ∷ xs) (inr h) = inr (In-take n k xs h)

-- A key that was cut off is greater than all that were kept.
take-In :
    (n : ℕ) (k : Bytes) (xs : List Bytes)
    → IsRising xs
    → In k xs
    → In k (take n xs)
      ⊎ ((length (take n xs) ≡ n) × ((j : Bytes) → In j (take n xs) → str_lt j k ≡ true))
take-In zero k xs rising h = inr (refl, λ j none_kept. absurd none_kept)
take-In (suc n) k [] rising h = absurd h
take-In (suc n) k (x ∷ xs) rising (inl h) = inl (inl h)
take-In (suc n) k (x ∷ xs) rising (inr h) = elim (take-In n k xs (IsRising-tail x xs rising) h) [
  | inl kept ↦ inl (inr kept)
  | inr (full, below) ↦ inr (
    ap suc full,
    λ j kept. elim kept [
      | inl first ↦ rw first (Rising-In x k xs rising h)
      | inr later ↦ below j later
    ],
  )
]

pub record IsMerged (max_requested : ℕ) (found : List (Option (List Bytes))) (keys : List Bytes)
    : Type 0 where
  pub rising : IsRising keys
  pub few : length keys ≤ max_requested
  pub given : (k : Bytes) → In k keys → Given k found
  pub smallest :
      (k : Bytes)
      → Given k found
      → In k keys ⊎ ((length keys ≡ max_requested) × ((j : Bytes) → In j keys → str_lt j k ≡ true))

-- getKeys returns at most as many keys as requested, in rising order and without doubles, each of
-- which some drive returned; and a key that some drive returned is among them, or they are as many as
-- requested and all smaller. So it is also for a reversed range, for which the interface promises the
-- reverse order.
pub get_keys-IsMerged :
    (max_requested : ℕ) (found : List (Option (List Bytes)))
    → IsMerged max_requested found (get_keys max_requested found)
unfolding get_keys
get_keys-IsMerged max_requested found =
    let all = merge_keys found [] in
    let sorted = merge_keys-IsRising found [] tt in
    record {
      rising = take-IsRising max_requested all sorted;
      few = omega (arith, length-take max_requested all);
      given = λ k h. elim (In-merge_keys found [] k (In-take max_requested k all h)) [
        | inl g ↦ g
        | inr e ↦ absurd e
      ];
      smallest = λ k g. take-In max_requested k all sorted (merge_keys-In found [] k (inl g));
    }
