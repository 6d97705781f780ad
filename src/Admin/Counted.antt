-- ===== src/Admin/Counted.antt =====
-- The keys that a count of the administration goes through page by page
-- (src/KineticAdminCluster.cc: doOperation, count).
use kineticio.Prelude.{
  Bool, ◌≤◌, ℕ, zero, suc, ◌+◌, ◌<◌, ◌≡◌, refl, sym, ap, ◌∙◌, subst, true, false, not, List, [],
  ◌∷◌, ◌++◌, Option, some, length, take, drop, length-take, length-drop, if◌then◌else◌, on_if,
  Bool-cases, Option-cases, ok, inl, inr, ◌⊎◌, arith,
}
use kineticio.Str.{Bytes}
use kineticio.Kinetic.{StatusCode, is_ok}
use kineticio.Range.{str_lt}
use kineticio.Range.Merged.{str_lt_trans}
use kineticio.Cluster.{KineticCluster, Outside}
use kineticio.Admin.{AdminOperation, OperationTarget, KeyCounts, no_counts, init_range_keys}
use kineticio.Admin.Pages.{last_key, page_loop, page_round, is_interrupted, count}

-- The keys from `s` on, and those after `k`.
abbrev pub from : Bytes → List Bytes → List Bytes
from s [] = []
from s (x ∷ xs) = let rest = from s xs in if str_lt x s then rest else x ∷ rest

str_lt_irrefl : (a : Bytes) → str_lt a a ≡ false
unfolding str_lt
str_lt_irrefl [] = refl
str_lt_irrefl (x ∷ a) = ground (arith, str_lt_irrefl a)

str_lt_asym : (a b : Bytes) → str_lt a b ≡ true → str_lt b a ≡ false
str_lt_asym a b h = elim (Bool-cases (str_lt b a)) [
  | inr e ↦ e
  | inl e ↦ let no_way : ⊥ = cc (str_lt_trans a b a h e, str_lt_irrefl a) in absurd no_way
]

-- A key with a zero behind it is the next one.
str_lt-next : (x k : Bytes) → str_lt x (k ++ 0 ∷ []) ≡ not (str_lt k x)
unfolding str_lt
str_lt-next [] [] = refl
str_lt-next [] (a ∷ k) = refl
str_lt-next (y ∷ []) [] = ground arith
str_lt-next (y ∷ z ∷ x) [] = ground arith
str_lt-next (y ∷ x) (a ∷ k) = ground (arith, str_lt-next x k)

-- All keys lie after `k`.
abbrev Above : Bytes → List Bytes → Type 0
Above k [] = Unit {0}
Above k (x ∷ xs) = (str_lt k x ≡ true) × Above k xs

abbrev IsRising : List Bytes → Type 0
IsRising [] = Unit {0}
IsRising (x ∷ xs) = Above x xs × IsRising xs

from_Above : (k : Bytes) (l : List Bytes) → Above k l → from (k ++ 0 ∷ []) l ≡ l
from_Above k [] h = refl
from_Above k (x ∷ l) (lt, h) = rw (str_lt-next x k, lt) (ap (◌∷◌ x) (from_Above k l h))

Above-from : (k s : Bytes) (l : List Bytes) → Above k l → Above k (from s l)
Above-from k s [] h = tt
Above-from k s (x ∷ l) h =
    on_if (Above k) (str_lt x s) _ _ (λ _. Above-from k s l h.1) (λ _. (h.0, Above-from k s l h.1))

IsRising-from : (s : Bytes) (l : List Bytes) → IsRising l → IsRising (from s l)
IsRising-from s [] h = tt
IsRising-from s (x ∷ l) h =
    on_if IsRising (str_lt x s) _ _ (λ _. IsRising-from s l h.1)
      (λ _. (Above-from x s l h.0, IsRising-from s l h.1))

-- The last key of a page is below those that follow, and the next request leads to these.
last_key-Above :
    (m : ℕ) (k x : Bytes) (l : List Bytes)
    → Above k (x ∷ l)
    → str_lt k (last_key x (take m l)) ≡ true
unfolding last_key
last_key-Above zero k x l h = h.0
last_key-Above (suc m) k x [] h = h.0
last_key-Above (suc m) k x (y ∷ l) h = last_key-Above m k y l h.1

from-last_key :
    (m : ℕ) (x : Bytes) (l : List Bytes)
    → IsRising (x ∷ l)
    → from (last_key x (take m l) ++ 0 ∷ []) (x ∷ l) ≡ drop m l
unfolding last_key
from-last_key zero x l h = rw (str_lt-next x x, str_lt_irrefl x) (from_Above x l h.0)
from-last_key (suc m) x [] h = rw (str_lt-next x x, str_lt_irrefl x) refl
from-last_key (suc m) x (y ∷ l) h =
    let k = last_key y (take m l) in
    let above : str_lt x k ≡ true = last_key-Above m x y l h.0 in
    let below : str_lt k x ≡ false = str_lt_asym x k above in
    rw (str_lt-next x k, below) (from-last_key m y l h.1)

-- No key lies before `s`.
abbrev NotBelow : Bytes → List Bytes → Type 0
NotBelow s [] = Unit {0}
NotBelow s (x ∷ xs) = (str_lt x s ≡ false) × NotBelow s xs

NotBelow-from : (s : Bytes) (l : List Bytes) → NotBelow s (from s l)
NotBelow-from s [] = tt
NotBelow-from s (x ∷ l) = elim (Bool-cases (str_lt x s)) [
  | inl e ↦ rw e (NotBelow-from s l)
  | inr e ↦ rw e (e, NotBelow-from s l)
]

last_key-NotBelow :
    (s : Bytes) (m : ℕ) (x : Bytes) (l : List Bytes)
    → NotBelow s (x ∷ l)
    → str_lt (last_key x (take m l)) s ≡ false
unfolding last_key
last_key-NotBelow s zero x l h = h.0
last_key-NotBelow s (suc m) x [] h = h.0
last_key-NotBelow s (suc m) x (y ∷ l) h = last_key-NotBelow s m y l h.1

-- What lies after a key that is not before `s` lies from `s` on.
from-from :
    (k s : Bytes) (l : List Bytes)
    → str_lt k s ≡ false
    → from (k ++ 0 ∷ []) (from s l) ≡ from (k ++ 0 ∷ []) l
from-from k s [] h = refl
from-from k s (x ∷ l) h = elim (Bool-cases (str_lt x s)) [
  | inr e ↦ rw e (ap (λ r. if str_lt x (k ++ 0 ∷ []) then r else x ∷ r) (from-from k s l h))
  | inl e ↦
      let before : str_lt k x ≡ false = elim (Bool-cases (str_lt k x)) [
        | inr f ↦ f
        | inl f ↦ let no_way : ⊥ = cc (str_lt_trans k x s f e, h) in absurd no_way
      ] in
      rw (e, str_lt-next x k, before) (from-from k s l h)
]

-- The request that follows a page leads to the keys that are left.
from_page :
    (m : ℕ) (s x : Bytes) (l keys : List Bytes)
    → IsRising keys
    → from s keys ≡ x ∷ l
    → from (last_key x (take m l) ++ 0 ∷ []) keys ≡ drop m l
from_page m s x l keys rising e =
    let below : NotBelow s (x ∷ l) = subst (NotBelow s) e (NotBelow-from s keys) in
    let rises : IsRising (x ∷ l) = subst IsRising e (IsRising-from s keys rising) in
    sym (from-from (last_key x (take m l)) s keys (last_key-NotBelow s m x l below))
    ∙ ap (from (last_key x (take m l) ++ 0 ∷ [])) e
    ∙ from-last_key m x l rises

-- The keys up to `end`, which a request with a positive limit gives page by page, and which stay as
-- they are.
pub record Listing {W : Type 0} (range : Bytes → Bytes → W → (StatusCode × Option (List Bytes)) × W)
    (end : Bytes) : Type 0 where
  pub keys : List Bytes
  pub limit : ℕ
  pub rising : IsRising keys
  pub answered :
      (s : Bytes) (w : W)
      → (is_ok (range s end w).0.0 ≡ true)
        × ((range s end w).0.1 ≡ some (take (suc limit) (from s keys)))

keys_cases : (l : List Bytes) → (l ≡ []) ⊎ ((x : Bytes) × (xs : List Bytes) × (l ≡ x ∷ xs))
keys_cases [] = inl refl
keys_cases (x ∷ xs) = inr (x, xs, refl)

module _ {W : Type 0} (out : Outside W) (cluster : KineticCluster) (fuel : ℕ)
    (range_with : ℕ → Bytes → Bytes → ℕ → W → (StatusCode × Option (List Bytes)) × W)
    (range : Bytes → Bytes → W → (StatusCode × Option (List Bytes)) × W) (target : OperationTarget)
    (callback : Option (ℕ → Bool)) (end : Bytes) (listing : Listing range end) where
  abbrev loop : ℕ → Bytes → KeyCounts → W → Option (KeyCounts × W)
  loop n s counts w =
      page_loop out cluster fuel range_with range AdminOperation.count target callback n s end
        counts w

  -- The callback asks to stop at that number of keys.
  abbrev pub Stops : ℕ → Type 0
  Stops total = (f : ℕ → Bool) × (callback ≡ some f) × (f total ≡ false)

  abbrev stop : ℕ → Bool
  stop total =
      is_interrupted out cluster fuel range_with range AdminOperation.count target callback total

  stop-Stops : (total : ℕ) → stop total ≡ true → Stops total
  unfolding is_interrupted
  stop-Stops total e = elim (Option-cases callback) [
    | inl none_given ↦ let no_way : ⊥ = cc in absurd no_way
    | inr (f, given) ↦ (f, given, ground arith)
  ]

  -- A round on a page.
  page_loop_round :
      (n : ℕ) (s : Bytes) (page : List Bytes) (counts : KeyCounts) (w : W)
      → take (suc listing.limit) (from s listing.keys) ≡ page
      → loop (suc n) s counts w
        ≡ page_round out cluster fuel range_with range AdminOperation.count target callback
            (λ s. loop n s)
            page
            counts
            (range s end w).1
  unfolding page_loop
  page_loop_round n s page counts w e =
      let (fine, given) = listing.answered s w in
      let page_given : (range s end w).0.1 ≡ some page = given ∙ ap some e in
      rw (page_loop, fine, page_given) refl

  end_round :
      (next : Bytes → KeyCounts → W → Option (KeyCounts × W)) (counts : KeyCounts) (w : W)
      → page_round out cluster fuel range_with range AdminOperation.count target callback next []
          counts w
        ≡ some (counts, w)
  unfolding page_round
  end_round next counts w = elim (Bool-cases (stop counts.total)) [
    | inl e ↦ rw (page_round, e) refl
    | inr e ↦ rw (page_round, e) refl
  ]

  abbrev with_page : List Bytes → KeyCounts → KeyCounts
  with_page page counts = record counts { total = counts.total + length page }

  next_round :
      (next : Bytes → KeyCounts → W → Option (KeyCounts × W)) (x : Bytes) (l : List Bytes)
      (counts : KeyCounts) (w : W)
      → page_round out cluster fuel range_with range AdminOperation.count target callback next
          (x ∷ l)
          counts
          w
        ≡ (if stop (counts.total + suc (length l))
            then some (with_page (x ∷ l) counts, w)
            else next (last_key x l ++ 0 ∷ []) (with_page (x ∷ l) counts) w)
  unfolding page_round
  next_round next x l counts w = ground arith

  -- The keys that were counted at the end: all, or fewer where the callback asked to stop at them.
  abbrev pub Counted : ℕ → ℕ → Type 0
  Counted total all = (total ≤ all) × ((total ≡ all) ⊎ Stops total)

  -- A page loop of a count ends with the keys that are left counted, or is stopped.
  page_loop-Counted :
      (n : ℕ) (s : Bytes) (counts : KeyCounts) (w : W)
      → length (from s listing.keys) < n
      → (t : ℕ) × (w' : W) × (loop n s counts w ≡ some (record counts { total = t }, w'))
        × Counted t (counts.total + length (from s listing.keys))
  page_loop-Counted zero s counts w h = absurd (omega arith)
  page_loop-Counted (suc n) s counts w h = elim (keys_cases (from s listing.keys)) [
    | inl e ↦ (
      counts.total,
      (range s end w).1,
      page_loop_round n s [] counts w (ap (take (suc listing.limit)) e)
          ∙ end_round _ counts (range s end w).1,
      (omega arith, inl (omega (arith, ap length e))),
    )
    | inr (x, l, e) ↦
        let m = listing.limit in
        let page = x ∷ take m l in
        let sized : length page ≤ suc (length l) = omega (arith, length-take m l) in
        let round =
          page_loop_round n s page counts w (ap (take (suc m)) e)
          ∙ next_round _ x (take m l) counts (range s end w).1 in
        elim (Bool-cases (stop (counts.total + length page))) [
          | inl stopped ↦ (
            counts.total + length page,
            (range s end w).1,
            round ∙ rw stopped refl,
            (omega (arith, sized, ap length e), inr (stop-Stops _ stopped)),
          )
          | inr goes_on ↦
              let left = from_page m s x l listing.keys listing.rising e in
              let (t, w', done, counted) =
                page_loop-Counted n (last_key x (take m l) ++ 0 ∷ []) (with_page page counts)
                  (range s end w).1 (omega (arith, ap length left, ap length e, length-drop m l)) in
              let sum : (with_page page counts).total
                    + length (from (last_key x (take m l) ++ 0 ∷ []) listing.keys)
                  ≡ counts.total + length (from s listing.keys) =
                omega (arith, ap length left, ap length e, length-drop m l, length-take m l) in
              (t, w', round ∙ rw goes_on done, subst (Counted t) sum counted)
        ]
  ]

  -- A count, on a target whose keys lie in the range and are given in rising order page by page, ends
  -- after at most one page more than there are keys. It returns their number, or, where the callback
  -- asked to stop at the number of keys that it was told, that number, which is not greater.
  pub count-keys :
      (id start : Bytes) (pages : ℕ) (w : W)
      → init_range_keys id target ≡ ok (start, end)
      → from start listing.keys ≡ listing.keys
      → length listing.keys < pages
      → (t : ℕ) × (w' : W) × (count out cluster fuel range_with range target callback pages id w
          ≡ some (ok t, w'))
        × Counted t (length listing.keys)
  unfolding count
  count-keys id start pages w e all enough =
      let (t, w', done, counted) = page_loop-Counted pages start no_counts w (rw all enough) in
      let none_before : no_counts.total + length (from start listing.keys) ≡ length listing.keys =
        omega (arith, ap length all) in
      (t, w', rw (count, e, done) refl, subst (Counted t) none_before counted)
