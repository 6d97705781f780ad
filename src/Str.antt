-- ===== src/Str.antt =====
-- The members of `std::string` that the sources use, over lists of bytes, with the exceptions of the
-- standard. A size is a `size_t`: sums wrap at 2 ^ 64.
use kineticio.Prelude.{
  ℕ, ◌+◌, ◌-◌, ◌%◌, ◌≤◌, ◌<◌, min, ◌≡◌, refl, ◌∙◌, List, ◌++◌, arith, length, take, drop, replicate,
  length-append, length-take, length-drop, length-replicate, get_elem?, get_elem?-append_left,
  get_elem?-append_right, get_elem?-take, get_elem?-drop, ltb, if◌then◌else◌, Result, ok, throw,
  out_of_range,
}

abbrev pub Bytes : Type 0
Bytes = List ℕ

abbrev pub size_mod : ℕ
size_mod = 18_446_744_073_709_551_616

-- The sum of two `size_t`.
abbrev pub size_add : ℕ → ℕ → ℕ
size_add a b = (a + b) % size_mod

-- `s.resize(n, c)`
unfoldable pub resize : ℕ → ℕ → Bytes → Bytes
resize n c s = take n s ++ replicate (n - length s) c

-- `s.substr(pos, n)`, also `s.copy(buffer, n, pos)`: at most `n` bytes from `pos`.
unfoldable pub substr : ℕ → ℕ → Bytes → Result Bytes
substr pos n s = if ltb (length s) pos then throw out_of_range else ok (take n (drop pos s))

-- `s.replace(pos, n, t)`: `t` in place of the at most `n` bytes from `pos`.
unfoldable pub replace : ℕ → ℕ → Bytes → Bytes → Result Bytes
replace pos n t s =
    if ltb (length s) pos
    then throw out_of_range
    else ok (take pos s ++ (t ++ drop (min n (length s - pos)) (drop pos s)))

pub length-resize : (n c : ℕ) (s : Bytes) → length (resize n c s) ≡ n
unfolding resize
length-resize n c s = omega (
  arith,
  length-append (take n s) (replicate (n - length s) c),
  length-take n s,
  length-replicate (n - length s) c,
)

pub get_elem?-resize :
    (n c : ℕ) (s : Bytes) (i : ℕ)
    → i < n
    → i < length s
    → get_elem? (resize n c s) i ≡ get_elem? s i
unfolding resize
get_elem?-resize n c s i h k =
    get_elem?-append_left (take n s) _ i (omega (arith, length-take n s)) ∙ get_elem?-take n i s h

-- A copy of `t` over the bytes from `pos`, all inside `s`.
abbrev pub overwrite : ℕ → Bytes → Bytes → Bytes
overwrite pos t s = take pos s ++ (t ++ drop (length t) (drop pos s))

pub replace-overwrite :
    (pos : ℕ) (t s : Bytes)
    → pos + length t ≤ length s
    → replace pos (length t) t s ≡ ok (overwrite pos t s)
unfolding replace
replace-overwrite pos t s h =
    let e : min (length t) (length s - pos) ≡ length t = omega arith in rw e (ground arith)

pub length-overwrite :
    (pos : ℕ) (t s : Bytes) → pos + length t ≤ length s → length (overwrite pos t s) ≡ length s
length-overwrite pos t s h = omega (
  arith,
  length-append (take pos s) (t ++ drop (length t) (drop pos s)),
  length-append t (drop (length t) (drop pos s)),
  length-take pos s,
  length-drop pos s,
  length-drop (length t) (drop pos s),
)

module _ (pos : ℕ) (t s : Bytes) (fits : pos + length t ≤ length s) where
  taken : length (take pos s) ≡ pos
  taken = omega (arith, length-take pos s)

  -- Below the copy nothing changes,
  pub get_elem?-overwrite_below :
      (i : ℕ) → i < pos → get_elem? (overwrite pos t s) i ≡ get_elem? s i
  get_elem?-overwrite_below i h =
      get_elem?-append_left (take pos s) _ i (omega (arith, taken)) ∙ get_elem?-take pos i s h

  -- inside it stands the new text,
  pub get_elem?-overwrite_inside :
      (i : ℕ) → i < length t → get_elem? (overwrite pos t s) (pos + i) ≡ get_elem? t i
  get_elem?-overwrite_inside i h =
      let e : pos + i - length (take pos s) ≡ i = omega (arith, taken) in
      get_elem?-append_right (take pos s) _ (pos + i) (omega (arith, taken))
      ∙ rw e (get_elem?-append_left t _ i h)

  -- and above it nothing changes.
  pub get_elem?-overwrite_above :
      (i : ℕ) → pos + length t ≤ i → get_elem? (overwrite pos t s) i ≡ get_elem? s i
  get_elem?-overwrite_above i h =
      let e : i - length (take pos s) ≡ i - pos = omega (arith, taken) in
      let f : pos + (length t + (i - pos - length t)) ≡ i = omega arith in
      get_elem?-append_right (take pos s) _ i (omega (arith, taken))
      ∙ rw e (
          get_elem?-append_right t (drop (length t) (drop pos s)) (i - pos) (omega arith)
          ∙ get_elem?-drop (length t) (i - pos - length t) (drop pos s)
          ∙ get_elem?-drop pos (length t + (i - pos - length t)) s
          ∙ rw f refl)
