-- ===== src/File/Flat.antt =====
-- A file as one function from positions to bytes, over the blocks of src/FileIo.cc: the block and
-- the offset of a position, and runs of bytes laid over such a function.
use kineticio.Prelude.{
  true, false, ℕ, zero, suc, ◌+◌, ◌*◌, ◌/◌, ◌%◌, ◌≤◌, ◌<◌, ◌≡◌, refl, ap, sym, ◌∙◌, ◌⊎◌, inl, inr,
  [], ◌∷◌, ◌++◌, length, arith, ◌==◌, if◌then◌else◌, take, drop, length-take, take-append-drop,
}
use kineticio.Str.{Bytes}
use native.Mathlib.Nat.{
  div-add-mod', mod-lt, mul-add-div_right, mul-add-mod_self_right, div-eq_of_lt, mod-eq_of_lt,
  div-lt_iff_lt-mul, le-div_iff_mul-le,
}

-- The bytes from a position on.
abbrev pub overlay : ℕ → Bytes → (ℕ → ℕ) → ℕ → ℕ
overlay position [] f x = f x
overlay position (b ∷ bs) f x = if x == position then b else overlay (position + 1) bs f x

-- So many bytes of a function from a position on.
abbrev pub slice : ℕ → ℕ → (ℕ → ℕ) → Bytes
slice position zero f = []
slice position (suc n) f = f position ∷ slice (position + 1) n f

-- The byte at a position, of the bytes at a block and an offset.
abbrev pub flat : ℕ → (ℕ → ℕ → ℕ) → ℕ → ℕ
flat capacity byte x = byte (x / capacity) (x % capacity)

same_number : (x y : ℕ) → (x ≡ y) ⊎ ((x < y) ⊎ (y < x))
same_number x y = omega arith

other_number : (x y : ℕ) → ((x < y) ⊎ (y < x)) → (x == y) ≡ false
other_number x y h = ground arith

pub overlay_outside :
    (position : ℕ) (bs : Bytes) (f : ℕ → ℕ) (x : ℕ)
    → (x < position) ⊎ (position + length bs ≤ x)
    → overlay position bs f x ≡ f x
overlay_outside position [] f x h = refl
overlay_outside position (b ∷ bs) f x (inl h) =
    ground (arith, overlay_outside (position + 1) bs f x (inl (omega arith)))
overlay_outside position (b ∷ bs) f x (inr h) =
    ground (arith, overlay_outside (position + 1) bs f x (inr (omega arith)))

pub overlay_cong :
    (position : ℕ) (bs : Bytes) (f g : ℕ → ℕ) (x : ℕ)
    → f x ≡ g x
    → overlay position bs f x ≡ overlay position bs g x
overlay_cong position [] f g x h = h
overlay_cong position (b ∷ bs) f g x h = rw (overlay_cong (position + 1) bs f g x h)

-- A run of bytes after another.
pub overlay-append :
    (position : ℕ) (front bs : Bytes) (f : ℕ → ℕ) (x : ℕ)
    → overlay (position + length front) bs (overlay position front f) x
      ≡ overlay position (front ++ bs) f x
overlay-append position [] bs f x = let e : position + 0 ≡ position = omega arith in rw e
overlay-append position (b ∷ front) bs f x =
    let over = overlay position (b ∷ front) f in
    let e : position + suc (length front) ≡ position + 1 + length front = omega arith in
    elim (same_number x position) [
      | inl same ↦
          let outside =
            overlay_outside (position + suc (length front)) bs over x (inl (omega (arith, same))) in
          ground (arith, same, outside)
      | inr apart ↦
          let cong =
            overlay_cong (position + 1 + length front) bs over (overlay (position + 1) front f) x
              (rw (other_number x position apart)) in
          let rest = overlay-append (position + 1) front bs f x in
          rw (e, other_number x position apart) (cong ∙ rest)
    ]

pub overlay-take-drop :
    (position k : ℕ) (bs : Bytes) (f : ℕ → ℕ) (x : ℕ)
    → k ≤ length bs
    → overlay (position + k) (drop k bs) (overlay position (take k bs) f) x
      ≡ overlay position bs f x
overlay-take-drop position k bs f x inside =
    let taken : length (take k bs) ≡ k = omega (arith, length-take k bs) in
    ap (λ l. overlay (position + l) (drop k bs) (overlay position (take k bs) f) x) (sym taken)
    ∙ overlay-append position (take k bs) (drop k bs) f x
    ∙ ap (λ l. overlay position l f x) (take-append-drop k bs)

-- The run moves with the function.
pub overlay_shift :
    (c position : ℕ) (bs : Bytes) (f : ℕ → ℕ) (y : ℕ)
    → overlay (c + position) bs f (c + y) ≡ overlay position bs (λ z. f (c + z)) y
overlay_shift c position [] f y = refl
overlay_shift c position (b ∷ bs) f y =
    let e : c + (position + 1) ≡ c + position + 1 = omega arith in
    ground (arith, e, overlay_shift c (position + 1) bs f y)

pub slice_cong :
    (position n : ℕ) (f g : ℕ → ℕ) → ((x : ℕ) → f x ≡ g x) → slice position n f ≡ slice position n g
slice_cong position zero f g h = refl
slice_cong position (suc n) f g h = rw (h position, slice_cong (position + 1) n f g h)

pub length-slice : (position n : ℕ) (f : ℕ → ℕ) → length (slice position n f) ≡ n
length-slice position zero f = refl
length-slice position (suc n) f = ap suc (length-slice (position + 1) n f)

pub slice_add :
    (position m n : ℕ) (f : ℕ → ℕ)
    → slice position m f ++ slice (position + m) n f ≡ slice position (m + n) f
slice_add position zero n f =
    let e : position + 0 ≡ position = omega arith in let z : 0 + n ≡ n = omega arith in rw (e, z)
slice_add position (suc m) n f =
    let e : position + suc m ≡ position + 1 + m = omega arith in
    let z : suc m + n ≡ suc (m + n) = omega arith in rw (e, z, slice_add (position + 1) m n f)

pub take-slice :
    (k position n : ℕ) (f : ℕ → ℕ) → k ≤ n → take k (slice position n f) ≡ slice position k f
take-slice zero position n f h = refl
take-slice (suc k) position zero f h = absurd (omega arith)
take-slice (suc k) position (suc n) f h = rw (take-slice k (position + 1) n f (omega arith))

-- Where a position inside a block lies in the file.
pub divide :
    (capacity n y : ℕ)
    → y < capacity
    → (((n * capacity + y) / capacity) ≡ n) × (((n * capacity + y) % capacity) ≡ y)
divide capacity n y h =
    let some_byte : 0 < capacity = omega arith in
    let e : n + 0 ≡ n = omega arith in
    (
      mul-add-div_right some_byte n y ∙ ap (◌+◌ n) (div-eq_of_lt h) ∙ e,
      mul-add-mod_self_right n capacity y ∙ mod-eq_of_lt h,
    )

pub slice-flat :
    (capacity : ℕ) (byte : ℕ → ℕ → ℕ) (n offset k : ℕ)
    → offset + k ≤ capacity
    → slice (n * capacity + offset) k (flat capacity byte) ≡ slice offset k (byte n)
slice-flat capacity byte n offset zero h = refl
slice-flat capacity byte n offset (suc k) h =
    let d = divide capacity n offset (omega arith) in
    let e : n * capacity + offset + 1 ≡ n * capacity + (offset + 1) = omega arith in
    rw (d.0, d.1, e, slice-flat capacity byte n (offset + 1) k (omega arith))

overlay-inside :
    (capacity : ℕ) (byte : ℕ → ℕ → ℕ) (n offset r : ℕ) (bs : Bytes)
    → r < capacity
    → overlay offset bs (byte n) r
      ≡ overlay (n * capacity + offset) bs (flat capacity byte) (n * capacity + r)
overlay-inside capacity byte n offset r bs h =
    let d = divide capacity n r h in
    sym (
      overlay_shift (n * capacity) offset bs (flat capacity byte) r
      ∙ overlay_cong offset bs (λ z. flat capacity byte (n * capacity + z)) (byte n) r
          (rw (d.0, d.1)))

-- A position whose block is another one.
block_apart :
    (capacity n x : ℕ)
    → 0 < capacity
    → (x / capacity < n) ⊎ (n < x / capacity)
    → (x < n * capacity) ⊎ (n * capacity + capacity ≤ x)
block_apart capacity n x some_byte (inl h) = inl ((div-lt_iff_lt-mul some_byte).0 h)
block_apart capacity n x some_byte (inr h) = inr (omega (arith, (le-div_iff_mul-le some_byte).0 h))

-- Bytes over one block, and over the file.
pub overlay-flat :
    (capacity : ℕ) (byte byte' : ℕ → ℕ → ℕ) (n offset : ℕ) (bs : Bytes)
    → 0 < capacity
    → offset + length bs ≤ capacity
    → ((k y : ℕ) → byte' k y ≡ (if k == n then overlay offset bs (byte n) y else byte k y))
    → (x : ℕ) → flat capacity byte' x ≡ overlay (n * capacity + offset) bs (flat capacity byte) x
overlay-flat capacity byte byte' n offset bs some_byte fits h x =
    elim (same_number (x / capacity) n) [
      | inl same ↦
          let e : n * capacity + x % capacity ≡ x =
            ap (λ q. q * capacity + x % capacity) (sym same) ∙ div-add-mod' x capacity in
          let here : (x / capacity == n) ≡ true = ground (arith, same) in
          let inside =
            overlay-inside capacity byte n offset (x % capacity) bs (mod-lt x some_byte) in
          h (x / capacity) (x % capacity)
          ∙ rw here (inside ∙ ap (overlay (n * capacity + offset) bs (flat capacity byte)) e)
      | inr apart ↦
          let away =
            elim (block_apart capacity n x some_byte apart)
              as (λ _. (x < n * capacity + offset) ⊎ (n * capacity + offset + length bs ≤ x)) [
                | inl below ↦ inl (omega (arith, below))
                | inr above ↦ inr (omega (arith, above))
              ] in
          h (x / capacity) (x % capacity)
          ∙ rw (other_number (x / capacity) n apart)
              (sym (overlay_outside (n * capacity + offset) bs (flat capacity byte) x away))
    ]
