-- ===== src/File/Transfer/Holding.antt =====
-- What a Read of src/FileIo.cc has put into its buffer.
use kineticio.Prelude.{
  ℕ, zero, suc, ◌+◌, ◌-◌, ◌≤◌, ◌<◌, ◌≡◌, refl, ◌∙◌, ap, [], ◌∷◌, ◌++◌, length, take, length-append,
  arith,
}
use kineticio.Str.{Bytes, size_mod}
use kineticio.Words.{size_sub}
use kineticio.File.Flat.{slice, slice_add, slice_cong, take-slice, length-slice}

take_past : (k m : ℕ) (xs ys : Bytes) → length xs ≡ k → take (k + m) (xs ++ ys) ≡ xs ++ take m ys
take_past zero m [] ys h = let e : 0 + m ≡ m = omega arith in rw e
take_past zero m (x ∷ xs) ys h = absurd (omega (arith, h))
take_past (suc k) m [] ys h = absurd (omega (arith, h))
take_past (suc k) m (x ∷ xs) ys h =
    let e : suc k + m ≡ suc (k + m) = omega arith in rw (e, take_past k m xs ys (omega (arith, h)))

take_inside : (k : ℕ) (xs ys : Bytes) → k ≤ length xs → take k (xs ++ ys) ≡ take k xs
take_inside zero xs ys h = refl
take_inside (suc k) [] ys h = absurd (omega arith)
take_inside (suc k) (x ∷ xs) ys h = rw (take_inside k xs ys (omega arith))

-- What is left of a buffer, `todo` bytes of which were not read: the first bytes of the new contents
-- are those of the file.
abbrev pub Holds : ℕ → (ℕ → ℕ) → ℕ → Bytes → ℕ → Type 0
Holds position file room body todo =
    (length body ≡ room)
    × (todo ≤ room)
    × (take (room - todo) body ≡ slice position (room - todo) file)

-- A piece that was read, and what follows.
pub Holds-next :
    (position : ℕ) (file : ℕ → ℕ) (room k : ℕ) (bytes body : Bytes) (todo : ℕ)
    → k ≤ room
    → bytes ≡ slice position k file
    → Holds (position + k) file (room - k) body todo
    → Holds position file room (bytes ++ body) todo
Holds-next position file room k bytes body todo inside content rest =
    let long : length bytes ≡ k = ap length content ∙ length-slice position k file in
    let e : room - todo ≡ k + (room - k - todo) = omega (arith, rest.1) in
    (
      omega (arith, length-append bytes body, long, rest.0),
      omega (arith, rest.1),
      rw e (
          take_past k (room - k - todo) bytes body long
          ∙ rw (content, rest.2) (slice_add position k (room - k - todo) file)),
    )

-- A piece of which the first `n` bytes count, and the rest of the buffer.
pub Holds-last :
    (position : ℕ) (file : ℕ → ℕ) (room k n : ℕ) (bytes rest : Bytes)
    → k + length rest ≡ room
    → room < size_mod
    → n ≤ k
    → bytes ≡ slice position k file
    → Holds position file room (bytes ++ rest) (size_sub room n)
Holds-last position file room k n bytes rest total small few content =
    let long : length bytes ≡ k = ap length content ∙ length-slice position k file in
    let left : size_sub room n ≡ room - n = omega arith in
    let e : room - (room - n) ≡ n = omega (arith, total) in
    (
      omega (arith, length-append bytes rest, long, total),
      rw left (omega arith),
      rw (left, e)
          (take_inside n bytes rest (omega (arith, long))
            ∙ rw content (take-slice n position k file few)),
    )

pub Holds-cong :
    (position : ℕ) (f g : ℕ → ℕ) (room : ℕ) (body : Bytes) (todo : ℕ)
    → ((x : ℕ) → f x ≡ g x)
    → Holds position f room body todo
    → Holds position g room body todo
Holds-cong position f g room body todo same holds =
    (holds.0, holds.1, holds.2 ∙ slice_cong position (room - todo) f g same)
