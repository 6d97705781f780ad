-- ===== src/File/Transfer/Pieces.antt =====
-- How ReadWrite of src/FileIo.cc cuts a transfer at the borders of the blocks.
use kineticio.Prelude.{ℕ, ◌+◌, ◌*◌, ◌/◌, ◌%◌, ◌≤◌, ◌<◌, ◌≡◌, true, ltb, ◌⊎◌, arith}
use kineticio.Str.{Bytes, size_mod}
use kineticio.Words.{to_int, to_size, int_half, size_mul, size_sub}
use kineticio.File.Services.{Services}
use kineticio.File.Transfer.{Piece, locate}
use native.Mathlib.Nat.{div-add-mod', mod-lt, mod-eq_of_lt, div-lt_iff_lt-mul}

-- A range of the file whose block numbers are ints and whose positions are size_t.
abbrev pub IsInRange : ℕ → ℕ → ℕ → Type 0
IsInRange capacity position todo =
    (0 < capacity)
    × (capacity < size_mod)
    × (position + todo ≤ capacity * int_half)
    × (position + todo < size_mod)

-- A piece starts at the position, is not empty, lies in its block and in the range, and ends at the
-- end of one of them.
abbrev pub IsPiece : ℕ → ℕ → ℕ → Piece → Type 0
IsPiece capacity position todo p =
    (p.block_number < int_half)
    × (p.block_number * capacity + p.block_offset ≡ position)
    × (0 < p.block_length)
    × (p.block_length ≤ todo)
    × (p.block_offset + p.block_length ≤ capacity)
    × ((p.block_length ≡ todo) ⊎ (p.block_offset + p.block_length ≡ capacity))

-- The size_t arithmetic of a piece, where nothing wraps.
piece_arithmetic :
    (capacity position q r : ℕ)
    → q * capacity + r ≡ position
    → r < capacity
    → capacity < size_mod
    → position < size_mod
    → q < int_half
    → (to_int q ≡ q)
      × (size_sub position (size_mul (to_size (to_int q)) capacity) ≡ r)
      × (size_sub capacity r + r ≡ capacity)
piece_arithmetic capacity position q r e h k l m =
    let a : to_int q ≡ q = mod-eq_of_lt (omega arith) in
    let b : ltb q int_half ≡ true = ground arith in
    let c : q * capacity % size_mod ≡ q * capacity = mod-eq_of_lt (omega (arith, e)) in
    (a, rw (a, b, c) (omega (arith, e)), omega arith)

-- In the range of int block numbers and size_t positions, a round of a transfer with something
-- left gets a piece that begins at the position, is not empty, lies in its block and in what is
-- left, and ends at the end of one of them.
pub locate-IsPiece :
    {W : Type 0} (services : Services W) (path : Bytes) (position todo : ℕ)
    → 0 < todo
    → IsInRange services.max_value_size position todo
    → IsPiece services.max_value_size position todo (locate services path position todo)
unfolding locate
locate-IsPiece services path position todo some_left range =
    let capacity = services.max_value_size in
    let q = position / capacity in
    let r = position % capacity in
    let split : q * capacity + r ≡ position = div-add-mod' position capacity in
    let small : q < int_half = (div-lt_iff_lt-mul range.0).1 (omega (arith, range.2)) in
    let a =
      piece_arithmetic capacity position q r split (mod-lt position range.0) range.1
        (omega (arith, range.3)) small in
    let left : size_sub capacity r + r ≡ capacity = a.2 in
    let room : r < capacity = mod-lt position range.0 in
    rw (a.1, a.0)
      (
        small,
        split,
        omega (arith, room, left),
        omega arith,
        omega (arith, left),
        omega (arith, left),
      )
