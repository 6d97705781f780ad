-- ===== src/Words.antt =====
-- The machine integers of the sources. An `int` is its bit pattern, a number below 2 ^ 32, and a
-- `size_t` a number below 2 ^ 64.
use kineticio.Prelude.{ℕ, ◌+◌, ◌-◌, ◌*◌, ◌%◌, ◌<◌, ◌≡◌, Bool, ltb, if◌then◌else◌, arith}
use kineticio.Str.{size_mod}

abbrev pub int_mod : ℕ
int_mod = 4_294_967_296

-- The number of values that are not negative.
abbrev pub int_half : ℕ
int_half = 2_147_483_648

-- `std::numeric_limits<int>::max()`
abbrev pub int_max : ℕ
int_max = 2_147_483_647

-- `static_cast<int>` of a size_t
abbrev pub to_int : ℕ → ℕ
to_int a = a % int_mod

-- The conversion of an int to size_t extends the sign.
abbrev pub to_size : ℕ → ℕ
to_size a = if ltb a int_half then a else a + (size_mod - int_mod)

-- `a < b` of two ints
abbrev pub int_lt : ℕ → ℕ → Bool
int_lt a b = ltb ((a + int_half) % int_mod) ((b + int_half) % int_mod)

-- `a - b` of two ints
abbrev pub int_sub : ℕ → ℕ → ℕ
int_sub a b = (a + (int_mod - b)) % int_mod

-- `a * b` and `a - b` of two size_t
abbrev pub size_mul : ℕ → ℕ → ℕ
size_mul a b = a * b % size_mod

abbrev pub size_sub : ℕ → ℕ → ℕ
size_sub a b = (a + (size_mod - b)) % size_mod

-- Ints that are not negative are compared as numbers.
pub int_lt_small : (a b : ℕ) → a < int_half → b < int_half → int_lt a b ≡ ltb a b
int_lt_small a b h k = ground arith
