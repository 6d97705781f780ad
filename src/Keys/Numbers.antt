-- ===== src/Keys/Numbers.antt =====
-- Numbers in keys and versions (src/Utility.cc: makeDataKey, uuidGenerateEncodeSize, uuidDecodeSize;
-- include/Utility.hh: Convert::toInt; src/FileIo.cc: the block number of a key).
pub mod Decimal
use kineticio.Prelude.{
  ℕ, zero, suc, ◌+◌, ◌-◌, ◌*◌, ◌/◌, ◌%◌, Bool, true, false, ◌&&◌, ◌||◌, List, [], ◌∷◌, ◌++◌, length,
  replicate, ltb, leb, ◌==◌, if◌then◌else◌, Option, none, some, Result, ok, throw, invalid_argument,
  out_of_range, ◌>>=◌,
}
use kineticio.Str.{Bytes, substr}
use kineticio.Words.{int_max, int_half, int_mod}
use kineticio.Keys.{colon}

-- The last `k` decimal digits.
unfoldable pub digits : ℕ → ℕ → Bytes
digits zero n = []
digits (suc k) n = digits k (n / 10) ++ (48 + n % 10) ∷ []

-- The number of digits of a size_t above ten of them.
unfoldable pub count_digits : ℕ → ℕ → ℕ
count_digits zero n = 0
count_digits (suc fuel) n = elim (ltb n 10) [ true ↦ 1 | false ↦ suc (count_digits fuel (n / 10)) ]

-- `std::setw(10) << std::setfill('0') << n`; 20 digits hold every size_t.
unfoldable pub padded : ℕ → Bytes
unfolding digits count_digits
padded n = if ltb n 10_000_000_000 then digits 10 n else digits (count_digits 20 n) n

abbrev pub is_digit : ℕ → Bool
is_digit c = leb 48 c && leb c 57

-- The value of the digits that a text begins with, after `n`.
unfoldable pub value_from : ℕ → Bytes → ℕ
value_from n [] = n
value_from n (c ∷ s) = let rest = value_from (n * 10 + (c - 48)) s in if is_digit c then rest else n

-- Convert::toInt of a text of digits: a stream sets the greatest int if the number is greater.
unfoldable pub text_to_int : Bytes → ℕ
unfolding value_from
text_to_int s = let n = value_from 0 s in if ltb int_max n then int_max else n

-- std::stoi of a text without sign or white space
unfoldable pub stoi : Bytes → Result ℕ
unfolding value_from
stoi [] = throw invalid_argument
stoi (c ∷ s) =
    let n = value_from 0 (c ∷ s) in
    if is_digit c
    then (if ltb int_max n then throw out_of_range else ok n)
    else throw invalid_argument

-- uuidGenerateEncodeSize, with the text of the new uuid
unfoldable pub uuid_encode_size : ℕ → Bytes → Bytes
unfolding padded
uuid_encode_size size uuid = padded size ++ uuid

-- uuidDecodeSize
unfoldable pub uuid_decode_size : Option Bytes → Result ℕ
unfolding text_to_int substr
uuid_decode_size none = throw invalid_argument
uuid_decode_size (some uuid) =
    if length uuid == 46 || length uuid == 26
    then (substr 0 10 uuid >>= λ size. ok (text_to_int size))
    else throw invalid_argument

-- "data"
abbrev pub data_text : Bytes
data_text = 100 ∷ 97 ∷ 116 ∷ 97 ∷ []

abbrev pub underscore : ℕ
underscore = 95

abbrev pub minus : ℕ
minus = 45

-- The padding of a block number, an int: to the left of the sign, if it has one.
unfoldable pub padded_int : ℕ → Bytes
unfolding padded digits count_digits
padded_int n =
    if ltb n int_half
    then padded n
    else let m = int_mod - n in
      let k = count_digits 20 m in replicate (9 - k) 48 ++ (minus ∷ digits k m)

-- What follows the last character `c`, or `found` if there is none.
unfoldable pub after_last : ℕ → Bytes → Bytes → Bytes
after_last c found [] = found
after_last c found (x ∷ s) = after_last c (if x == c then s else found) s

-- The block number at the end of a data key (get_eof_backend).
unfoldable pub block_number_of : Bytes → Result ℕ
unfolding after_last stoi
block_number_of key = stoi (after_last underscore key key)

-- makeDataKey
unfoldable pub make_data_key : Bytes → Bytes → ℕ → Bytes
unfolding padded_int
make_data_key cluster_id base block_number =
    cluster_id
    ++ (colon ∷ (data_text ++ (colon ∷ (base ++ (underscore ∷ padded_int block_number)))))
