-- ===== src/Keys/Numbers/Decimal.antt =====
-- Numbers are read back from the keys and versions that hold them (src/Utility.cc, src/FileIo.cc).
use kineticio.Prelude.{
  ℕ, zero, suc, ◌+◌, ◌-◌, ◌*◌, ◌/◌, ◌%◌, ◌≤◌, ◌<◌, ◌≡◌, refl, ap, sym, ◌∙◌, true, false, [], ◌∷◌,
  ◌++◌, some, length, take, length-append, ◌==◌, if◌then◌else◌, ok, arith, append_assoc, min,
  ==_refl,
}
use kineticio.Str.{Bytes}
use kineticio.Words.{int_max}
use kineticio.Keys.{colon}
use kineticio.Keys.Numbers.{
  digits, padded, padded_int, is_digit, value_from, text_to_int, stoi, uuid_encode_size,
  uuid_decode_size, underscore, after_last, block_number_of, make_data_key, data_text,
}

abbrev pub power : ℕ → ℕ
power zero = 1
power (suc k) = power k * 10

abbrev pub Digits : Bytes → Type 0
Digits [] = Unit {0}
Digits (c ∷ s) = (is_digit c ≡ true) × Digits s

length-digits : (k n : ℕ) → length (digits k n) ≡ k
unfolding digits
length-digits zero n = refl
length-digits (suc k) n =
    omega (arith, length-append (digits k (n / 10)) ((48 + n % 10) ∷ []), length-digits k (n / 10))

is_digit_lem : (d : ℕ) → d < 10 → is_digit (48 + d) ≡ true
is_digit_lem d h = ground arith

Digits-append : (s t : Bytes) → Digits s → Digits t → Digits (s ++ t)
Digits-append [] t h k = k
Digits-append (c ∷ s) t (e, h) k = (e, Digits-append s t h k)

pub Digits-digits : (k n : ℕ) → Digits (digits k n)
unfolding digits
Digits-digits zero n = tt
Digits-digits (suc k) n =
    Digits-append (digits k (n / 10)) ((48 + n % 10) ∷ []) (Digits-digits k (n / 10))
      (is_digit_lem (n % 10) (omega arith), tt)

value_from-append :
    (a : ℕ) (s t : Bytes) → Digits s → value_from a (s ++ t) ≡ value_from (value_from a s) t
unfolding value_from
value_from-append a [] t h = refl
value_from-append a (c ∷ s) t (e, h) = rw e (value_from-append (a * 10 + (c - 48)) s t h)

pub value_from-digits : (k n : ℕ) → n < power k → value_from 0 (digits k n) ≡ n
unfolding digits value_from
value_from-digits zero n h = omega arith
value_from-digits (suc k) n h =
    let d = n % 10 in
    let e : value_from 0 (digits k (n / 10)) ≡ n / 10 =
      value_from-digits k (n / 10) (omega arith) in
    value_from-append 0 (digits k (n / 10)) ((48 + d) ∷ []) (Digits-digits k (n / 10))
    ∙ rw (e, is_digit_lem d (omega arith)) (omega arith)

padded_lem : (n : ℕ) → n < 10_000_000_000 → padded n ≡ digits 10 n
unfolding padded
padded_lem n h = ground arith

take_exact : (s t : Bytes) (k : ℕ) → length s ≡ k → take k (s ++ t) ≡ s
take_exact [] t zero h = refl
take_exact [] t (suc k) h = absurd (omega arith)
take_exact (x ∷ s) t zero h = absurd (omega arith)
take_exact (x ∷ s) t (suc k) h = ap (◌∷◌ x) (take_exact s t k (omega arith))

uuid_encode_size_lem :
    (size : ℕ) (uuid : Bytes)
    → size < 10_000_000_000
    → uuid_encode_size size uuid ≡ digits 10 size ++ uuid
unfolding uuid_encode_size
uuid_encode_size_lem size uuid h = ap (λ (s : Bytes). s ++ uuid) (padded_lem size h)

text_to_int-digits : (n : ℕ) → n < 10_000_000_000 → text_to_int (digits 10 n) ≡ min n int_max
unfolding text_to_int
text_to_int-digits n h = ground (arith, value_from-digits 10 n)

decode_text :
    (s t : Bytes)
    → length s ≡ 10
    → length t ≡ 36
    → uuid_decode_size (some (s ++ t)) ≡ ok (text_to_int s)
unfolding uuid_decode_size
decode_text s t h k =
    let all : length (s ++ t) ≡ 46 = omega (arith, length-append s t) in
    rw (uuid_decode_size, all, take_exact s t 10 h) refl

-- A size of at most ten digits, encoded before a uuid of 36 characters, is decoded as itself, or
-- as the greatest int where it is greater.
pub uuid_decode_size-uuid_encode_size :
    (size : ℕ) (uuid : Bytes)
    → size < 10_000_000_000
    → length uuid ≡ 36
    → uuid_decode_size (some (uuid_encode_size size uuid)) ≡ ok (min size int_max)
uuid_decode_size-uuid_encode_size size uuid h k =
    ap (λ (s : Bytes). uuid_decode_size (some s)) (uuid_encode_size_lem size uuid h)
    ∙ decode_text (digits 10 size) uuid (length-digits 10 size) k
    ∙ ap ok (text_to_int-digits size h)

-- No character of the text is the one given.
abbrev pub Lacks : ℕ → Bytes → Type 0
Lacks c [] = Unit {0}
Lacks c (x ∷ s) = ((x == c) ≡ false) × Lacks c s

after_last-Lacks : (c : ℕ) (found s : Bytes) → Lacks c s → after_last c found s ≡ found
unfolding after_last
after_last-Lacks c found [] h = refl
after_last-Lacks c found (x ∷ s) (e, h) = rw e (after_last-Lacks c found s h)

pub after_last-append :
    (c : ℕ) (found s t : Bytes) → Lacks c t → after_last c found (s ++ (c ∷ t)) ≡ t
unfolding after_last
after_last-append c found [] t h = rw (after_last, ==_refl c) (after_last-Lacks c t t h)
after_last-append c found (x ∷ s) t h =
    after_last-append c (if x == c then s ++ (c ∷ t) else found) s t h

Digits-Lacks : (s : Bytes) → Digits s → Lacks underscore s
Digits-Lacks [] h = tt
Digits-Lacks (c ∷ s) (e, h) = (ground arith, Digits-Lacks s h)

stoi-digits : (n : ℕ) → n ≤ int_max → stoi (digits 10 n) ≡ ok n
unfolding stoi
stoi-digits n h =
    by_text (digits 10 n) (length-digits 10 n) (Digits-digits 10 n)
      (value_from-digits 10 n (omega arith))
  where
    by_text : (s : Bytes) → length s ≡ 10 → Digits s → value_from 0 s ≡ n → stoi s ≡ ok n
    by_text [] l d e = absurd (omega arith)
    by_text (c ∷ s) l (e, d) v = rw (stoi, v, e) (ground arith)

-- The search for the last block reads a block number that is not negative back from its data key.
pub block_number_of-make_data_key :
    (cluster_id base : Bytes) (block_number : ℕ)
    → block_number ≤ int_max
    → block_number_of (make_data_key cluster_id base block_number) ≡ ok block_number
unfolding block_number_of make_data_key padded_int
block_number_of-make_data_key cluster_id base n h =
    let head = cluster_id ++ (colon ∷ (data_text ++ (colon ∷ base))) in
    let number : padded_int n ≡ digits 10 n = ground (arith, padded_lem n) in
    let key : make_data_key cluster_id base n ≡ head ++ (underscore ∷ digits 10 n) = rw number (
      sym (
        append_assoc cluster_id (colon ∷ (data_text ++ (colon ∷ base)))
          (underscore ∷ digits 10 n))) in
    ap stoi (
      ap (λ (k : Bytes). after_last underscore k k) key
      ∙ after_last-append underscore (head ++ (underscore ∷ digits 10 n)) head (digits 10 n)
          (Digits-Lacks (digits 10 n) (Digits-digits 10 n)))
    ∙ stoi-digits n h
