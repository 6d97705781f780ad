-- ===== src/Handoff/Numbered.antt =====
-- A read finds the chunk that a write handed to another drive (src/KineticClusterStripeOperation.cc:
-- putHandoffKeys, insertHandoffChunks).
use kineticio.Prelude.{
  ℕ, zero, suc, ◌/◌, ◌≤◌, ◌<◌, ◌≡◌, ap, sym, ◌∙◌, [], ◌∷◌, ◌++◌, set, arith, append_assoc, ltb,
  Bool-cases, inl, inr, List, Bool, Option,
}
use kineticio.Str.{Bytes}
use kineticio.Words.{int_max}
use kineticio.Keys.Numbers.{digits, count_digits, text_to_int, value_from, after_last}
use kineticio.Keys.Numbers.Decimal.{
  power, Digits, Digits-digits, value_from-digits, Lacks, after_last-append,
}
use kineticio.Kinetic.{StatusCode}
use kineticio.Redundancy.{RedundancyProvider}
use kineticio.Stripe.{KineticRecord}
use kineticio.Operation.{Delivery}
use kineticio.Get.{ReadRequest, Reads, fill_read, insert_keys, handoff_key, equals}
use kineticio.Handoff.{handoff_name, number_text}

lt_power : (fuel n : ℕ) → n < power fuel → n < power (count_digits fuel n)
unfolding count_digits
lt_power zero n h = h
lt_power (suc fuel) n h = elim (Bool-cases (ltb n 10)) [
  | inl small ↦ rw (small, count_digits) (ground arith)
  | inr large ↦ rw (large, count_digits) (omega (arith, lt_power fuel (n / 10) (omega arith)))
]

Digits-Lacks : (s : Bytes) → Digits s → Lacks equals s
Digits-Lacks [] h = tt
Digits-Lacks (c ∷ s) (e, h) = (ground arith, Digits-Lacks s h)

text_to_int-number_text : (n : ℕ) → n ≤ int_max → text_to_int (number_text n) ≡ n
unfolding text_to_int number_text
text_to_int-number_text n h =
    let e : value_from 0 (digits (count_digits 20 n) n) ≡ n =
      value_from-digits (count_digits 20 n) n (lt_power 20 n (omega arith)) in
    rw (text_to_int, e) (ground arith)

-- The text before the last "=" of the name.
abbrev before : Bytes → Bytes → Bytes
before key version = handoff_key key version ++ (99 ∷ 104 ∷ 117 ∷ 110 ∷ 107 ∷ [])

handoff_name_lem :
    (key version : Bytes) (n : ℕ)
    → handoff_name key version n ≡ before key version ++ (equals ∷ number_text n)
unfolding handoff_name
handoff_name_lem key version n = sym (
    append_assoc (handoff_key key version) (99 ∷ 104 ∷ 117 ∷ 110 ∷ 107 ∷ [])
      (equals ∷ number_text n))

number_of-handoff_name :
    (key version : Bytes) (n : ℕ)
    → n ≤ int_max
    → text_to_int (after_last equals (handoff_name key version n) (handoff_name key version n)) ≡ n
unfolding number_text
number_of-handoff_name key version n h =
    ap (λ (k : Bytes). text_to_int (after_last equals k k)) (handoff_name_lem key version n)
    ∙ ap text_to_int (
        after_last-append equals (before key version ++ (equals ∷ number_text n))
          (before key version) (number_text n)
          (Digits-Lacks (number_text n) (Digits-digits (count_digits 20 n) n)))
    ∙ text_to_int-number_text n h

module _ {W : Type 0} (send : ℕ → ReadRequest → W → Delivery (Option KineticRecord) × W)
    (range_all : Bytes → Bytes → ℕ → W → List (Option (List Bytes)) × W) (ordinal : StatusCode → ℕ)
    (crc : Bytes → ℕ) (rp : RedundancyProvider) (key : Bytes) (hash connections : ℕ)
    (skip_value : Bool) where
  -- A key that a write made for the chunk it handed to another drive makes a read ask the connection
  -- that has the key, in place of the drive of that very chunk, and changes no other operation.
  pub insert_keys-handoff_name :
      (connection opnum : ℕ) (version : Bytes) (ops : Reads)
      → opnum ≤ int_max
      → insert_keys send range_all ordinal crc rp key hash connections skip_value connection
          (handoff_name key version opnum ∷ [])
          ops
        ≡ set ops opnum (fill_read connection (handoff_name key version opnum))
  unfolding insert_keys
  insert_keys-handoff_name connection n version ops h =
      let name = handoff_name key version n in
      ap (λ (i : ℕ). set ops i (fill_read connection name)) (number_of-handoff_name key version n h)
