-- ===== src/Get/Whole.antt =====
-- The round trip of a whole value over the drives: valueToStripe of src/KineticCluster.cc, the
-- version of src/Utility.cc, and an attempt of StripeOperation_GET::execute.
use kineticio.Prelude.{
  ℕ, suc, ◌+◌, ◌*◌, ◌≤◌, ◌<◌, ◌≡◌, refl, ◌∙◌, ap, sym, Bool, true, false, List, [], ◌∷◌, map,
  Option, some, length, Result, ok, arith, bytes_eq_refl,
}
use kineticio.Str.{Bytes}
use kineticio.Words.{int_max}
use kineticio.Kinetic.{StatusCode, status_ok, is_ok}
use kineticio.Keys.Numbers.{uuid_encode_size, uuid_decode_size}
use kineticio.Keys.Numbers.Decimal.{uuid_decode_size-uuid_encode_size}
use kineticio.Quorum.{rank, version_equal, frequency_of}
use kineticio.Redundancy.{RedundancyProvider, size}
use kineticio.Redundancy.Damage.{errors}
use kineticio.Redundancy.Recovery.{IsErasureCode}
use kineticio.Stripe.{KineticRecord, make_record, value_to_stripe}
use kineticio.Stripe.RoundTrip.{Served}
use kineticio.Stripe.Whole.{reconstruct_value-value_to_stripe}
use kineticio.Operation.{Delivery, execute_vector}
use kineticio.Operation.Clock.{length-map}
use kineticio.Get.{ReadRequest, Reads, Get, records, read_version, attempt}
use kineticio.Get.Recovered.{do_execute-Returned}

-- The chunks that are not lost came with OK.
abbrev pub AnsweredOk : Reads → List Bool → Type 0
AnsweredOk (op ∷ ops) (false ∷ p) = (is_ok op.callback.status ≡ true) × AnsweredOk ops p
AnsweredOk (op ∷ ops) (true ∷ p) = AnsweredOk ops p
AnsweredOk ops p = Unit

frequency-errors :
    (crc : Bytes → ℕ) (v : Bytes) (stripe : List Bytes) (ops : Reads) (p : List Bool)
    → Served crc v stripe (records ops) p
    → AnsweredOk ops p
    → length ops ≤ frequency_of (some v) (map read_version ops) + errors p
unfolding frequency_of version_equal read_version make_record
frequency-errors crc v [] [] [] served answered = omega arith
frequency-errors crc v (c ∷ stripe) (op ∷ ops) (true ∷ p) served answered =
    ground (arith, frequency-errors crc v stripe ops p served.1 answered)
frequency-errors crc v (c ∷ stripe) (op ∷ ops) (false ∷ p) served answered =
    let version : read_version op ≡ some v = rw (read_version, answered.0, served.0) refl in
    let counted : version_equal (some v) (read_version op) ≡ true =
      ap (version_equal (some v)) version ∙ bytes_eq_refl v in
    ground (arith, counted, frequency-errors crc v stripe ops p served.1 answered.1)
frequency-errors crc v stripe ops p served answered = absurd served

length-records :
    (crc : Bytes → ℕ) (v : Bytes) (stripe : List Bytes) (rs : List (Option KineticRecord))
    (p : List Bool)
    → Served crc v stripe rs p
    → length rs ≡ length stripe
length-records crc v [] [] [] served = refl
length-records crc v (c ∷ stripe) (r ∷ rs) (false ∷ p) (e, served) =
    ap suc (length-records crc v stripe rs p served)
length-records crc v (c ∷ stripe) (r ∷ rs) (true ∷ p) (e, served) =
    ap suc (length-records crc v stripe rs p served)
length-records crc v stripe rs p served = absurd served

module _ (ordinal : StatusCode → ℕ)
    (distinct : (c d : StatusCode) → rank ordinal c ≡ rank ordinal d → c ≡ d) {W : Type 0}
    (send : ℕ → ReadRequest → W → Delivery (Option KineticRecord) × W)
    (range_all : Bytes → Bytes → ℕ → W → List (Option (List Bytes)) × W) (crc : Bytes → ℕ)
    (rp : RedundancyProvider) (key : Bytes) (hash connections : ℕ) where
  -- The answers of an attempt carry the stripe, but for some that are lost.
  abbrev pub IsAnswered : Bytes → List Bytes → List Bool → Get → W → Type 0
  IsAnswered version stripe p g w =
      let ops = (execute_vector send 0 g.operations w).0 in
      Served crc version stripe (records ops) p × AnsweredOk ops p × (errors p ≤ rp.num_parity)

  -- A value of at most the capacity of a stripe and of at most the greatest int of bytes is split
  -- into a stripe, with more data than parity chunks and a coding table that recovers chunks. An
  -- attempt of a read, whatever follows it where it fails, returns OK with the value and its
  -- version, where the answers carry the stripe under the version with OK but for at most
  -- num_parity of them that are lost.
  pub attempt-value_to_stripe :
      (code : IsErasureCode rp) (capacity : ℕ) (value uuid : Bytes)
      → rp.num_parity < rp.num_data
      → 0 < capacity
      → length value ≤ rp.num_data * capacity
      → length value ≤ int_max
      → length uuid ≡ 36
      → let version = uuid_encode_size (length value) uuid in
        (stripe : List Bytes) × (value_to_stripe rp capacity value ≡ ok stripe)
        × ((p : List Bool) (next : Get → W → (Result StatusCode × Get) × W) (g : Get) (w : W)
            → IsAnswered version stripe p g w
            → let (r, g') =
                (attempt send range_all ordinal crc rp key hash connections false next g w).0 in
              (r ≡ ok status_ok) × (g'.value ≡ some value) × (g'.version.version ≡ some version))
  unfolding attempt
  attempt-value_to_stripe code capacity value uuid more_data some_capacity fits small long =
      let version = uuid_encode_size (length value) uuid in
      let (stripe, split, sized, back) =
        reconstruct_value-value_to_stripe rp code crc capacity value version (omega arith)
          some_capacity fits in
      let decoded : uuid_decode_size (some version) ≡ ok (length value) =
        uuid_decode_size-uuid_encode_size (length value) uuid (omega arith) long
        ∙ ap ok (omega arith) in
      (
        stripe,
        split,
        λ p next g w answered.
            let ops = (execute_vector send 0 g.operations w).0 in
            let lengths : length ops ≡ size rp =
              sym (length-map _ ops)
              ∙ length-records crc version stripe (records ops) p answered.0
              ∙ sized in
            let enough = frequency-errors crc version stripe ops p answered.0 answered.1 in
            let returned =
              do_execute-Returned ordinal send range_all crc rp key hash connections distinct g w
                version value (length value) more_data lengths
                (omega (arith, enough, lengths, answered.2)) decoded
                (back (records ops) p answered.0 answered.2) in
            rw (attempt, returned.0) (refl, returned.1, returned.2),
      )
