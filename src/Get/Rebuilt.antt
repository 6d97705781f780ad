-- ===== src/Get/Rebuilt.antt =====
-- reconstructValue of StripeOperation_GET (src/KineticClusterStripeOperation.cc): when the value is
-- what the chunks make.
use kineticio.Prelude.{
  ℕ, ◌≤◌, ◌≡◌, refl, ◌∙◌, ap, sym, Bool, true, false, List, [], map, Option, none, some, ◌==◌,
  on_if, Result, ok, throw,
}
use kineticio.Str.{Bytes}
use kineticio.Kinetic.{StatusCode, is_ok, valid_status_code}
use kineticio.Keys.Numbers.{uuid_decode_size}
use kineticio.Quorum.{most_frequent_version}
use kineticio.Redundancy.{RedundancyProvider}
use kineticio.Stripe.{KineticRecord, reconstruct_value}
use kineticio.Operation.{Delivery}
use kineticio.Get.{
  ReadRequest, Get, records, read_version, rebuild, rebuild_as, rebuild_sized, store_value,
}

module _ (crc : Bytes → ℕ) (rp : RedundancyProvider) (skip_value : Bool) where
  -- The version is the most frequent one among the answers, and the value is what its chunks make.
  abbrev pub IsRebuilt : Get → Type 0
  IsRebuilt g =
      (v : Bytes) × (size : ℕ) × (value : Bytes) × (g.version.version ≡ some v)
      × (uuid_decode_size (some v) ≡ ok size)
      × (g.value ≡ some value)
      × (reconstruct_value crc rp v size (records g.operations) ≡ ok value)

  abbrev pub IsCurrent : Get → Type 0
  IsCurrent g = g.version ≡ most_frequent_version (map read_version g.operations)

  -- A success has enough chunks of one version.
  abbrev pub IsServed : Result StatusCode × Get → Type 0
  IsServed (throw e, g) = Unit
  IsServed (ok c, g) =
      (valid_status_code c ≡ true)
      × (is_ok c ≡ true
          → IsCurrent g × (rp.num_data ≤ g.version.frequency) × (skip_value ≡ false → IsRebuilt g))

  abbrev pub RebuiltFrom : Get → Result (Unit {0}) × Get → Type 0
  RebuiltFrom g (ok _, g') =
      IsRebuilt g' × (g'.operations ≡ g.operations) × (g'.version ≡ g.version)
  RebuiltFrom g (throw _, g') = Unit

module _ {W : Type 0} (send : ℕ → ReadRequest → W → Delivery (Option KineticRecord) × W)
    (range_all : Bytes → Bytes → ℕ → W → List (Option (List Bytes)) × W) (ordinal : StatusCode → ℕ)
    (crc : Bytes → ℕ) (rp : RedundancyProvider) (key : Bytes) (hash connections : ℕ)
    (skip_value : Bool) where
  abbrev RebuildOf : Get → Result (Unit {0}) × Get → Type 0
  RebuildOf = RebuiltFrom crc rp skip_value

  store_value-RebuiltFrom :
      (v : Bytes) (size : ℕ) (g g' : Get) (r : Result Bytes)
      → g.version.version ≡ some v
      → uuid_decode_size (some v) ≡ ok size
      → g'.operations ≡ g.operations
      → g'.version ≡ g.version
      → reconstruct_value crc rp v size (records g.operations) ≡ r
      → RebuildOf g (store_value g' r)
  store_value-RebuiltFrom v size g g' (throw e) at decoded same_ops same_version made = tt
  store_value-RebuiltFrom v size g g' (ok value) at decoded same_ops same_version made = (
    (
      v,
      size,
      value,
      ap (λ c. c.version) same_version ∙ at,
      decoded,
      refl,
      ap (λ ops. reconstruct_value crc rp v size (records ops)) same_ops ∙ made,
    ),
    same_ops,
    same_version,
  )

  rebuild_as-RebuiltFrom :
      (v : Bytes) (r : Result ℕ) (g g' : Get)
      → g.version.version ≡ some v
      → uuid_decode_size (some v) ≡ r
      → g'.operations ≡ g.operations
      → g'.version ≡ g.version
      → g'.value ≡ some []
      → RebuildOf g
          (rebuild_as send range_all ordinal crc rp key hash connections skip_value v r g')
  unfolding rebuild_as rebuild_sized
  rebuild_as-RebuiltFrom v (throw e) g g' at decoded same_ops same_version reset = tt
  rebuild_as-RebuiltFrom v (ok size) g g' at decoded same_ops same_version reset =
      on_if (RebuildOf g) (size == 0) _ _
        (λ h.
          let nothing : reconstruct_value crc rp v size (records g'.operations) ≡ ok [] =
            rw (reconstruct_value, h) refl in
          (
            (v, size, [], ap (λ c. c.version) same_version ∙ at, decoded, reset, nothing),
            same_ops,
            same_version,
          ))
        (λ h.
          store_value-RebuiltFrom v size g _
            (reconstruct_value crc rp v size (records g'.operations)) at decoded same_ops
            same_version (ap (λ ops. reconstruct_value crc rp v size (records ops)) (sym same_ops)))

  rebuild_from :
      (o : Option Bytes) (g : Get)
      → g.version.version ≡ o
      → RebuildOf g (
          rebuild_as send range_all ordinal crc rp key hash connections skip_value
            (elim o [ none ↦ [] | some v ↦ v ])
            (uuid_decode_size o)
            (record g { value = some [] }))
  unfolding uuid_decode_size rebuild_as
  rebuild_from none g at = tt
  rebuild_from (some v) g at =
      rebuild_as-RebuiltFrom v (uuid_decode_size (some v)) g (record g { value = some [] }) at refl
        refl refl refl

  pub rebuild-RebuiltFrom :
      (g : Get)
      → RebuildOf g (rebuild send range_all ordinal crc rp key hash connections skip_value g)
  unfolding rebuild
  rebuild-RebuiltFrom g = rebuild_from g.version.version g refl
