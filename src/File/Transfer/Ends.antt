-- ===== src/File/Transfer/Ends.antt =====
-- verify_eof of src/FileIo.cc: what the search for the last block leaves as it is.
use kineticio.Prelude.{
  ℕ, ◌<◌, ◌≡◌, List, [], ◌∷◌, Error, Result, ok, throw, Bool-cases, inl, inr, subst, out_of_range,
  ltb, ◌-◌, arith, if◌then◌else◌,
}
use kineticio.Str.{Bytes}
use kineticio.Words.{int_half, int_max, int_lt}
use kineticio.Kinetic.{StatusCode, is_ok}
use kineticio.DataBlock.{standard, expiration_time}
use kineticio.Keys.{make_metadata_key}
use kineticio.Keys.Numbers.{make_data_key, block_number_of, stoi, is_digit, after_last, underscore}
use kineticio.File.{File}
use kineticio.File.Action.{◌>>=◌}
use kineticio.File.Services.{Services}
use kineticio.File.Store.{View, Keeps, Store, Keeps-refl, Keeps-trans}
use kineticio.File.Transfer.{
  eof_without_blocks, eof_from, get_eof_backend, correct_eof, renew_eof, verify_eof, set_eof,
}
use kineticio.File.Transfer.Quiet.{outcome}

-- A number that is parsed is an int that is not negative.
abbrev SmallResult : Result ℕ → Type 0
SmallResult (ok n) = n < int_half
SmallResult (throw _) = Unit

checked_number : (n : ℕ) → SmallResult (if ltb int_max n then throw out_of_range else ok n)
checked_number n = elim (Bool-cases (ltb int_max n)) [
  | inl e ↦ rw e tt
  | inr e ↦ rw e (ground (arith, e))
]

stoi-SmallResult : (s : Bytes) → SmallResult (stoi s)
unfolding stoi
stoi-SmallResult [] = tt
stoi-SmallResult (c ∷ s) = elim (Bool-cases (is_digit c)) [
  | inl e ↦ rw e (checked_number _)
  | inr e ↦ rw e tt
]

block_number_of-SmallResult : (key : Bytes) → SmallResult (block_number_of key)
unfolding block_number_of
block_number_of-SmallResult key = stoi-SmallResult (after_last underscore key key)

module _ {W : Type 0} (services : Services W) (view : View W) (laws : Store services view)
    (path : Bytes) where
  -- The bytes are kept and the last block number stays an int that is not negative.
  abbrev Still : File W → File W → Type 0
  Still s s' = Keeps view s.world s'.world × (s'.eof_blocknumber < int_half)

  -- The search for the last block threw this.
  abbrev pub SearchThrew : Error → Type 0
  SearchThrew e = (s : File W) × ((get_eof_backend services path s).0 ≡ throw e)

  abbrev pub Steady : File W → Result (Unit {0}) × File W → Type 0
  Steady s (ok _, s') = Still s s'
  Steady s (throw e, s') = SearchThrew e

  abbrev Found : File W → Result ℕ × File W → Type 0
  Found s (r, s') = Still s s' × SmallResult r

  Steady-after :
      (s s1 : File W) (r : Result (Unit {0}) × File W)
      → Keeps view s.world s1.world
      → Steady s1 r
      → Steady s r
  Steady-after s s1 (ok _, s2) first steady =
      (Keeps-trans view s.world s1.world s2.world first steady.0, steady.1)
  Steady-after s s1 (throw e, s2) first steady = steady

  Found-after :
      (s s1 : File W) (r : Result ℕ × File W) → Keeps view s.world s1.world → Found s1 r → Found s r
  Found-after s s1 r first found =
      ((Keeps-trans view s.world s1.world r.1.world first found.0.0, found.0.1), found.1)

  eof_without_blocks-Found :
      (s : File W)
      → view.Good s.world
      → s.eof_blocknumber < int_half
      → Found s (eof_without_blocks services path s)
  unfolding eof_without_blocks
  eof_without_blocks-Found s good small =
      let key = make_metadata_key services.id path in
      let kept = laws.keeps_get_version key s.world good in
      elim (Bool-cases (is_ok (services.get_version key s.world).0)) [
        | inl e ↦ rw e ((kept, small), omega arith)
        | inr e ↦ rw e ((kept, small), tt)
      ]

  eof_from-Found :
      (status : StatusCode) (keys : List Bytes) (s : File W)
      → view.Good s.world
      → s.eof_blocknumber < int_half
      → Found s (eof_from services path (status, keys) s)
  unfolding eof_from
  eof_from-Found status [] s good small = elim (Bool-cases (is_ok status)) [
    | inl e ↦ rw e (eof_without_blocks-Found s good small)
    | inr e ↦ rw e ((Keeps-refl view s.world good, small), tt)
  ]
  eof_from-Found status (key ∷ keys) s good small = elim (Bool-cases (is_ok status)) [
    | inl e ↦ rw e ((Keeps-refl view s.world good, small), block_number_of-SmallResult key)
    | inr e ↦ rw e ((Keeps-refl view s.world good, small), tt)
  ]

  get_eof_backend-Found :
      (s : File W)
      → view.Good s.world
      → s.eof_blocknumber < int_half
      → Found s (get_eof_backend services path s)
  unfolding get_eof_backend
  get_eof_backend-Found s good small =
      let start = make_data_key services.id path 999_999_999 in
      let end = make_data_key services.id path 0 in
      let kept = laws.keeps_range start end 1 s.world good in
      let (status, keys, w) = services.range start end 1 s.world in
      let s1 = record s { world = w } in
      Found-after s s1 (eof_from services path (status, keys) s1) kept
        (eof_from-Found status keys s1 kept.0 small)

  -- The last block number is what the backend knows.
  set_found :
      (s : File W)
      → view.Good s.world
      → s.eof_blocknumber < int_half
      → Steady s ((get_eof_backend services path >>= set_eof services path) s)
  set_found s good small =
      let found = get_eof_backend-Found s good small in
      let s1 = (get_eof_backend services path s).1 in
      outcome (Steady s) (get_eof_backend services path) (set_eof services path) s
        (λ n e. (found.0.0, subst SmallResult e found.1)) (λ _ e. (s, e))

  correct_eof-Steady :
      (s : File W)
      → view.Good s.world
      → s.eof_blocknumber < int_half
      → Steady s (correct_eof services path s.eof_blocknumber s)
  unfolding correct_eof
  correct_eof-Steady s good small =
      let n = s.eof_blocknumber in
      let got = laws.keeps_get n s.world good small in
      let (h, w) = services.get_data_key n standard s.world in
      elim (Bool-cases (services.dirty_block h w)) [
        | inl e ↦ rw e (got.0, small)
        | inr e ↦
            let s1 = record s { world = w } in
            rw e (Steady-after s s1 _ got.0 (set_found s1 got.0.0 small))
      ]

  renew_eof-Steady :
      (s : File W)
      → view.Good s.world
      → s.eof_blocknumber < int_half
      → Steady s (renew_eof services path s)
  unfolding renew_eof
  renew_eof-Steady s good small =
      let found = get_eof_backend-Found s good small in
      let s1 = (get_eof_backend services path s).1 in
      outcome (Steady s) (get_eof_backend services path) _ s
        (λ backend e. elim (Bool-cases (int_lt backend s1.eof_blocknumber)) [
          | inl f ↦
              rw f (Steady-after s s1 _ found.0.0 (correct_eof-Steady s1 found.0.0.0 found.0.1))
          | inr f ↦ rw f (found.0.0, subst SmallResult e found.1)
        ])
        (λ _ e. (s, e))

  pub verify_eof-Steady :
      (s : File W)
      → view.Good s.world
      → s.eof_blocknumber < int_half
      → Steady s (verify_eof services path s)
  unfolding verify_eof
  verify_eof-Steady s good small =
      elim (Bool-cases (ltb expiration_time (services.now s.world - s.eof_verification_time))) [
        | inl e ↦ rw e (
            renew_eof-Steady (record s { eof_verification_time = services.now s.world }) good small)
        | inr e ↦ rw e (Keeps-refl view s.world good, small)
      ]
