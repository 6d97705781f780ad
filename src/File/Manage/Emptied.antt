-- ===== src/File/Manage/Emptied.antt =====
-- The loop of Truncate (src/FileIo.cc) that deletes the keys of a range page by page.
use kineticio.Prelude.{
  ℕ, zero, suc, ◌+◌, ◌/◌, ◌-◌, ◌<◌, ◌≡◌, refl, ◌∙◌, sym, ap, subst, true, false, List, [], ◌∷◌,
  ◌++◌, Option, none, some, length, take, drop, length-take, length-drop, take-append-drop, min,
  Result, ok, throw, io_error, Bool-cases, Result-cases, ◌⊎◌, inl, inr, ◌==◌, ◌||◌, if◌then◌else◌,
  arith,
}
use kineticio.Str.{Bytes}
use kineticio.Words.{to_int, to_size, int_max, size_mul, size_sub}
use kineticio.Keys.Numbers.{make_data_key}
use kineticio.Kinetic.{remote_not_found, code_eq, is_ok}
use kineticio.File.{File}
use kineticio.File.Action.{Action, finally, done}
use kineticio.File.Services.{Services}
use kineticio.File.Transfer.{set_eof}
use kineticio.File.Transfer.Quiet.{on_opened, before_outcome}
use kineticio.File.Names.{ask_page}
use kineticio.File.Manage.{delete_key, delete_keys, delete_loop, truncate_cached, truncate_file}

-- The keys that a cluster has in a range, in their order: a request that succeeds gives the first of
-- them, as many as the cluster's limit, and a key that is removed is gone.
pub record KeyRange {W : Type 0} (services : Services W) (start end : Bytes) : Type 0 where
  pub left : W → List Bytes
  pub range_law :
      (w : W)
      → is_ok (services.range start end 0 w).0 ≡ true
      → ((services.range start end 0 w).1 ≡ take services.max_range_elements (left w))
        × (left (services.range start end 0 w).2 ≡ left w)
  pub remove_law :
      (w : W) (k : Bytes) (ks : List Bytes)
      → left w ≡ k ∷ ks
      → (is_ok (services.remove k w).0 || code_eq (services.remove k w).0 remote_not_found) ≡ true
      → left (services.remove k w).1 ≡ ks

module _ {W : Type 0} (services : Services W) (path start end : Bytes)
    (keys : KeyRange services start end) where
  -- So many keys are left, or the cluster failed.
  abbrev Leaves : List Bytes → Result (Unit {0}) × File W → Type 0
  Leaves ks (ok _, s') = keys.left s'.world ≡ ks
  Leaves ks (throw e, s') = e ≡ io_error

  delete_keys-Leaves :
      (page ks : List Bytes) (s : File W)
      → keys.left s.world ≡ page ++ ks
      → Leaves ks (delete_keys services path page s)
  unfolding delete_keys delete_key
  delete_keys-Leaves [] ks s h = h
  delete_keys-Leaves (k ∷ page) ks s h =
      let (status, w) = services.remove k s.world in
      elim (Bool-cases (is_ok status || code_eq status remote_not_found)) [
        | inl e ↦ rw e (
            delete_keys-Leaves page ks (record s { world = w })
              (keys.remove_law s.world k (page ++ ks) h e))
        | inr e ↦ rw e refl
      ]

  -- A page, or the failure of the request.
  abbrev Paged : File W → Result (List Bytes) × File W → Type 0
  Paged s (ok page, s') =
      (page ≡ take services.max_range_elements (keys.left s.world))
      × (keys.left s'.world ≡ keys.left s.world)
  Paged s (throw e, s') = e ≡ io_error

  ask_page-Paged : (s : File W) → Paged s (ask_page services path start end s)
  unfolding ask_page
  ask_page-Paged s = elim (Bool-cases (is_ok (services.range start end 0 s.world).0)) [
    | inl e ↦ rw e (keys.range_law s.world e)
    | inr e ↦ rw e refl
  ]

  abbrev pub IsEmptied : Option (Result (Unit {0}) × File W) → Type 0
  IsEmptied none = ⊥
  IsEmptied (some (ok _, s')) = keys.left s'.world ≡ []
  IsEmptied (some (throw e, s')) = e ≡ io_error

  short_page : (n : ℕ) (ks : List Bytes) → (length (take n ks) == n) ≡ false → drop n ks ≡ []
  short_page zero ks h = cc h
  short_page (suc n) [] h = refl
  short_page (suc n) (k ∷ ks) h = short_page n ks (ground (arith, h))

  pub delete_loop-IsEmptied :
      (fuel : ℕ) (s : File W)
      → 0 < services.max_range_elements
      → length (keys.left s.world) < fuel
      → IsEmptied (delete_loop services path fuel start end s)
  unfolding delete_loop
  delete_loop-IsEmptied zero s some_page enough = absurd (omega arith)
  delete_loop-IsEmptied (suc fuel) s some_page enough =
      let page_max = services.max_range_elements in
      let asked = ask_page-Paged s in
      let (r, s1) = ask_page services path start end s in
      elim (Result-cases r) [
        | inr (_, e) ↦ rw (e, delete_loop) (subst (λ x. Paged s (x, s1)) e asked)
        | inl (page, e) ↦
            let (first, same) = subst (λ x. Paged s (x, s1)) e asked in
            let gone = drop page_max (keys.left s.world) in
            let all : keys.left s1.world ≡ page ++ gone =
              same
              ∙ sym (take-append-drop page_max (keys.left s.world))
              ∙ ap (λ p. p ++ gone) (sym first) in
            let deleted = delete_keys-Leaves page gone s1 all in
            let (r', s2) = delete_keys services path page s1 in
            elim (Result-cases r') [
              | inr (_, f) ↦ rw (e, delete_loop, f) (subst (λ x. Leaves gone (x, s2)) f deleted)
              | inl (_, f) ↦
                  let now : keys.left s2.world ≡ gone =
                    subst (λ x. Leaves gone (x, s2)) f deleted in
                  let fewer : length (keys.left s2.world) ≡ length (keys.left s.world) - page_max =
                    ap length now ∙ length-drop page_max (keys.left s.world) in
                  let counted : length page ≡ min page_max (length (keys.left s.world)) =
                    ap length first ∙ length-take page_max (keys.left s.world) in
                  elim (Bool-cases (length page == page_max)) [
                    | inl g ↦
                        let full : length page ≡ page_max = ground (arith, g) in
                        rw (e, delete_loop, f, g)
                          (delete_loop-IsEmptied fuel s2 some_page
                            (omega (arith, fewer, enough, some_page, full, counted)))
                    | inr g ↦
                        rw (e, delete_loop, f, g)
                          (now
                            ∙ short_page page_max (keys.left s.world)
                                (ap (λ p. length p == page_max) (sym first) ∙ g))
                  ]
            ]
      ]

module _ {W : Type 0} (services : Services W) (path : Bytes) (offset : ℕ) where
  -- The block that holds the offset, and the first block that Truncate deletes.
  abbrev last_block : ℕ
  last_block = to_int (offset / services.max_value_size)

  abbrev pub first_deleted : ℕ
  first_deleted = if offset == 0 then 0 else to_int (last_block + 1)

  abbrev cut_cached : Action (File W) (Unit {0})
  cut_cached =
      truncate_cached services path offset last_block
        (size_sub offset (size_mul (to_size last_block) services.max_value_size))

  module _
      (keys : KeyRange services
        (make_data_key services.id path first_deleted)
        (make_data_key services.id path int_max)) where
    abbrev pub IsTruncated : File W → Option (Result (Unit {0}) × File W) → Type 0
    IsTruncated s none = ⊥
    IsTruncated s (some (ok _, s')) = (keys.left s'.world ≡ []) × (s'.eof_blocknumber ≡ last_block)
    IsTruncated s (some (throw e, s')) = (e ≡ io_error) ⊎ ((cut_cached s).0 ≡ throw e)

    emptied :
        (s : File W) (o : Option (Result (Unit {0}) × File W))
        → IsEmptied services path _ _ keys o
        → IsTruncated s (finally (λ _. done (set_eof services path last_block)) o)
    emptied s none h = h
    emptied s (some (ok _, s')) h = (h, refl)
    emptied s (some (throw e, s')) h = inl h

    -- Where range gives the first keys that are left, up to a positive limit, and a removed key is
    -- gone, Truncate of an open file ends in one page more than there are keys. It throws only
    -- io_error or what its steps on the cached blocks threw; otherwise no data key from the first
    -- block to delete on is left, and the last block number is that of the offset.
    pub truncate_file-IsTruncated :
        (fuel : ℕ) (s : File W)
        → s.opened ≡ true
        → 0 < services.max_range_elements
        → length (keys.left (cut_cached s).1.world) < fuel
        → IsTruncated s (truncate_file services path fuel offset s)
    unfolding truncate_file
    truncate_file-IsTruncated fuel s opened some_page enough =
        on_opened (IsTruncated s) s.opened _ _ opened (
          before_outcome (IsTruncated s) cut_cached _ s
            (λ _ _.
              emptied s _ (
                delete_loop-IsEmptied services path _ _ keys fuel (cut_cached s).1 some_page
                  enough))
            (λ _ e. inr e))
