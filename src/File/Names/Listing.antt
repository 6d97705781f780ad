-- ===== src/File/Names/Listing.antt =====
-- ListFiles of src/FileIo.cc: how many names it lists.
use kineticio.Prelude.{
  ℕ, zero, suc, ◌+◌, ◌-◌, ◌≤◌, ◌<◌, ◌≡◌, refl, ap, subst, true, List, [], ◌∷◌, ◌++◌, Option, none,
  some, length, take, length-take, length-append, Result, ok, throw, Bool-cases, Result-cases, inl,
  inr, ltb, ◌==◌, ◌&&◌, arith,
}
use kineticio.Str.{Bytes}
use kineticio.Keys.{metadata_to_url, url_to_path, make_metadata_key}
use kineticio.File.{File}
use kineticio.File.Services.{Services}
use kineticio.File.Names.{convert, occurs_in, ask_page, after_page, files_loop, list_files}

abbrev AsLong : List Bytes → Result (List Bytes) → Type 0
AsLong ks (ok ns) = length ns ≡ length ks
AsLong ks (throw _) = Unit

convert-AsLong : (name : Bytes → Result Bytes) (ks : List Bytes) → AsLong ks (convert name ks)
unfolding convert
convert-AsLong name [] = refl
convert-AsLong name (k ∷ ks) = elim (Result-cases (name k)) [
  | inr (_, e) ↦ rw (e, convert) tt
  | inl (n, e) ↦ elim (Result-cases (convert name ks)) [
    | inr (_, f) ↦ rw (e, convert, f) tt
    | inl (ns, f) ↦ rw (e, convert, f) (ap suc (subst (AsLong ks) f (convert-AsLong name ks)))
  ]
]

-- The loop goes on after a page that is full, with room for more names.
going_on : (n max k page : ℕ) → (ltb n max && (k == page)) ≡ true → (n < max) × (k ≡ page)
going_on n max k page h = ground arith

module _ {W : Type 0} (services : Services W) (path : Bytes) where
  abbrev pub IsWithin : ℕ → Option (Result (List Bytes) × File W) → Type 0
  IsWithin max none = ⊥
  IsWithin max (some (ok names, s')) = length names ≤ max
  IsWithin max (some (throw _, s')) = Unit

  files_loop-IsWithin :
      (fuel max : ℕ) (start end : Bytes) (names : List Bytes) (s : File W)
      → 0 < services.max_range_elements
      → length names ≤ max
      → max < fuel + length names
      → IsWithin max (files_loop services path fuel max start end names s)
  unfolding files_loop
  files_loop-IsWithin zero max start end names s some_page few enough = absurd (omega arith)
  files_loop-IsWithin (suc fuel) max start end names s some_page few enough =
      let (r, s1) = ask_page services path start end s in
      elim (Result-cases r) [
        | inr (_, e) ↦ rw (e, files_loop) tt
        | inl (keys, e) ↦
            let page = take (max - length names) keys in
            elim (Result-cases (convert metadata_to_url page)) [
              | inr (_, f) ↦ rw (e, files_loop, f) tt
              | inl (more, f) ↦
                  let long = subst (AsLong page) f (convert-AsLong metadata_to_url page) in
                  let few' : length (names ++ more) ≤ max = omega (
                    arith,
                    few,
                    length-append names more,
                    long,
                    length-take (max - length names) keys,
                  ) in
                  elim (Bool-cases (
                    ltb (length (names ++ more)) max
                    && (length keys == services.max_range_elements))) [
                      | inl g ↦
                          let (room, full) =
                            going_on (length (names ++ more)) max (length keys)
                              services.max_range_elements g in
                          let grown : max < fuel + length (names ++ more) = omega (
                            arith,
                            few,
                            some_page,
                            room,
                            full,
                            enough,
                            length-append names more,
                            long,
                            length-take (max - length names) keys,
                          ) in
                          rw (e, files_loop, f, g)
                            (files_loop-IsWithin fuel max (after_page start keys) end
                              (names ++ more) s1 some_page few' grown)
                      | inr g ↦ rw (e, files_loop, f, g) few'
                    ]
            ]
      ]

  -- ListFiles with a cluster whose limit of elements is positive ends within one page more than
  -- names are asked for, with at most that many names if it does not throw.
  pub list_files-IsWithin :
      (fuel : ℕ) (subtree : Bytes) (max : ℕ) (s : File W)
      → 0 < services.max_range_elements
      → max < fuel
      → IsWithin max (list_files services path fuel subtree max s)
  unfolding list_files
  list_files-IsWithin fuel subtree max s some_page enough =
      elim (Bool-cases (occurs_in path subtree)) [
        | inr e ↦ rw e tt
        | inl e ↦ elim (Result-cases (url_to_path subtree)) [
          | inr (_, f) ↦ rw (e, f) tt
          | inl (base, f) ↦
              rw (e, f)
                (files_loop-IsWithin fuel max (make_metadata_key services.id base)
                  (make_metadata_key services.id (126 ∷ [])) [] s some_page (omega arith)
                  (omega arith))
        ]
      ]
