-- ===== src/File/Names.antt =====
-- The attributes of a file and the names of files (src/FileIo.cc: attrGet, attrSet, attrDelete,
-- attrList, ListFiles).
pub mod Listing
use kineticio.Prelude.{
  ℕ, zero, suc, Bool, true, false, not, ◌&&◌, List, [], ◌∷◌, ◌++◌, Option, none, some, length, take,
  ltb, ◌==◌, if◌then◌else◌, Result, ok, throw, io_error, invalid_argument,
  no_such_file_or_directory, ◌-◌,
}
use kineticio.Str.{Bytes}
use kineticio.Kinetic.{StatusCode, remote_not_found, code_eq, is_ok}
use kineticio.Keys.{
  make_metadata_key, make_attribute_key, extract_attribute_name, metadata_to_url, url_to_path,
}
use kineticio.File.{File}
use kineticio.File.Action.{◌>>=◌, after, return, raise, Loop, done, before, then_after}
use kineticio.File.Services.{Services}
use kineticio.File.Transfer.{Method, call, ask_range}

-- The last element, or `start` if there is none.
unfoldable pub last_or : Bytes → List Bytes → Bytes
last_or start [] = start
last_or start (k ∷ ks) = last_or k ks

-- Where ListFiles goes on after a page: after its last key.
unfoldable pub after_page : Bytes → List Bytes → Bytes
unfolding last_or
after_page start [] = start
after_page start (k ∷ ks) = last_or k ks ++ (32 ∷ [])

-- `s.find(part) != npos`
unfoldable pub starts_with : Bytes → Bytes → Bool
starts_with [] s = true
starts_with (x ∷ part) [] = false
starts_with (x ∷ part) (y ∷ s) = (x == y) && starts_with part s

unfoldable pub occurs_in : Bytes → Bytes → Bool
unfolding starts_with
occurs_in part [] = starts_with part []
occurs_in part (y ∷ s) =
    let rest = occurs_in part s in if starts_with part (y ∷ s) then true else rest

-- The loop over the keys of a page, with what an element of the list is made by.
unfoldable pub convert : (Bytes → Result Bytes) → List Bytes → Result (List Bytes)
convert name [] = ok []
convert name (k ∷ ks) =
    let rest = convert name ks in
    elim (name k) [
      | throw e ↦ throw e
      | ok n ↦ elim rest [ throw e ↦ throw e | ok ns ↦ ok (n ∷ ns) ]
    ]

module _ {W : Type 0} (services : Services W) (path : Bytes) where
  -- attrGet of a name that is not one of the two statistics
  unfoldable pub attr_get : Bytes → Method services path Bytes
  unfolding make_attribute_key
  attr_get name = do
    (status, value) ← call services path (λ w.
        let (c, v, w') = services.get (make_attribute_key services.id path name) w in ((c, v), w'))
    if is_ok status
        then return value
        else (if code_eq status remote_not_found
            then raise no_such_file_or_directory
            else raise io_error)

  -- attrSet
  unfoldable pub attr_set : Bytes → Bytes → Method services path (Unit {0})
  unfolding make_attribute_key
  attr_set name value = do
    status ← call services path (services.put (make_attribute_key services.id path name) value)
    if is_ok status then return tt else raise io_error

  -- attrDelete
  unfoldable pub attr_delete : Bytes → Method services path (Unit {0})
  unfolding make_attribute_key
  attr_delete name = do
    status ← call services path (services.remove (make_attribute_key services.id path name))
    if is_ok status then return tt else raise io_error

  -- The request for a page: its keys, where it succeeds.
  unfoldable pub ask_page : Bytes → Bytes → Method services path (List Bytes)
  ask_page start end = do
    (status, keys) ← ask_range services path start end 0
    if is_ok status then return keys else raise io_error

  -- The loop of attrList, from a start key and with the names that it has.
  unfoldable pub attr_loop : ℕ → Bytes → Bytes → List Bytes → Loop (File W) (List Bytes)
  unfolding ask_page convert extract_attribute_name last_or
  attr_loop zero start end names s = none
  attr_loop (suc fuel) start end names s =
      let (r, s') = ask_page start end s in
      elim r [
        | throw e ↦ some (throw e, s')
        | ok keys ↦ elim (convert (extract_attribute_name services.id path) keys) [
          | throw e ↦ some (throw e, s')
          | ok more ↦
              let rest = attr_loop fuel (last_or start keys) end (names ++ more) s' in
              if length keys == services.max_range_elements
              then rest
              else some (ok (names ++ more), s')
        ]
      ]

  -- attrList
  unfoldable pub attr_list : ℕ → Loop (File W) (List Bytes)
  unfolding attr_loop make_attribute_key
  attr_list fuel =
      attr_loop fuel (make_attribute_key services.id path (32 ∷ []))
        (make_attribute_key services.id path (126 ∷ [])) []

  -- The loop of ListFiles.
  unfoldable pub files_loop : ℕ → ℕ → Bytes → Bytes → List Bytes → Loop (File W) (List Bytes)
  unfolding ask_page convert metadata_to_url after_page
  files_loop zero max start end names s = none
  files_loop (suc fuel) max start end names s =
      let (r, s') = ask_page start end s in
      elim r [
        | throw e ↦ some (throw e, s')
        | ok keys ↦ elim (convert metadata_to_url (take (max - length names) keys)) [
          | throw e ↦ some (throw e, s')
          | ok more ↦
              let rest = files_loop fuel max (after_page start keys) end (names ++ more) s' in
              if ltb (length (names ++ more)) max && (length keys == services.max_range_elements)
              then rest
              else some (ok (names ++ more), s')
        ]
      ]

  -- ListFiles, of the subtree at a url and with the greatest number of names
  unfoldable pub list_files : ℕ → Bytes → ℕ → Loop (File W) (List Bytes)
  unfolding occurs_in files_loop url_to_path make_metadata_key
  list_files fuel subtree max s =
      if not (occurs_in path subtree)
      then some (throw invalid_argument, s)
      else elim (url_to_path subtree) [
        | throw e ↦ some (throw e, s)
        | ok base ↦
            files_loop fuel max (make_metadata_key services.id base)
              (make_metadata_key services.id (126 ∷ [])) [] s
      ]
