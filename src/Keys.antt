-- ===== src/Keys.antt =====
-- The keys and urls of src/Utility.cc, as ASCII codes.
pub mod Urls
pub mod Numbers
use kineticio.Prelude.{
  ℕ, zero, suc, ◌+◌, ◌-◌, List, [], ◌∷◌, ◌++◌, Option, none, some, length, drop, ◌==◌,
  if◌then◌else◌, Result, ok, ◌>>=◌,
}
use kineticio.Str.{Bytes, substr}

-- "kinetic://"
abbrev pub scheme : Bytes
scheme = 107 ∷ 105 ∷ 110 ∷ 101 ∷ 116 ∷ 105 ∷ 99 ∷ 58 ∷ 47 ∷ 47 ∷ []

abbrev pub slash : ℕ
slash = 47

abbrev pub colon : ℕ
colon = 58

-- "metadata"
abbrev pub metadata : Bytes
metadata = 109 ∷ 101 ∷ 116 ∷ 97 ∷ 100 ∷ 97 ∷ 116 ∷ 97 ∷ []

-- "attribute"
abbrev pub attribute : Bytes
attribute = 97 ∷ 116 ∷ 116 ∷ 114 ∷ 105 ∷ 98 ∷ 117 ∷ 116 ∷ 101 ∷ []

-- "indicator:"
abbrev pub indicator : Bytes
indicator = 105 ∷ 110 ∷ 100 ∷ 105 ∷ 99 ∷ 97 ∷ 116 ∷ 111 ∷ 114 ∷ 58 ∷ []

unfoldable pub index_of : ℕ → Bytes → Option ℕ
index_of c [] = none
index_of c (x ∷ s) =
    let rest = index_of c s in
    if x == c then some 0 else elim rest [ none ↦ none | some i ↦ some (suc i) ]

-- `s.find_first_of(c, pos)`, with `none` for npos
unfoldable pub find_first_of : ℕ → ℕ → Bytes → Option ℕ
unfolding index_of
find_first_of c pos s = elim (index_of c (drop pos s)) [ none ↦ none | some i ↦ some (pos + i) ]

-- urlToClusterId
unfoldable pub url_to_cluster_id : Bytes → Result Bytes
unfolding find_first_of substr
url_to_cluster_id url = elim (find_first_of slash (length scheme) url) [
  | none ↦ substr (length scheme) (length url) url
  | some id_end ↦ substr (length scheme) (id_end - length scheme) url
]

-- urlToPath
unfoldable pub url_to_path : Bytes → Result Bytes
unfolding find_first_of substr
url_to_path url = elim (find_first_of slash (length scheme + 1) url) [
  | none ↦ substr 0 (length url) url
  | some i ↦ substr (i + 1) (length url) url
]

-- The part of metadataToUrl after the second colon.
unfoldable pub metadata_path : ℕ → Bytes → Result Bytes
unfolding find_first_of substr
metadata_path from mdkey = elim (find_first_of colon from mdkey) [
  | none ↦ substr 0 (length mdkey) mdkey
  | some pos2 ↦ substr (pos2 + 1) (length mdkey) mdkey
]

-- metadataToUrl
unfoldable pub metadata_to_url : Bytes → Result Bytes
unfolding find_first_of substr metadata_path
metadata_to_url mdkey = elim (find_first_of colon 0 mdkey) [
  | none ↦ do
    id ← substr 0 (length mdkey) mdkey
    path ← metadata_path 0 mdkey
    ok (scheme ++ (id ++ (slash ∷ path)))
  | some pos1 ↦ do
    id ← substr 0 pos1 mdkey
    path ← metadata_path (pos1 + 1) mdkey
    ok (scheme ++ (id ++ (slash ∷ path)))
]

-- makeMetadataKey
unfoldable pub make_metadata_key : Bytes → Bytes → Bytes
make_metadata_key cluster_id base = cluster_id ++ (colon ∷ (metadata ++ (colon ∷ base)))

-- makeAttributeKey
unfoldable pub make_attribute_key : Bytes → Bytes → Bytes → Bytes
make_attribute_key cluster_id path name =
    cluster_id ++ (colon ∷ (attribute ++ (colon ∷ (path ++ (colon ∷ name)))))

-- extractAttributeName
unfoldable pub extract_attribute_name : Bytes → Bytes → Bytes → Result Bytes
unfolding substr
extract_attribute_name cluster_id path attrkey =
    substr (length cluster_id + (length attribute + 2) + length path + 1) (length attrkey) attrkey

-- makeIndicatorKey
unfoldable pub make_indicator_key : Bytes → Bytes
make_indicator_key key = indicator ++ key

-- indicatorToKey
unfoldable pub indicator_to_key : Bytes → Result Bytes
unfolding substr
indicator_to_key indicator_key = substr (length indicator) (length indicator_key) indicator_key
