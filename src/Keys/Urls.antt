-- ===== src/Keys/Urls.antt =====
-- Keys and urls are read back as the parts they were made of (src/Utility.cc).
use kineticio.Prelude.{
  ℕ, ◌+◌, ◌-◌, ◌≡◌, refl, ap, sym, ◌∙◌, false, [], ◌∷◌, ◌++◌, some, length, take, drop, ◌==◌,
  ==_refl, ok, arith, length-append, take_of_length-le, le→not-ltb, append_assoc,
}
use kineticio.Str.{Bytes, substr}
use kineticio.Keys.{
  scheme, slash, colon, metadata, attribute, indicator, index_of, find_first_of, url_to_cluster_id,
  url_to_path, metadata_path, metadata_to_url, make_metadata_key, make_attribute_key,
  extract_attribute_name, make_indicator_key, indicator_to_key,
}

abbrev pub Absent : ℕ → Bytes → Type 0
Absent c [] = Unit {0}
Absent c (x ∷ s) = ((x == c) ≡ false) × Absent c s

index_of-append : (c : ℕ) (a b : Bytes) → Absent c a → index_of c (a ++ (c ∷ b)) ≡ some (length a)
unfolding index_of
index_of-append c [] b h = rw (==_refl c) refl
index_of-append c (x ∷ a) b (h, k) = rw (h, index_of-append c a b k) refl

drop-append : (p s : Bytes) → drop (length p) (p ++ s) ≡ s
drop-append [] s = refl
drop-append (x ∷ p) s = drop-append p s

take-append : (p s : Bytes) → take (length p) (p ++ s) ≡ p
take-append [] s = refl
take-append (x ∷ p) s = ap (◌∷◌ x) (take-append p s)

-- Parts of a text that is split in two.
substr-take : (p s : Bytes) (n : ℕ) → substr (length p) n (p ++ s) ≡ ok (take n s)
unfolding substr
substr-take p s n =
    rw (le→not-ltb (length (p ++ s)) (length p) (omega (arith, length-append p s)), drop-append p s)
      refl

substr_at : (p s t : Bytes) (k : ℕ) → t ≡ p ++ s → k ≡ length p → substr k (length t) t ≡ ok s
substr_at p s t k e f =
    rw (e, f)
      (substr-take p s (length (p ++ s))
        ∙ ap ok (take_of_length-le (length (p ++ s)) s (omega (arith, length-append p s))))

drop_at : (p s t : Bytes) (k : ℕ) → t ≡ p ++ s → k ≡ length p → drop k t ≡ s
drop_at p s t k e f = rw (e, f) (drop-append p s)

find_at :
    (c pos : ℕ) (s a b : Bytes)
    → drop pos s ≡ a ++ (c ∷ b)
    → Absent c a
    → find_first_of c pos s ≡ some (pos + length a)
unfolding find_first_of
find_at c pos s a b e h = rw (e, find_first_of, index_of-append c a b h) refl

-- The key that is made into an indicator key is read back.
indicator_to_key-make_indicator_key :
    (key : Bytes) → indicator_to_key (make_indicator_key key) ≡ ok key
unfolding indicator_to_key make_indicator_key
indicator_to_key-make_indicator_key key =
    substr_at indicator key (indicator ++ key) (length indicator) refl refl

abbrev pub url : Bytes → Bytes → Bytes
url id base = scheme ++ (id ++ (slash ∷ base))

cluster_id_lem : (id base : Bytes) → Absent slash id → url_to_cluster_id (url id base) ≡ ok id
unfolding url_to_cluster_id
cluster_id_lem id base h =
    let e : 10 + length id - 10 ≡ length id = omega arith in
    rw (url_to_cluster_id, find_at slash 10 (url id base) id base refl h, e)
      (substr-take scheme (id ++ (slash ∷ base)) (length id)
        ∙ ap ok (take-append id (slash ∷ base)))

path_lem : (x : ℕ) (id base : Bytes) → Absent slash id → url_to_path (url (x ∷ id) base) ≡ ok base
unfolding url_to_path find_first_of
path_lem x id base h =
    let p = scheme ++ (x ∷ (id ++ (slash ∷ []))) in
    rw (index_of-append slash id base h) (
      substr_at p base (url (x ∷ id) base) (11 + length id + 1)
        (ap (λ (y : Bytes). scheme ++ (x ∷ y)) (sym (append_assoc id (slash ∷ []) base)))
        (omega (arith, length-append id (slash ∷ []))))

metadata_path_lem :
    (id base : Bytes)
    → metadata_path (length id + 1) (id ++ (colon ∷ (metadata ++ (colon ∷ base)))) ≡ ok base
unfolding metadata_path
metadata_path_lem id base =
    let t = id ++ (colon ∷ (metadata ++ (colon ∷ base))) in
    let p = id ++ (colon ∷ (metadata ++ (colon ∷ []))) in
    let d : drop (length id + 1) t ≡ metadata ++ (colon ∷ base) =
      drop_at (id ++ (colon ∷ [])) (metadata ++ (colon ∷ base)) t (length id + 1)
        (sym (append_assoc id (colon ∷ []) (metadata ++ (colon ∷ base))))
        (omega (arith, length-append id (colon ∷ []))) in
    let no_colon : Absent colon metadata =
      (refl, (refl, (refl, (refl, (refl, (refl, (refl, (refl, tt)))))))) in
    rw (metadata_path, find_at colon (length id + 1) t metadata base d no_colon)
      (substr_at p base t (length id + 1 + 8 + 1)
        (sym (append_assoc id (colon ∷ (metadata ++ (colon ∷ []))) base))
        (omega (arith, length-append id (colon ∷ (metadata ++ (colon ∷ []))))))

metadata_to_url_lem :
    (id base : Bytes)
    → Absent colon id
    → metadata_to_url (make_metadata_key id base) ≡ ok (url id base)
unfolding metadata_to_url make_metadata_key
metadata_to_url_lem id base h =
    let rest = metadata ++ (colon ∷ base) in
    let z : 0 + length id ≡ length id = omega arith in
    rw
      (
        metadata_to_url,
        find_at colon 0 (id ++ (colon ∷ rest)) id rest refl h,
        z,
        substr-take [] (id ++ (colon ∷ rest)) (length id),
        take-append id (colon ∷ rest),
        metadata_path_lem id base,
      )
      refl

-- The metadata key of a cluster and a path is made into a url from which the cluster and the path are
-- read back, where the cluster's name is not empty and has neither a colon nor a slash.
pub metadata_to_url-make_metadata_key :
    (x : ℕ) (id base : Bytes)
    → Absent colon (x ∷ id)
    → Absent slash (x ∷ id)
    → (metadata_to_url (make_metadata_key (x ∷ id) base) ≡ ok (url (x ∷ id) base))
      × (url_to_cluster_id (url (x ∷ id) base) ≡ ok (x ∷ id))
      × (url_to_path (url (x ∷ id) base) ≡ ok base)
metadata_to_url-make_metadata_key x id base no_colon no_slash = (
  metadata_to_url_lem (x ∷ id) base no_colon,
  cluster_id_lem (x ∷ id) base no_slash,
  path_lem x id base no_slash.1,
)

-- The name of an attribute is read back from its key.
pub extract_attribute_name-make_attribute_key :
    (cluster_id path name : Bytes)
    → extract_attribute_name cluster_id path (make_attribute_key cluster_id path name) ≡ ok name
unfolding extract_attribute_name make_attribute_key
extract_attribute_name-make_attribute_key cluster_id path name =
    let rest = colon ∷ (attribute ++ (colon ∷ (path ++ (colon ∷ [])))) in
    substr_at (cluster_id ++ rest) name
      (cluster_id ++ (colon ∷ (attribute ++ (colon ∷ (path ++ (colon ∷ name)))))) _
      (ap (λ (y : Bytes). cluster_id ++ (colon ∷ (attribute ++ (colon ∷ y))))
          (sym (append_assoc path (colon ∷ []) name))
        ∙ sym (append_assoc cluster_id rest name))
      (omega (arith, length-append cluster_id rest, length-append path (colon ∷ [])))
