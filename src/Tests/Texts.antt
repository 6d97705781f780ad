-- ===== src/Tests/Texts.antt =====
-- Examples for keys and urls (src/Utility.cc).
use kineticio.Prelude.{◌≡◌, refl, [], ◌∷◌, ok}
use kineticio.Keys.{metadata_to_url, make_metadata_key, url_to_cluster_id, url_to_path}
use kineticio.Keys.Urls.{url, metadata_to_url-make_metadata_key}

metadata_to_url-make_metadata_key_example :
    (metadata_to_url (make_metadata_key (67 ∷ 49 ∷ []) (97 ∷ 47 ∷ 58 ∷ []))
      ≡ ok (url (67 ∷ 49 ∷ []) (97 ∷ 47 ∷ 58 ∷ [])))
    × (url_to_cluster_id (url (67 ∷ 49 ∷ []) (97 ∷ 47 ∷ 58 ∷ [])) ≡ ok (67 ∷ 49 ∷ []))
    × (url_to_path (url (67 ∷ 49 ∷ []) (97 ∷ 47 ∷ 58 ∷ [])) ≡ ok (97 ∷ 47 ∷ 58 ∷ []))
metadata_to_url-make_metadata_key_example =
    metadata_to_url-make_metadata_key 67 (49 ∷ []) (97 ∷ 47 ∷ 58 ∷ []) (refl, (refl, tt))
      (refl, (refl, tt))
