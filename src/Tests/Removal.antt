-- ===== src/Tests/Removal.antt =====
-- The theorems about the keys of files, on a cluster that is a list of keys.
use kineticio.Prelude.{
  ◌≡◌, refl, ap, ◌∙◌, true, false, List, [], ◌∷◌, none, ok, take, bytes_eq, bytes_eq_refl,
  if◌then◌else◌, arith,
}
use kineticio.Str.{Bytes}
use kineticio.Kinetic.{status_ok}
use kineticio.Keys.{make_metadata_key}
use kineticio.Keys.Numbers.{make_data_key}
use kineticio.Prefetch.{new_oracle}
use kineticio.File.{File}
use kineticio.File.Services.{Services}
use kineticio.File.Names.{list_files}
use kineticio.File.Names.Listing.{IsWithin, list_files-IsWithin}
use kineticio.File.Manage.{truncate_cached, truncate_file}
use kineticio.File.Manage.Emptied.{KeyRange, IsTruncated, truncate_file-IsTruncated}

-- Without the first key that is the one given.
erase : Bytes → List Bytes → List Bytes
erase k [] = []
erase k (x ∷ xs) = let rest = erase k xs in if bytes_eq k x then xs else x ∷ rest

abbrev Keys : Type 0
Keys = List Bytes

-- A request for a range gives the first two keys, whatever the range is.
abbrev two_keys : Services Keys
two_keys = record {
  id = 99 ∷ [];
  max_value_size = 4;
  max_range_elements = 2;
  put_versioned = λ key version value w. (status_ok, w);
  put = λ key value w. (status_ok, w);
  get_version = λ key w. (status_ok, w);
  get = λ key w. (status_ok, [], w);
  remove = λ key w. (status_ok, erase key w);
  range = λ start end elements w. (status_ok, take 2 w, w);
  flush_cluster = λ w. w;
  get_data_key = λ n mode w. (n, w);
  flush_blocks = λ w. (ok tt, w);
  drop_blocks = λ force w. w;
  current_size = λ w. 0;
  cache_capacity = λ w. 100;
  read_block = λ h buffer offset w. (ok buffer, w);
  write_block = λ h bytes offset w. (ok tt, w);
  size_block = λ h w. (ok 4, w);
  truncate_block = λ h size w. (ok tt, w);
  dirty_block = λ h w. false;
  try_read_ahead = λ h w. w;
  run_flush = λ h w. w;
  next_exception = λ w. (none, w);
  readahead_window = 2;
  now = λ w. 5000;
  walk = λ ds. ds;
}

erase_first : (k : Bytes) (ks : List Bytes) → erase k (k ∷ ks) ≡ ks
unfolding erase
erase_first k ks = rw (bytes_eq_refl k) refl

abbrev all_keys : (start end : Bytes) → KeyRange two_keys start end
all_keys start end = record {
  left = λ w. w;
  range_law = λ w e. (refl, refl);
  remove_law = λ w k ks h e. ap (erase k) h ∙ erase_first k ks;
}

-- A file of three blocks, and the same with the keys of two files.
abbrev three_blocks : File Keys
three_blocks = record {
  eof_blocknumber = 2;
  eof_verification_time = 4900;
  opened = true;
  oracle = new_oracle 3;
  world =
      make_data_key (99 ∷ []) (97 ∷ []) 2
      ∷ make_data_key (99 ∷ []) (97 ∷ []) 3
      ∷ make_data_key (99 ∷ []) (97 ∷ []) 4
      ∷ [];
}

abbrev two_files : File Keys
two_files = record three_blocks {
  world = make_metadata_key (99 ∷ []) (97 ∷ []) ∷ make_metadata_key (99 ∷ []) (97 ∷ 98 ∷ []) ∷ [];
}

truncate_file-IsTruncated_example :
    IsTruncated two_keys
      (97 ∷ [])
      6
      (all_keys _ _)
      three_blocks
      (truncate_file two_keys (97 ∷ []) 4 6 three_blocks)
unfolding truncate_cached
truncate_file-IsTruncated_example =
    truncate_file-IsTruncated two_keys (97 ∷ []) 6 (all_keys _ _) 4 three_blocks refl (omega arith)
      (omega arith)

list_files-IsWithin_example :
    IsWithin two_keys (97 ∷ []) 1 (list_files two_keys (97 ∷ []) 2 (107 ∷ 47 ∷ 97 ∷ []) 1 two_files)
list_files-IsWithin_example =
    list_files-IsWithin two_keys (97 ∷ []) 2 (107 ∷ 47 ∷ 97 ∷ []) 1 two_files (omega arith)
      (omega arith)
