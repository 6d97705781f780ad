-- ===== src/File/Manage.antt =====
-- The life of a file (src/FileIo.cc: the constructor, Open, Close, Sync, Truncate, Remove, Stat,
-- Statfs).
pub mod Emptied
use kineticio.Prelude.{
  ℕ, zero, suc, ◌+◌, ◌/◌, Bool, true, false, not, ◌||◌, List, [], ◌∷◌, Option, none, some, length,
  ltb, ◌==◌, if◌then◌else◌, Result, ok, throw, io_error, invalid_argument, file_exists,
  no_such_file_or_directory, operation_not_permitted,
}
use kineticio.Str.{Bytes, size_add}
use kineticio.Words.{to_int, to_size, int_mod, int_max, size_mul, size_sub}
use kineticio.Kinetic.{StatusCode, remote_not_found, remote_version_mismatch, code_eq, is_ok}
use kineticio.DataBlock.{standard}
use kineticio.Keys.{scheme, url_to_path, url_to_cluster_id, make_metadata_key, make_attribute_key}
use kineticio.Keys.Numbers.{make_data_key}
use kineticio.Prefetch.{new_oracle}
use kineticio.File.{File}
use kineticio.File.Action.{
  ◌>>=◌, ◌>>◌, after, return, raise, when, Loop, done, before, then_after, finally,
}
use kineticio.File.Services.{Services}
use kineticio.File.Transfer.{Method, call, call_throwing, change, set_eof, get_eof, verify_eof}
use kineticio.File.Names.{ask_page, attr_list, starts_with}

-- The constructor, from a url to the id of the cluster, which the cluster map is asked for
-- (`get_cluster`), and the path.
unfoldable pub new_file : {C : Type 0} → (Bytes → Result C) → Bytes → Result (Bytes × C)
unfolding starts_with url_to_path url_to_cluster_id
new_file get_cluster url =
    if not (starts_with scheme url) then throw invalid_argument else elim (url_to_path url) [
      | throw e ↦ throw e
      | ok path ↦ elim (url_to_cluster_id url) [
        | throw e ↦ throw e
        | ok id ↦ elim (get_cluster id) [ throw e ↦ throw e | ok cluster ↦ ok (path, cluster) ]
      ]
    ]

-- `std::string()`
abbrev empty : Bytes
empty = []

pub record FileStat : Type 0 where
  pub st_blksize : ℕ
  pub st_blocks : ℕ
  pub st_size : ℕ

module _ {W : Type 0} (services : Services W) (path : Bytes) where
  -- Open with SFS_O_CREAT: the metadata key is put, which must not exist.
  unfoldable pub open_new : Method services path (Unit {0})
  unfolding make_metadata_key
  open_new = do
    status ←
        call services path (services.put_versioned (make_metadata_key services.id path) empty empty)
    if is_ok status
        then (λ s. (
          ok tt,
          record s {
            eof_blocknumber = 0;
            eof_verification_time = services.now s.world;
            opened = true;
          },
        ))
        else (if code_eq status remote_version_mismatch then raise file_exists else raise io_error)

  -- Open without it
  unfoldable pub open_existing : Method services path (Unit {0})
  unfolding make_metadata_key
  open_existing = do
    status ← call services path (services.get_version (make_metadata_key services.id path))
    if is_ok status
        then (λ s.
            (ok tt, record s { eof_blocknumber = 0; eof_verification_time = 0; opened = true }))
        else (if code_eq status remote_not_found
            then raise no_such_file_or_directory
            else raise io_error)

  -- Open, by whether SFS_O_CREAT is set
  unfoldable pub open_file : Bool → Method services path (Unit {0})
  unfolding open_new open_existing
  open_file creat s = if creat then open_new s else open_existing s

  -- Sync
  unfoldable pub sync : Method services path (Unit {0})
  sync =
      call_throwing services path services.flush_blocks
      >> change services path services.flush_cluster

  -- Close
  unfoldable pub close_file : Method services path (Unit {0})
  unfolding sync
  close_file s =
      (sync >> change services path (services.drop_blocks false))
        (record s { eof_blocknumber = 0; opened = false })

  -- The removal of a key that may be gone.
  unfoldable pub delete_key : Bytes → Method services path (Unit {0})
  delete_key key = do
    status ← call services path (services.remove key)
    if is_ok status || code_eq status remote_not_found then return tt else raise io_error

  -- The loop over the keys of a page in Truncate.
  unfoldable pub delete_keys : List Bytes → Method services path (Unit {0})
  unfolding delete_key
  delete_keys [] s = (ok tt, s)
  delete_keys (k ∷ ks) s = (delete_key k >> delete_keys ks) s

  -- The loop of Truncate over the pages.
  unfoldable pub delete_loop : ℕ → Bytes → Bytes → Loop (File W) (Unit {0})
  unfolding ask_page delete_keys
  delete_loop zero start end s = none
  delete_loop (suc fuel) start end s =
      let (r, s') = ask_page services path start end s in
      elim r [
        | throw e ↦ some (throw e, s')
        | ok keys ↦
            let (r', s'') = delete_keys keys s' in
            elim r' [
              | throw e ↦ some (throw e, s'')
              | ok _ ↦
                  let rest = delete_loop fuel start end s'' in
                  if length keys == services.max_range_elements then rest else some (ok tt, s'')
            ]
      ]

  -- The first two steps of Truncate, on the blocks in memory.
  unfoldable pub truncate_cached : ℕ → ℕ → ℕ → Method services path (Unit {0})
  truncate_cached offset number block_offset =
      when (ltb 0 offset) (do
        block ← call services path (services.get_data_key number standard)
        call_throwing services path (services.truncate_block block block_offset)
        call_throwing services path services.flush_blocks)
      >> change services path (services.drop_blocks true)

  -- Truncate, to an offset that is not negative
  unfoldable pub truncate_file : ℕ → ℕ → Loop (File W) (Unit {0})
  unfolding truncate_cached delete_loop make_data_key
  truncate_file fuel offset s =
      if not s.opened
      then some (throw operation_not_permitted, s)
      else let number = to_int (offset / services.max_value_size) in
        let block_offset = size_sub offset (size_mul (to_size number) services.max_value_size) in
        let first = if offset == 0 then 0 else to_int (number + 1) in
        before (truncate_cached offset number block_offset)
          (λ _ s'.
            finally (λ _. done (set_eof services path number))
              (delete_loop fuel (make_data_key services.id path first)
                (make_data_key services.id path int_max) s'))
          s

  -- The loop over the attributes in Remove.
  unfoldable pub remove_attributes : List Bytes → Method services path (Unit {0})
  unfolding make_attribute_key
  remove_attributes [] s = (ok tt, s)
  remove_attributes (name ∷ names) s =
      (call services path (services.remove (make_attribute_key services.id path name)) >>= λ status.
      if is_ok status then remove_attributes names else raise io_error)
        s

  -- Remove
  unfoldable pub remove_file : ℕ → Loop (File W) (Unit {0})
  unfolding open_file attr_list remove_attributes truncate_file delete_key make_metadata_key
  remove_file fuel s =
      before (when (not s.opened) (open_file false))
        (λ _ s'.
          finally
            (λ names. before (remove_attributes names) (λ _ s''.
              finally (λ _. done (delete_key (make_metadata_key services.id path)))
                (truncate_file fuel 0 s'')))
            (attr_list services path fuel s'))
        s

  -- Stat
  unfoldable pub stat_file : Method services path FileStat
  unfolding open_file verify_eof
  stat_file s =
      (do
        when (not s.opened) (open_file false)
        verify_eof services path
        eof ← get_eof services path
        block ← call services path (services.get_data_key eof standard)
        size ← call_throwing services path (services.size_block block)
        return record {
          st_blksize = services.max_value_size;
          st_blocks = to_size (to_int (eof + 1));
          st_size = size_add (size_mul (to_size eof) services.max_value_size) size;
        })
        s
