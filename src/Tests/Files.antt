-- ===== src/Tests/Files.antt =====
-- The theorems about files, on a file of blocks of four bytes (src/FileIo.cc, src/DataBlock.cc).
use kineticio.Prelude.{
  ℕ, zero, suc, ◌<◌, ◌≡◌, refl, true, [], ◌∷◌, none, some, arith, ◌==◌, if◌then◌else◌,
}
use kineticio.Remote.{Remote, remote_cluster}
use kineticio.DataBlock.{standard}
use kineticio.DataBlock.Content.{content}
use kineticio.Prefetch.{new_oracle}
use kineticio.File.{File}
use kineticio.File.Blocks.{
  Blocks, byte_at, IsYoung, block_services, block_view, block_services-Store,
}
use kineticio.File.Services.{Services}
use kineticio.File.Transfer.{locate, write_file}
use kineticio.File.Transfer.Pieces.{IsPiece, locate-IsPiece}
use kineticio.File.Transfer.Written.{IsWriteOf, write_file-IsWriteOf}

-- The clock stands at 0.
abbrev now : Remote
now = record { entry = none; clock = 0; count = 0; new_version = λ n. n ∷ [] }

abbrev small_blocks : Services Blocks
small_blocks = block_services (remote_cluster 4) now (omega arith)

-- A file that has four bytes in its first block only.
abbrev letters : Blocks
letters n = record {
  mode = standard;
  key = n ∷ [];
  version = none;
  remote_value = none;
  local_value = if n == 0 then some (97 ∷ 98 ∷ 99 ∷ 100 ∷ []) else none;
  value_size = if n == 0 then 4 else 0;
  updates = [];
  timestamp = 0;
}

letters-IsYoung : (n : ℕ) → IsYoung (remote_cluster 4) now (omega arith) (letters n)
letters-IsYoung zero = record {
  backed = record { backed = omega arith; within = omega arith };
  young = omega arith;
}
letters-IsYoung (suc n) = record {
  backed = record { backed = ground arith; within = ground arith };
  young = omega arith;
}

abbrev small_file : File Blocks
small_file = record {
  eof_blocknumber = 0;
  eof_verification_time = 0;
  opened = true;
  oracle = new_oracle 3;
  world = letters;
}

only_letters : (n y : ℕ) → 0 < n → byte_at (content (letters n)) y ≡ 0
only_letters zero y h = absurd (omega arith)
only_letters (suc n) y h = ground arith

locate-IsPiece_example : IsPiece 4 6 5 (locate small_blocks [] 6 5)
locate-IsPiece_example =
    locate-IsPiece small_blocks [] 6 5 (omega arith)
      (omega arith, omega arith, omega arith, omega arith)

-- Six bytes from the third on, past the end of the file.
write_file-IsWriteOf_example :
    IsWriteOf small_blocks
      (block_view (remote_cluster 4) now (omega arith))
      2
      (1 ∷ 2 ∷ 3 ∷ 4 ∷ 5 ∷ 6 ∷ [])
      small_file
      (write_file small_blocks [] 7 2 (1 ∷ 2 ∷ 3 ∷ 4 ∷ 5 ∷ 6 ∷ []) small_file)
write_file-IsWriteOf_example =
    write_file-IsWriteOf small_blocks (block_view (remote_cluster 4) now (omega arith))
      (block_services-Store (remote_cluster 4) now (omega arith)) [] 7 2
      (1 ∷ 2 ∷ 3 ∷ 4 ∷ 5 ∷ 6 ∷ []) small_file (omega arith)
      (omega arith, omega arith, omega arith, omega arith)
      (letters-IsYoung, omega arith, only_letters) (omega arith) refl
