-- ===== src/File.antt =====
-- src/FileIo.cc: a file as a row of data blocks. What a file asks of its cluster, of the cache of
-- data blocks and of the pool of background threads are the calls of `Services`, over a state `W` of
-- everything outside the file. A method changes the file and that state, also where it throws.
pub mod Flat
pub mod Action
pub mod Services
pub mod Store
pub mod Blocks
pub mod Transfer
pub mod Names
pub mod Manage
use kineticio.Prelude.{ℕ, Bool, false, List}
use kineticio.Str.{Bytes}
use kineticio.Prefetch.{PrefetchOracle, new_oracle}

-- The members of a FileIo that change, and the state outside; `eof_blocknumber` is an int.
pub record File (W : Type 0) : Type 0 where
  pub eof_blocknumber : ℕ
  pub eof_verification_time : ℕ
  pub opened : Bool
  pub oracle : PrefetchOracle
  pub world : W
