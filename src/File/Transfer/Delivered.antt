-- ===== src/File/Transfer/Delivered.antt =====
-- The whole of a Read of src/FileIo.cc against one function of bytes.
use kineticio.Prelude.{
  ℕ, ◌+◌, ◌*◌, ◌≤◌, ◌≡◌, ◌++◌, Option, none, some, length, take, Result, ok, throw, ◌⊎◌,
  if◌then◌else◌,
}
use kineticio.Str.{Bytes}
use kineticio.Words.{int_lt}
use kineticio.File.{File}
use kineticio.File.Services.{Services}
use kineticio.File.Flat.{slice, flat}
use kineticio.File.Store.{View, Store}
use kineticio.File.Transfer.{locate}
use kineticio.File.Transfer.Reading.{ReadThrew, IsUsable, Same}
use kineticio.File.Transfer.Holding.{Holds}

module _ {W : Type 0} (services : Services W) (path : Bytes) (view : View W) where
  abbrev bytes_of : File W → ℕ → ℕ
  bytes_of s = flat services.max_value_size (view.byte s.world)

  abbrev IsDelivered : ℕ → Bytes → ℕ → File W → Option (Result (Bytes × ℕ) × File W) → Type 0
  IsDelivered position front room s none = ⊥
  IsDelivered position front room s (some (throw e, s')) = ReadThrew services path view e
  IsDelivered position front room s (some (ok (out, todo), s')) =
      ((body : Bytes) × (out ≡ front ++ body) × Holds position (bytes_of s) room body todo)
      × IsUsable view s'
      × Same view s s'

  module _ (laws : Store services view) where
    -- The rounds that are enough: two for a piece, the first of which may only find that the file
    -- is longer.
    abbrev rounds : ℕ → ℕ → File W → ℕ
    rounds position room s =
        2 * room
        + (if int_lt (locate services path position room).block_number s.eof_blocknumber
            then 0
            else 1)

  -- What a Read comes to: it throws, or the first of the bytes in the buffer, as many as it says, are
  -- those of the file, which is as it was.
  abbrev pub IsReadOf : ℕ → Bytes → File W → Option (Result (Bytes × ℕ) × File W) → Type 0
  IsReadOf position buffer s none = ⊥
  IsReadOf position buffer s (some (throw e, s')) =
      ((services.next_exception s.world).0 ≡ some e) ⊎ ReadThrew services path view e
  IsReadOf position buffer s (some (ok (out, n), s')) =
      (length out ≡ length buffer)
      × (n ≤ length buffer)
      × (take n out ≡ slice position n (bytes_of s))
      × Same view s s'
