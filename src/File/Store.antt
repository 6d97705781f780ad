-- ===== src/File/Store.antt =====
-- What src/FileIo.cc relies on in the cache, the data blocks and the background threads: the file
-- is one byte at every block number and offset, which only a write changes, and each block has bytes up
-- to its size. A block is named by the
-- number that `get_data_key` gave out, for as long as the file uses it.
use kineticio.Prelude.{
  Error, Result, throw, ℕ, ◌+◌, ◌≤◌, ◌<◌, ◌≡◌, refl, ◌∙◌, ok, length, ◌==◌, if◌then◌else◌,
}
use kineticio.Str.{Bytes}
use kineticio.Words.{int_half}
use kineticio.DataBlock.{standard, create}
use kineticio.File.{File}
use kineticio.File.Services.{Services}
use kineticio.File.Flat.{overlay, slice}

-- The bytes of every block and its size, when the state is usable, and what a block is named by.
pub record View (W : Type 0) : Type 1 where
  pub byte : W → ℕ → ℕ → ℕ
  pub size : W → ℕ → ℕ
  pub Good : W → Type 0
  pub Names : W → ℕ → ℕ → Type 0

-- A step that leaves the state usable, the bytes and sizes as they are and the names valid.
abbrev pub Keeps : {W : Type 0} → View W → W → W → Type 0
Keeps view w w' =
    view.Good w'
    × ((k y : ℕ) → view.byte w' k y ≡ view.byte w k y)
    × ((h n : ℕ) → view.Names w h n → view.Names w' h n)
    × ((k : ℕ) → view.size w' k ≡ view.size w k)

pub record Store {W : Type 0} (services : Services W) (view : View W) : Type 0 where
  pub keeps_get :
      (n : ℕ) (w : W)
      → view.Good w
      → n < int_half
      → Keeps view w (services.get_data_key n standard w).1
        × view.Names (services.get_data_key n standard w).1 (services.get_data_key n standard w).0 n
  -- a block may be asked for as a new one where the file has no bytes
  pub keeps_create :
      (n : ℕ) (w : W)
      → view.Good w
      → n < int_half
      → ((y : ℕ) → view.byte w n y ≡ 0)
      → Keeps view w (services.get_data_key n create w).1
        × view.Names (services.get_data_key n create w).1 (services.get_data_key n create w).0 n
  pub keeps_try_read_ahead :
      (h n : ℕ) (w : W)
      → view.Good w
      → view.Names w h n
      → Keeps view w (services.try_read_ahead h w)
  pub keeps_run_flush :
      (h n : ℕ) (w : W) → view.Good w → view.Names w h n → Keeps view w (services.run_flush h w)
  pub keeps_next_exception : (w : W) → view.Good w → Keeps view w (services.next_exception w).1
  pub keeps_size :
      (h n : ℕ) (w : W) → view.Good w → view.Names w h n → Keeps view w (services.size_block h w).1
  pub keeps_range :
      (start end : Bytes) (elements : ℕ) (w : W)
      → view.Good w
      → Keeps view w (services.range start end elements w).2
  pub keeps_get_version :
      (key : Bytes) (w : W) → view.Good w → Keeps view w (services.get_version key w).1
  -- a read inside a block that does not throw fills the buffer with the bytes of the block
  pub keeps_read :
      (h n : ℕ) (buffer : Bytes) (offset : ℕ) (w : W)
      → view.Good w
      → view.Names w h n
      → offset + length buffer ≤ services.max_value_size
      → Keeps view w (services.read_block h buffer offset w).1
  pub read_law :
      (h n : ℕ) (buffer : Bytes) (offset : ℕ) (w : W) (out : Bytes)
      → view.Good w
      → view.Names w h n
      → offset + length buffer ≤ services.max_value_size
      → (services.read_block h buffer offset w).0 ≡ ok out
      → out ≡ slice offset (length buffer) (view.byte w n)
  -- a write inside a block that does not throw changes just those bytes of the block, if it begins
  -- no later than the block's bytes end; what lies between them otherwise is left open
  pub write_law :
      (h n : ℕ) (bytes : Bytes) (offset : ℕ) (w : W)
      → view.Good w
      → view.Names w h n
      → offset + length bytes ≤ services.max_value_size
      → offset ≤ view.size w n
      → (services.write_block h bytes offset w).0 ≡ ok tt
      → view.Good (services.write_block h bytes offset w).1
        × ((k y : ℕ)
            → view.byte (services.write_block h bytes offset w).1 k y
              ≡ (if k == n then overlay offset bytes (view.byte w n) y else view.byte w k y))
        × ((g m : ℕ) → view.Names w g m → view.Names (services.write_block h bytes offset w).1 g m)

pub Keeps-refl : {W : Type 0} (view : View W) (w : W) → view.Good w → Keeps view w w
Keeps-refl view w good = (good, λ k y. refl, λ h n named. named, λ k. refl)

pub Keeps-trans :
    {W : Type 0} (view : View W) (w w' w'' : W)
    → Keeps view w w'
    → Keeps view w' w''
    → Keeps view w w''
Keeps-trans view w w' w'' first second = (
  second.0,
  λ k y. second.1 k y ∙ first.1 k y,
  λ h n named. second.2 h n (first.2 h n named),
  λ k. second.3 k ∙ first.3 k,
)

module _ {W : Type 0} (view : View W) where
  -- The file is usable and has no bytes past its last block.
  abbrev pub IsReady : File W → Type 0
  IsReady s =
      view.Good s.world
      × (s.eof_blocknumber < int_half)
      × ((n y : ℕ) → s.eof_blocknumber < n → view.byte s.world n y ≡ 0)

  -- The bytes of a block changed and nothing else.
  abbrev pub Changed : ℕ → ℕ → Bytes → W → W → Type 0
  Changed n offset bytes w w' =
      (k y : ℕ)
      → view.byte w' k y
        ≡ (if k == n then overlay offset bytes (view.byte w n) y else view.byte w k y)

module _ {W : Type 0} (services : Services W) (view : View W) where
  -- A write of a block threw this.
  abbrev pub WriteThrew : Error → Type 0
  WriteThrew e =
      (h : ℕ) × (bytes : Bytes) × (offset : ℕ) × (w : W) × ((services.write_block h bytes offset
          w).0
        ≡ throw e)

  -- What a round leaves: the block's bytes changed, if it does not throw.
  abbrev pub WrotePiece : ℕ → ℕ → Bytes → File W → Result (Unit {0}) × File W → Type 0
  WrotePiece n offset bytes s (ok _, s') =
      IsReady view s' × Changed view n offset bytes s.world s'.world
  WrotePiece n offset bytes s (throw e, s') = WriteThrew e
