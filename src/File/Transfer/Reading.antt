-- ===== src/File/Transfer/Reading.antt =====
-- A round of a Read of src/FileIo.cc.
use kineticio.Prelude.{
  ℕ, ◌+◌, ◌≤◌, ◌<◌, ◌≡◌, ◌∙◌, sym, ap, subst, true, false, length, ◌⊎◌, Error, Result, ok, throw,
  Bool-cases, inl, inr, ltb, arith,
}
use kineticio.Str.{Bytes}
use kineticio.Words.{int_half, int_lt}
use kineticio.DataBlock.{standard}
use kineticio.File.{File}
use kineticio.File.Action.{return}
use kineticio.File.Services.{Services}
use kineticio.File.Flat.{slice, slice_cong}
use kineticio.File.Store.{View, Store}
use kineticio.File.Transfer.{
  Piece, ReadStep, next, retry, last, get_eof_backend, schedule_readahead, verify_eof, count_last,
  read_last, read_piece, call_throwing,
}
use kineticio.File.Transfer.Quiet.{ok_throw, outcome, schedule_readahead-Quiet}
use kineticio.File.Transfer.Ends.{Steady, verify_eof-Steady}

module _ {W : Type 0} (view : View W) where
  -- The file is usable.
  abbrev pub IsUsable : File W → Type 0
  IsUsable s = view.Good s.world × (s.eof_blocknumber < int_half)

  abbrev pub Same : File W → File W → Type 0
  Same s s' = (k y : ℕ) → view.byte s'.world k y ≡ view.byte s.world k y

  -- The bytes are those of the block, and at most the length of the piece counts at the end of a
  -- file. A round is repeated only if the last block number has passed its block.
  abbrev pub StepOf : Piece → ℕ → File W → ReadStep → File W → Type 0
  StepOf p k s (next bytes) s' = bytes ≡ slice p.block_offset k (view.byte s.world p.block_number)
  StepOf p k s (retry bytes) s' =
      (bytes ≡ slice p.block_offset k (view.byte s.world p.block_number))
      × (int_lt p.block_number s.eof_blocknumber ≡ false)
      × (int_lt p.block_number s'.eof_blocknumber ≡ true)
  StepOf p k s (last bytes n) s' =
      (bytes ≡ slice p.block_offset k (view.byte s.world p.block_number)) × (n ≤ p.block_length)

module _ {W : Type 0} (services : Services W) (path : Bytes) (view : View W) where
  -- A read of a block, its size or the search for the last block threw this.
  abbrev pub ReadThrew : Error → Type 0
  ReadThrew e =
      ((h : ℕ) × (buffer : Bytes) × (offset : ℕ) × (w : W) × ((services.read_block h buffer offset
            w).0
          ≡ throw e))
      ⊎ (((h : ℕ) × (w : W) × ((services.size_block h w).0 ≡ throw e))
          ⊎ ((s : File W) × ((get_eof_backend services path s).0 ≡ throw e)))

  abbrev pub ReadPiece : Piece → ℕ → File W → Result ReadStep × File W → Type 0
  ReadPiece p k s (ok step, s') = IsUsable view s' × Same view s s' × StepOf view p k s step s'
  ReadPiece p k s (throw e, s') = ReadThrew e

module _ {W : Type 0} (services : Services W) (view : View W) (laws : Store services view)
    (path : Bytes) where
  abbrev Counted : Piece → File W → Result ℕ × File W → Type 0
  Counted p s (ok n, s') = IsUsable view s' × Same view s s' × (n ≤ p.block_length)
  Counted p s (throw e, s') = ReadThrew services path view e

  count_last-Counted :
      (p : Piece) (h : ℕ) (s : File W)
      → IsUsable view s
      → view.Names s.world h p.block_number
      → Counted p s (count_last services path p h s)
  unfolding count_last
  count_last-Counted p h s usable named =
      let kept = laws.keeps_size h p.block_number s.world usable.0 named in
      let (r, w) = services.size_block h s.world in
      let s1 = record s { world = w } in
      outcome (Counted p s) (call_throwing services path (services.size_block h)) _ s
        (λ size _. elim (Bool-cases (ltb p.block_offset size)) [
          | inl e ↦
              let again =
                laws.keeps_size h p.block_number w kept.0 (kept.2 h p.block_number named) in
              let same : Same view s (record s { world = (services.size_block h w).1 }) =
                λ k y. again.1 k y ∙ kept.1 k y in
              rw e (
                outcome (Counted p s) (call_throwing services path (services.size_block h)) _ s1
                  (λ _ _. ((again.0, usable.1), same, omega arith)) (λ _ f. inr (inl (h, w, f))))
          | inr e ↦ rw e ((kept.0, usable.1), kept.1, omega arith)
        ])
        (λ _ f. inr (inl (h, s.world, f)))

  read_last-ReadPiece :
      (p : Piece) (h k : ℕ) (bytes : Bytes) (s : File W)
      → IsUsable view s
      → view.Names s.world h p.block_number
      → bytes ≡ slice p.block_offset k (view.byte s.world p.block_number)
      → int_lt p.block_number s.eof_blocknumber ≡ false
      → ReadPiece services path view p k s (read_last services path p h bytes s)
  unfolding read_last
  read_last-ReadPiece p h k bytes s usable named content at_end =
      let verified = verify_eof-Steady services view laws path s usable.0 usable.1 in
      let s1 = (verify_eof services path s).1 in
      outcome (ReadPiece services path view p k s) (verify_eof services path) _ s
        (λ _ g.
          let steady = subst (λ r. Steady services view laws path s (r, s1)) g verified in
          let usable1 : IsUsable view s1 = (steady.0.0, steady.1) in
          elim (Bool-cases (int_lt p.block_number s1.eof_blocknumber)) [
            | inl e ↦ rw e (usable1, steady.0.1, (content, at_end, e))
            | inr e ↦
                let count = count_last-Counted p h s1 usable1 (steady.0.2 h p.block_number named) in
                let s2 = (count_last services path p h s1).1 in
                rw e (
                  outcome (ReadPiece services path view p k s) (count_last services path p h)
                    (λ n. return (last bytes n)) s1
                    (λ n f.
                      let counted = subst (λ r. Counted p s1 (r, s2)) f count in
                      (counted.0, (λ x y. counted.1 x y ∙ steady.0.1 x y), (content, counted.2)))
                    (λ _ f. subst (λ r. Counted p s1 (r, s2)) f count))
          ])
        (λ _ g. inr (inr (subst (λ r. Steady services view laws path s (r, s1)) g verified)))

  -- What a step does, seen from a state with the same bytes.
  read_after :
      (p : Piece) (k : ℕ) (s s1 : File W) (r : Result ReadStep × File W)
      → Same view s s1
      → s1.eof_blocknumber ≡ s.eof_blocknumber
      → ReadPiece services path view p k s1 r
      → ReadPiece services path view p k s r
  read_after p k s s1 (throw _, s2) same eof read = read
  read_after p k s s1 (ok (next bytes), s2) same eof read = (
    read.0,
    λ x y. read.1 x y ∙ same x y,
    read.2 ∙ slice_cong p.block_offset k _ _ (same p.block_number),
  )
  read_after p k s s1 (ok (retry bytes), s2) same eof read = (
    read.0,
    λ x y. read.1 x y ∙ same x y,
    (
      read.2.0 ∙ slice_cong p.block_offset k _ _ (same p.block_number),
      ap (int_lt p.block_number) (sym eof) ∙ read.2.1,
      read.2.2,
    ),
  )
  read_after p k s s1 (ok (last bytes n), s2) same eof read = (
    read.0,
    λ x y. read.1 x y ∙ same x y,
    (read.2.0 ∙ slice_cong p.block_offset k _ _ (same p.block_number), read.2.1),
  )

  pub read_piece-ReadPiece :
      (p : Piece) (buffer : Bytes) (s : File W)
      → IsUsable view s
      → p.block_number < int_half
      → p.block_offset + length buffer ≤ services.max_value_size
      → ReadPiece services path view p (length buffer) s (read_piece services path p buffer s)
  unfolding read_piece
  read_piece-ReadPiece p buffer s usable small fits =
      let n = p.block_number in
      let k = length buffer in
      let got = laws.keeps_get n s.world usable.0 small in
      let (h, w) = services.get_data_key n standard s.world in
      let s1 = record s { world = w } in
      let quiet = schedule_readahead-Quiet services view laws path n s1 got.0.0 in
      let s2 = (schedule_readahead services path n s1).1 in
      let named = quiet.0.0.2 h n got.1 in
      let kept = laws.keeps_read h n buffer p.block_offset s2.world quiet.0.0.0 named fits in
      let s3 = record s2 { world = (services.read_block h buffer p.block_offset s2.world).1 } in
      let same : Same view s s3 = λ x y. kept.1 x y ∙ quiet.0.0.1 x y ∙ got.0.1 x y in
      let usable3 : IsUsable view s3 = (kept.0, rw quiet.0.1 usable.1) in
      outcome (ReadPiece services path view p k s) (schedule_readahead services path n) _ s1
        (λ _ _.
          outcome (ReadPiece services path view p k s)
            (call_throwing services path (services.read_block h buffer p.block_offset)) _ s2
            (λ bytes e.
              let law =
                laws.read_law h n buffer p.block_offset s2.world bytes quiet.0.0.0 named fits e in
              let content = law ∙ slice_cong p.block_offset k _ _ (λ y. sym (kept.1 n y)) in
              elim (Bool-cases (int_lt n s3.eof_blocknumber)) [
                | inl f ↦ rw f (usable3, same, content ∙ slice_cong p.block_offset k _ _ (same n))
                | inr f ↦ rw f (
                    read_after p k s s3 _ same quiet.0.1
                      (read_last-ReadPiece p h k bytes s3 usable3 (kept.2 h n named) content f))
              ])
            (λ _ e. inl (h, buffer, p.block_offset, s2.world, e)))
        (λ _ e. absurd (ok_throw (sym quiet.1 ∙ e)))
