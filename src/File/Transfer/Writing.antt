-- ===== src/File/Transfer/Writing.antt =====
-- Write of src/FileIo.cc against one function of bytes.
use kineticio.Prelude.{
  ℕ, ◌+◌, ◌≤◌, ◌<◌, ◌≡◌, refl, ◌∙◌, sym, Bool, true, false, length, Result, ok, throw, Bool-cases,
  inl, inr, ◌==◌, arith,
}
use kineticio.Str.{Bytes, size_add}
use kineticio.Words.{int_half, int_lt, int_lt_small}
use kineticio.DataBlock.{standard, create}
use kineticio.File.{File}
use kineticio.File.Action.{◌>>◌, after, when}
use kineticio.File.Services.{Services}
use kineticio.File.Flat.{overlay_cong}
use kineticio.File.Store.{View, Store, IsReady, Changed, WrotePiece, WriteThrew}
use kineticio.File.Transfer.{
  Piece, schedule_readahead, claim_block, write_piece, call_throwing, change,
}
use kineticio.File.Transfer.Quiet.{ok_throw, outcome, schedule_readahead-Quiet}

module _ {W : Type 0} (services : Services W) (view : View W) (laws : Store services view)
    (path : Bytes) where
  abbrev Wrote : ℕ → ℕ → Bytes → File W → Result (Unit {0}) × File W → Type 0
  Wrote n offset bytes s (ok _, s') =
      view.Good s'.world
      × Changed view n offset bytes s.world s'.world
      × (s'.eof_blocknumber ≡ s.eof_blocknumber)
  Wrote n offset bytes s (throw e, s') = WriteThrew services view e

  -- The bytes as they are, before and after the write.
  Changed-trans :
      (n offset : ℕ) (bytes : Bytes) (w w1 w2 w3 : W)
      → ((k y : ℕ) → view.byte w1 k y ≡ view.byte w k y)
      → Changed view n offset bytes w1 w2
      → ((k y : ℕ) → view.byte w3 k y ≡ view.byte w2 k y)
      → Changed view n offset bytes w w3
  Changed-trans n offset bytes w w1 w2 w3 before change after k y = elim (Bool-cases (k == n)) [
    | inl e ↦
        after k y
        ∙ change k y
        ∙ rw e (overlay_cong offset bytes (view.byte w1 n) (view.byte w n) y (before n y))
    | inr e ↦ after k y ∙ change k y ∙ rw e (before k y)
  ]

  -- The flush of a block that is full.
  flush_full :
      (b : Bool) (h n offset : ℕ) (bytes : Bytes) (s0 s : File W)
      → view.Names s.world h n
      → Wrote n offset bytes s0 (ok tt, s)
      → Wrote n offset bytes s0 (when b (change services path (services.run_flush h)) s)
  flush_full false h n offset bytes s0 s named wrote = wrote
  flush_full true h n offset bytes s0 s named wrote =
      let kept = laws.keeps_run_flush h n s.world wrote.0 named in
      (
        kept.0,
        Changed-trans n offset bytes s0.world s0.world s.world (services.run_flush h s.world)
            (λ k y. refl) wrote.1 kept.1,
        wrote.2,
      )

  -- A round of a write once it has its block.
  write_block-Wrote :
      (p : Piece) (h : ℕ) (bytes : Bytes) (s : File W)
      → view.Good s.world
      → view.Names s.world h p.block_number
      → p.block_offset + length bytes ≤ services.max_value_size
      → p.block_offset ≤ view.size s.world p.block_number
      → Wrote p.block_number p.block_offset bytes s (
          (schedule_readahead services path p.block_number
              >> (call_throwing services path (services.write_block h bytes p.block_offset)
                  >> when
                      (size_add p.block_offset p.block_length == services.max_value_size)
                      (change services path (services.run_flush h))))
            s)
  write_block-Wrote p h bytes s good named fits joined =
      let n = p.block_number in
      let Q = Wrote n p.block_offset bytes s in
      let quiet = schedule_readahead-Quiet services view laws path n s good in
      let s1 = (schedule_readahead services path n s).1 in
      let kept = quiet.0.0 in
      outcome Q (schedule_readahead services path n) _ s
        (λ _ _.
          outcome Q (call_throwing services path (services.write_block h bytes p.block_offset)) _ s1
            (λ _ e.
              let law =
                laws.write_law h n bytes p.block_offset s1.world kept.0 (kept.2 h n named) fits
                  (omega (arith, kept.3 n, joined)) e in
              let w2 = (services.write_block h bytes p.block_offset s1.world).1 in
              flush_full (size_add p.block_offset p.block_length == services.max_value_size) h n
                p.block_offset bytes s (record s1 { world = w2 }) (law.2 h n (kept.2 h n named))
                (
                  law.0,
                  Changed-trans n p.block_offset bytes s.world s1.world w2 w2 kept.1 law.1
                      (λ k y. refl),
                  quiet.0.1,
                ))
            (λ _ e. (h, bytes, p.block_offset, s1.world, e)))
        (λ _ e. absurd (ok_throw (sym quiet.1 ∙ e)))

  -- From a state that has its block to the state before it was asked for.
  wrote_piece :
      (n offset : ℕ) (bytes : Bytes) (s s1 : File W) (r : Result (Unit {0}) × File W)
      → ((k y : ℕ) → view.byte s1.world k y ≡ view.byte s.world k y)
      → s1.eof_blocknumber < int_half
      → n ≤ s1.eof_blocknumber
      → ((m y : ℕ) → s1.eof_blocknumber < m → view.byte s.world m y ≡ 0)
      → Wrote n offset bytes s1 r
      → WrotePiece services view n offset bytes s r
  wrote_piece n offset bytes s s1 (throw e, s') same small inside fresh wrote = wrote
  wrote_piece n offset bytes s s1 (ok tt, s') same small inside fresh wrote =
      let changed =
        Changed-trans n offset bytes s.world s1.world s'.world s'.world same wrote.1
          (λ k y. refl) in
      let fresh' : (m y : ℕ) → s'.eof_blocknumber < m → view.byte s'.world m y ≡ 0 = λ m y above.
        let apart : (m == n) ≡ false = ground (arith, wrote.2, inside) in
        changed m y ∙ rw apart (fresh m y (omega (arith, wrote.2, above))) in
      ((wrote.0, omega (arith, wrote.2, small), fresh'), changed)

  pub write_piece-WrotePiece :
      (p : Piece) (bytes : Bytes) (s : File W)
      → IsReady view s
      → p.block_number < int_half
      → p.block_offset + length bytes ≤ services.max_value_size
      → p.block_offset ≤ view.size s.world p.block_number
      → WrotePiece services view p.block_number p.block_offset bytes s
          (write_piece services path p bytes s)
  unfolding write_piece claim_block
  write_piece-WrotePiece p bytes s ready small fits joined =
      let n = p.block_number in
      let compared = int_lt_small s.eof_blocknumber n ready.1 small in
      elim (Bool-cases (int_lt s.eof_blocknumber n)) [
        | inl e ↦
            let beyond : s.eof_blocknumber < n = ground (arith, compared, e) in
            let got = laws.keeps_create n s.world ready.0 small (λ y. ready.2 n y beyond) in
            let (h, w) = services.get_data_key n create s.world in
            let s1 = record s { eof_blocknumber = n; world = w } in
            let fresh : (m y : ℕ) → n < m → view.byte s.world m y ≡ 0 =
              λ m y above. ready.2 m y (omega arith) in
            rw e (
              wrote_piece n p.block_offset bytes s s1 _ got.0.1 small (omega arith) fresh (
                write_block-Wrote p h bytes s1 got.0.0 got.1 fits
                  (omega (arith, got.0.3 n, joined))))
        | inr e ↦
            let inside : n ≤ s.eof_blocknumber = ground (arith, compared, e) in
            let got = laws.keeps_get n s.world ready.0 small in
            let (h, w) = services.get_data_key n standard s.world in
            let s1 = record s { world = w } in
            rw e (
              wrote_piece n p.block_offset bytes s s1 _ got.0.1 ready.1 inside ready.2 (
                write_block-Wrote p h bytes s1 got.0.0 got.1 fits
                  (omega (arith, got.0.3 n, joined))))
      ]
