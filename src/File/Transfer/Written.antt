-- ===== src/File/Transfer/Written.antt =====
-- The whole of a Write of src/FileIo.cc against one function of bytes.
use kineticio.Prelude.{
  ◌-◌, subst, ℕ, zero, suc, ◌+◌, ◌*◌, ◌≤◌, ◌<◌, ◌≡◌, refl, ap, ◌∙◌, sym, true, [], ◌∷◌, Option,
  none, some, length, take, drop, length-take, length-drop, Result, ok, throw, ◌⊎◌, inl, inr,
  Result-cases, ◌/◌, ◌%◌, arith,
}
use native.Mathlib.Nat.{mod-eq_of_lt}
use kineticio.Str.{Bytes, size_add}
use kineticio.File.{File}
use kineticio.File.Action.{finally, done, return}
use kineticio.File.Services.{Services}
use kineticio.File.Flat.{overlay, flat, overlay-flat, overlay-take-drop, overlay_cong, divide}
use kineticio.File.Store.{View, Store, IsReady, Changed, WrotePiece, WriteThrew}
use kineticio.File.Transfer.{locate, write_piece, write_loop, write_file, rethrow}
use kineticio.File.Transfer.Pieces.{IsInRange, locate-IsPiece}
use kineticio.File.Transfer.Quiet.{on_opened, before_outcome, rethrow-Quiet, rethrow-throw}
use kineticio.File.Transfer.Writing.{write_piece-WrotePiece}

module _ {W : Type 0} (services : Services W) (view : View W) where
  -- The bytes of the file are those laid over the ones before, and it is ready again.
  abbrev pub IsOverlaid : ℕ → Bytes → File W → File W → Type 0
  IsOverlaid position bytes s s' =
      IsReady view s'
      × ((x : ℕ)
          → flat services.max_value_size (view.byte s'.world) x
            ≡ overlay position bytes (flat services.max_value_size (view.byte s.world)) x)

  abbrev pub IsWritten : ℕ → Bytes → File W → Option (Result (Unit {0}) × File W) → Type 0
  IsWritten position bytes s none = ⊥
  IsWritten position bytes s (some (throw e, s')) = WriteThrew services view e
  IsWritten position bytes s (some (ok _, s')) = IsOverlaid position bytes s s'

  -- A round, and the rounds after it.
  IsOverlaid-piece :
      (position n offset k : ℕ) (bytes : Bytes) (s s1 s2 : File W)
      → 0 < services.max_value_size
      → n * services.max_value_size + offset ≡ position
      → offset + k ≤ services.max_value_size
      → k ≤ length bytes
      → Changed view n offset (take k bytes) s.world s1.world
      → IsOverlaid (position + k) (drop k bytes) s1 s2
      → IsOverlaid position bytes s s2
  IsOverlaid-piece position n offset k bytes s s1 s2 some_byte at fits inside changed rest =
      let capacity = services.max_value_size in
      let taken : length (take k bytes) ≡ k = omega (arith, length-take k bytes) in
      (
        rest.0,
        λ x.
            let piece =
              overlay-flat capacity (view.byte s.world) (view.byte s1.world) n offset (take k bytes)
                some_byte (rw taken fits) changed x in
            rest.1 x
            ∙ overlay_cong (position + k) (drop k bytes) (flat capacity (view.byte s1.world))
                (overlay position (take k bytes) (flat capacity (view.byte s.world))) x
                (rw (sym at) piece)
            ∙ overlay-take-drop position k bytes (flat capacity (view.byte s.world)) x inside,
      )

  IsWritten-piece :
      (position n offset k : ℕ) (bytes : Bytes) (s s1 : File W)
      (o : Option (Result (Unit {0}) × File W))
      → 0 < services.max_value_size
      → n * services.max_value_size + offset ≡ position
      → offset + k ≤ services.max_value_size
      → k ≤ length bytes
      → Changed view n offset (take k bytes) s.world s1.world
      → IsWritten (position + k) (drop k bytes) s1 o
      → IsWritten position bytes s o
  IsWritten-piece position n offset k bytes s s1 none some_byte at fits inside changed rest = rest
  IsWritten-piece position n offset k bytes s s1 (some (throw _, s2)) some_byte at fits inside
        changed rest =
      rest
  IsWritten-piece position n offset k bytes s s1 (some (ok _, s2)) some_byte at fits inside changed
        rest =
      IsOverlaid-piece position n offset k bytes s s1 s2 some_byte at fits inside changed rest

  -- The position lies no further into its block than the block has bytes.
  abbrev pub IsJoined : ℕ → W → Type 0
  IsJoined position w =
      position % services.max_value_size ≤ view.size w (position / services.max_value_size)

  IsJoined-piece :
      (position n offset : ℕ) (w : W)
      → offset < services.max_value_size
      → n * services.max_value_size + offset ≡ position
      → IsJoined position w
      → offset ≤ view.size w n
  IsJoined-piece position n offset w inside at joined =
      let (number, rest) = divide services.max_value_size n offset inside in
      let number' : position / services.max_value_size ≡ n =
        ap (λ x. x / services.max_value_size) (sym at) ∙ number in
      let rest' : position % services.max_value_size ≡ offset =
        ap (λ x. x % services.max_value_size) (sym at) ∙ rest in
      subst (λ m. offset ≤ view.size w m) number' (omega (arith, rest', joined))

  -- So does the beginning of a block.
  IsJoined-next :
      (position n : ℕ) (w : W)
      → 0 < services.max_value_size
      → n * services.max_value_size ≡ position
      → IsJoined position w
  IsJoined-next position n w some_byte at =
      let (number, rest) = divide services.max_value_size n 0 some_byte in
      let at' : n * services.max_value_size + 0 ≡ position = omega (arith, at) in
      let none_before : position % services.max_value_size ≡ 0 =
        ap (λ x. x % services.max_value_size) (sym at') ∙ rest in
      omega (arith, none_before)

  module _ (laws : Store services view) (path : Bytes) where
    write_loop-IsWritten :
        (fuel position : ℕ) (bytes : Bytes) (s : File W)
        → length bytes < fuel
        → IsInRange services.max_value_size position (length bytes)
        → IsReady view s
        → (0 < length bytes → IsJoined position s.world)
        → IsWritten position bytes s (write_loop services path fuel position bytes s)
    unfolding write_loop
    write_loop-IsWritten zero position bytes s enough range ready joined = absurd (omega arith)
    write_loop-IsWritten (suc fuel) position [] s enough range ready joined = (ready, λ x. refl)
    write_loop-IsWritten (suc fuel) position (b ∷ bytes) s enough range ready joined =
        let todo = b ∷ bytes in
        let p = locate services path position (length todo) in
        let piece = locate-IsPiece services path position (length todo) (omega arith) range in
        let now = take p.block_length todo in
        let step = write_piece services path p now s in
        let taken : length now ≡ p.block_length =
          omega (arith, length-take p.block_length todo, piece.3) in
        let wrote =
          write_piece-WrotePiece services view laws path p now s ready piece.0 (rw taken piece.4) (
            IsJoined-piece position p.block_number p.block_offset s.world
              (omega (arith, piece.2, piece.4)) piece.1 (joined (omega arith))) in
        elim (Result-cases step.0) [
          | inl (_, e) ↦
              let (ready', changed) =
                subst
                  (λ r. WrotePiece services view p.block_number p.block_offset now s (r, step.1)) e
                  wrote in
              let next : size_add position p.block_length ≡ position + p.block_length =
                mod-eq_of_lt (omega (arith, piece.3, range.3)) in
              let left : length (drop p.block_length todo) ≡ length todo - p.block_length =
                length-drop p.block_length todo in
              let rest =
                write_loop-IsWritten fuel (position + p.block_length) (drop p.block_length todo)
                  step.1 (omega (arith, left, piece.2, enough))
                  (
                    range.0,
                    range.1,
                    omega (arith, left, piece.3, range.2),
                    omega (arith, left, piece.3, range.3),
                  )
                  ready'
                  (λ some_left. elim piece.5 [
                    | inl whole ↦ absurd (omega (arith, left, whole, some_left))
                    | inr full ↦
                        IsJoined-next (position + p.block_length) (suc p.block_number) step.1.world
                          range.0 (omega (arith, piece.1, full))
                  ]) in
              rw (e, write_loop, next)
                (IsWritten-piece position p.block_number p.block_offset p.block_length todo s step.1
                  _ range.0 piece.1 piece.4 piece.3 changed rest)
          | inr (err, e) ↦
              rw (e, write_loop)
                (subst
                  (λ r. WrotePiece services view p.block_number p.block_offset now s (r, step.1)) e
                  wrote)
        ]

  -- What a Write comes to: it throws, or it writes the whole buffer.
  abbrev pub IsWriteOf : ℕ → Bytes → File W → Option (Result ℕ × File W) → Type 0
  IsWriteOf position bytes s none = ⊥
  IsWriteOf position bytes s (some (throw e, s')) =
      ((services.next_exception s.world).0 ≡ some e) ⊎ WriteThrew services view e
  IsWriteOf position bytes s (some (ok n, s')) = (n ≡ length bytes) × IsOverlaid position bytes s s'

  report_written :
      (position : ℕ) (bytes : Bytes) (s s1 : File W) (o : Option (Result (Unit {0}) × File W))
      → ((k y : ℕ) → view.byte s1.world k y ≡ view.byte s.world k y)
      → IsWritten position bytes s1 o
      → IsWriteOf position bytes s (finally (λ _. done (return (length bytes))) o)
  report_written position bytes s s1 none same written = written
  report_written position bytes s s1 (some (throw _, s2)) same written = inr written
  report_written position bytes s s1 (some (ok _, s2)) same written =
      let capacity = services.max_value_size in
      (
        refl,
        (
          written.0,
          λ x.
              written.1 x
              ∙ overlay_cong position bytes (flat capacity (view.byte s1.world))
                  (flat capacity (view.byte s.world)) x (same (x / capacity) (x % capacity)),
        ),
      )

  module _ (laws : Store services view) (path : Bytes) where
    -- Where the calls of a file keep the laws of File/Store, a Write to an open file that has no
    -- bytes past its last block, from a position up to which its block has bytes, in the range of
    -- int block numbers and size_t positions, ends in as many rounds as there are bytes and one
    -- more. It throws only what was pending or a write of a block threw; otherwise it returns the
    -- length, the bytes of the file as one function are the buffer laid over those before, and the
    -- file has no bytes past its last block again.
    pub write_file-IsWriteOf :
        (fuel position : ℕ) (bytes : Bytes) (s : File W)
        → length bytes < fuel
        → IsInRange services.max_value_size position (length bytes)
        → IsReady view s
        → IsJoined position s.world
        → s.opened ≡ true
        → IsWriteOf position bytes s (write_file services path fuel position bytes s)
    unfolding write_file
    write_file-IsWriteOf fuel position bytes s enough range ready joined opened =
        let quiet = rethrow-Quiet services view laws path s ready.0 in
        let s1 = (rethrow services path s).1 in
        let ready1 : IsReady view s1 = (
          quiet.0.0,
          rw quiet.1 ready.1,
          λ n y above. quiet.0.1 n y ∙ ready.2 n y (omega (arith, above, quiet.1)),
        ) in
        let joined1 : IsJoined position s1.world =
          omega (arith, joined, quiet.0.3 (position / services.max_value_size)) in
        on_opened (IsWriteOf position bytes s) s.opened _ _ opened (
          before_outcome (IsWriteOf position bytes s) (rethrow services path) _ s
            (λ _ _. report_written position bytes s s1 _ quiet.0.1 (
              write_loop-IsWritten laws path fuel position bytes s1 enough range ready1
                (λ _. joined1)))
            (λ _ e. inl (rethrow-throw services path s e)))
