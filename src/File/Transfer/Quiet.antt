-- ===== src/File/Transfer/Quiet.antt =====
-- The calls of ReadWrite (src/FileIo.cc) that leave the bytes of a file as they are.
use kineticio.Prelude.{
  ℕ, ◌≡◌, refl, ◌∙◌, sym, Bool, true, false, not, List, [], ◌∷◌, Option, some, Result, ok, throw,
  Error, Bool-cases, Option-cases, inl, inr, if◌then◌else◌, ◌==◌,
}
use kineticio.Str.{Bytes}
use kineticio.Words.{int_lt}
use kineticio.DataBlock.{standard}
use kineticio.Prefetch.{add, predict, continue}
use kineticio.Prefetch.Predictions.{Positive, predict-IsChosen}
use kineticio.File.{File}
use kineticio.File.Action.{Action, ◌>>=◌, after, Loop, before, then_after}
use kineticio.File.Services.{Services}
use kineticio.File.Store.{View, Keeps, Store, Keeps-refl, Keeps-trans}
use kineticio.File.Transfer.{readahead_length, rethrow, read_ahead, schedule_readahead}

pub ok_throw : {A : Type 0} {a : A} {e : Error} → ok a ≡ throw e → ⊥
ok_throw h = cc h

-- A step and what follows it: a claim that holds on both outcomes of the step.
pub outcome :
    {S A B : Type 0} (Q : Result B × S → Type 0) (step : Action S A) (next : A → Action S B) (s : S)
    → ((a : A) → (step s).0 ≡ ok a → Q (next a (step s).1))
    → ((e : Error) → (step s).0 ≡ throw e → Q (throw e, (step s).1))
    → Q ((step >>= next) s)
outcome {S} {A} {B} Q step next s good bad = split (step s).0 refl
  where
    split : (r : Result A) → (step s).0 ≡ r → Q (after next (step s).0 (step s).1)
    split (ok a) e = rw e (good a e)
    split (throw err) e = rw e (bad err e)

pub on_opened :
    {A : Type 0} (Q : A → Type 0) (opened : Bool) (x y : A)
    → opened ≡ true
    → Q y
    → Q (if not opened then x else y)
on_opened Q true x y e holds = holds
on_opened Q false x y e holds = cc e

pub before_outcome :
    {S A B : Type 0} (Q : Option (Result B × S) → Type 0) (step : Action S A) (next : A → Loop S B)
    (s : S)
    → ((a : A) → (step s).0 ≡ ok a → Q (next a (step s).1))
    → ((e : Error) → (step s).0 ≡ throw e → Q (some (throw e, (step s).1)))
    → Q (before step next s)
before_outcome {S} {A} {B} Q step next s good bad = split (step s).0 refl
  where
    split : (r : Result A) → (step s).0 ≡ r → Q (then_after next (step s).0 (step s).1)
    split (ok a) e = rw e (good a e)
    split (throw err) e = rw e (bad err e)

-- It is thrown again as it is.
pub rethrow-throw :
    {W : Type 0} (services : Services W) (path : Bytes) (s : File W) {e : Error}
    → (rethrow services path s).0 ≡ throw e
    → (services.next_exception s.world).0 ≡ some e
unfolding rethrow
rethrow-throw services path s thrown = elim (Option-cases (services.next_exception s.world).0) [
  | inl e ↦ absurd (ok_throw (sym (rw (e, rethrow) refl) ∙ thrown))
  | inr (err, e) ↦
      let same : (rethrow services path s).0 ≡ throw err = rw (e, rethrow) refl in
      cc (same, thrown, e)
]

module _ {W : Type 0} (services : Services W) (view : View W) (laws : Store services view)
    (path : Bytes) where
  read_ahead-Keeps :
      (eof : ℕ) (ps : List ℕ) (w : W)
      → Positive ps
      → view.Good w
      → Keeps view w (read_ahead services path eof ps w)
  unfolding read_ahead
  read_ahead-Keeps eof [] w h good = Keeps-refl view w good
  read_ahead-Keeps eof (p ∷ ps) w h good = elim (Bool-cases (int_lt p eof)) [
    | inl e ↦
        let got = services.get_data_key p standard w in
        let first = laws.keeps_get p w good h.1 in
        let second = laws.keeps_try_read_ahead got.0 p got.1 first.0.0 first.1 in
        let w' = services.try_read_ahead got.0 got.1 in
        rw e (
          Keeps-trans view w w' (read_ahead services path eof ps w')
            (Keeps-trans view w got.1 w' first.0 second) (read_ahead-Keeps eof ps w' h.2 second.0))
    | inr e ↦ rw e (read_ahead-Keeps eof ps w h.2 good)
  ]

  -- A step that changes neither the bytes nor the last block number.
  abbrev pub Quiet : File W → File W → Type 0
  Quiet s s' =
      Keeps view s.world s'.world
      × (s'.eof_blocknumber ≡ s.eof_blocknumber)
      × (s'.opened ≡ s.opened)

  pub schedule_readahead-Quiet :
      (number : ℕ) (s : File W)
      → view.Good s.world
      → Quiet s (schedule_readahead services path number s).1
        × ((schedule_readahead services path number s).0 ≡ ok tt)
  unfolding schedule_readahead
  schedule_readahead-Quiet number s good =
      let o = add number s.oracle in
      let wanted =
        readahead_length services path services.readahead_window (services.current_size s.world)
          (services.cache_capacity s.world) in
      elim (Bool-cases (wanted == 0)) [
        | inl e ↦ rw e ((Keeps-refl view s.world good, refl, refl), refl)
        | inr e ↦
            let positive = (predict-IsChosen services.walk wanted continue o).positive in
            rw e (
              (
                read_ahead-Keeps s.eof_blocknumber (predict services.walk wanted continue o).0
                    s.world positive good,
                refl,
                refl,
              ),
              refl,
            )
      ]

  -- An exception of before.
  pub rethrow-Quiet : (s : File W) → view.Good s.world → Quiet s (rethrow services path s).1
  unfolding rethrow
  rethrow-Quiet s good =
      let kept = laws.keeps_next_exception s.world good in
      elim (Option-cases (services.next_exception s.world).0) [
        | inl e ↦ rw (e, rethrow) (kept, refl, refl)
        | inr (_, e) ↦ rw (e, rethrow) (kept, refl, refl)
      ]
