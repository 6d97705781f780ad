-- ===== src/Operation/Outstanding.antt =====
-- The count of outstanding requests that a waiting thread reads: CallbackSynchronization and
-- KineticCallback of src/KineticCallbacks.cc. OnResult and wait_until hold the mutex, so
-- each is one step; the constructor of a callback raises the count without it, and is taken as one step
-- too, since it runs before the request is sent. (KineticCallback::reset is not called anywhere.)
use kineticio.Prelude.{
  ℕ, zero, suc, ◌+◌, ◌-◌, ◌<◌, ◌≡◌, refl, Bool, true, false, List, [], ◌∷◌, ◌++◌, none, some,
  get_elem?, set, ltb, ◌==◌, not, ◌&&◌, ◌||◌, Option-cases, if◌then◌else◌, arith, Bool-cases, ◌↔◌,
  inl, inr,
}
use kineticio.Kinetic.{StatusCode}
use kineticio.Operation.{Callback, callback, on_result}

module _ (A : Type 0) where
  -- `notified` tells that the condition variable was notified.
  pub record Synchronization : Type 0 where
    pub outstanding : ℕ
    pub notified : Bool
    pub callbacks : List (Callback A)

  -- The constructor of a CallbackSynchronization.
  unfoldable pub no_callbacks : Synchronization
  no_callbacks = record { outstanding = 0; notified = false; callbacks = [] }

  -- The constructor of a KineticCallback.
  unfoldable pub register : A → Synchronization → Synchronization
  register a s = record s {
    outstanding = s.outstanding + 1;
    callbacks = s.callbacks ++ callback a ∷ [];
  }

  -- OnResult of callback `i`
  unfoldable pub receive : ℕ → StatusCode → Synchronization → Synchronization
  receive i result s = elim (get_elem? s.callbacks i) [
    | none ↦ s
    | some cb ↦ if cb.done then s else record s {
      outstanding = s.outstanding - 1;
      notified = s.notified || s.outstanding - 1 == 0;
      callbacks = set s.callbacks i (on_result result cb);
    }
  ]

  -- The test of wait_until, at a time and for the time at which it gives up.
  unfoldable pub keeps_waiting : ℕ → ℕ → Synchronization → Bool
  keeps_waiting now timeout_time s = not (s.outstanding == 0) && ltb now timeout_time

  abbrev pub unfinished : List (Callback A) → ℕ
  unfinished [] = 0
  unfinished (cb ∷ cbs) = if cb.done then unfinished cbs else unfinished cbs + 1

  pub data Reached : Synchronization → Type 0 where
    start : Reached no_callbacks
    registered : {s : Synchronization} (a : A) → Reached s → Reached (register a s)
    received :
        {s : Synchronization} (i : ℕ) (result : StatusCode)
        → Reached s
        → Reached (receive i result s)

  unfinished-append :
      (cbs : List (Callback A)) (a : A) → unfinished (cbs ++ callback a ∷ []) ≡ unfinished cbs + 1
  unfinished-append [] a = refl
  unfinished-append (cb ∷ cbs) a = ground (arith, unfinished-append cbs a)

  unfinished-set :
      (cbs : List (Callback A)) (i : ℕ) (cb : Callback A) (result : StatusCode)
      → get_elem? cbs i ≡ some cb
      → cb.done ≡ false
      → unfinished (set cbs i (on_result result cb)) + 1 ≡ unfinished cbs
  unfinished-set [] i cb result h k = cc
  unfinished-set (c ∷ cbs) zero cb result h k =
      let same : c ≡ cb = cc in let open_c : c.done ≡ false = cc in rw (k, open_c) refl
  unfinished-set (c ∷ cbs) (suc i) cb result h k =
      ground (arith, unfinished-set cbs i cb result h k)

  -- Every callback is done.
  abbrev pub AllDone : List (Callback A) → Type 0
  AllDone [] = Unit {0}
  AllDone (cb ∷ cbs) = (cb.done ≡ true) × AllDone cbs

  unfinished-AllDone : (cbs : List (Callback A)) → unfinished cbs ≡ 0 → AllDone cbs
  unfinished-AllDone [] h = tt
  unfinished-AllDone (cb ∷ cbs) h = elim (Bool-cases cb.done) [
    | inl e ↦ (e, unfinished-AllDone cbs (ground (arith, e, h)))
    | inr e ↦ absurd (ground (arith, e, h))
  ]

  AllDone-unfinished : (cbs : List (Callback A)) → AllDone cbs → unfinished cbs ≡ 0
  AllDone-unfinished [] h = refl
  AllDone-unfinished (cb ∷ cbs) (e, h) = rw e (AllDone-unfinished cbs h)

  -- The result of a callback that has none yet.
  abbrev stored : ℕ → Callback A → Synchronization → Synchronization
  stored i cb s = record s {
    outstanding = s.outstanding - 1;
    notified = s.notified || s.outstanding - 1 == 0;
    callbacks = set s.callbacks i cb;
  }

  receive_open :
      (i : ℕ) (result : StatusCode) (s : Synchronization) (cb : Callback A)
      → get_elem? s.callbacks i ≡ some cb
      → cb.done ≡ false
      → receive i result s ≡ stored i (on_result result cb) s
  unfolding receive
  receive_open i result s cb h k = ground (arith, h, k)

  receive-unfinished :
      (i : ℕ) (result : StatusCode) (s : Synchronization)
      → s.outstanding ≡ unfinished s.callbacks
      → (receive i result s).outstanding ≡ unfinished (receive i result s).callbacks
  unfolding receive
  receive-unfinished i result s h = elim (Option-cases (get_elem? s.callbacks i)) [
    | inl e ↦ rw (e, receive) h
    | inr (cb, e) ↦ elim (Bool-cases cb.done) [
      | inl f ↦ rw (e, receive, f) h
      | inr f ↦
          rw (receive_open i result s cb e f)
            (omega (arith, unfinished-set s.callbacks i cb result e f))
    ]
  ]

  Reached-unfinished : {s : Synchronization} → Reached s → s.outstanding ≡ unfinished s.callbacks
  unfolding no_callbacks register
  Reached-unfinished start = refl
  Reached-unfinished (registered {s} a r) =
      omega (arith, Reached-unfinished r, unfinished-append s.callbacks a)
  Reached-unfinished (received {s} i result r) =
      receive-unfinished i result s (Reached-unfinished r)

  -- Whatever callbacks were made and whatever results they received, also more than one each: before
  -- the time to give up, a thread in wait_until goes on exactly when every callback has a result.
  pub keeps_waiting-AllDone :
      {s : Synchronization} (now timeout_time : ℕ)
      → Reached s
      → now < timeout_time
      → (keeps_waiting now timeout_time s ≡ false) ↔ AllDone s.callbacks
  unfolding keeps_waiting
  keeps_waiting-AllDone {s} now timeout_time reached early =
      let counted = Reached-unfinished reached in
      (
        λ h. unfinished-AllDone s.callbacks (ground (arith, counted, h)),
        λ h. ground (arith, counted, AllDone-unfinished s.callbacks h),
      )

  receive-done :
      (i : ℕ) (result : StatusCode) (s : Synchronization) (cb : Callback A)
      → get_elem? s.callbacks i ≡ some cb
      → cb.done ≡ true
      → receive i result s ≡ s
  unfolding receive
  receive-done i result s cb h k = rw (h, receive, k)

  get_elem?-set :
      (cbs : List (Callback A)) (i : ℕ) (cb new : Callback A)
      → get_elem? cbs i ≡ some cb
      → get_elem? (set cbs i new) i ≡ some new
  get_elem?-set [] i cb new h = cc
  get_elem?-set (c ∷ cbs) zero cb new h = refl
  get_elem?-set (c ∷ cbs) (suc i) cb new h = get_elem?-set cbs i cb new h

  -- The first result of a callback stands: a later one, such as the answer after a timeout, changes
  -- nothing.
  pub receive-receive :
      (i : ℕ) (first later : StatusCode) (s : Synchronization)
      → receive i later (receive i first s) ≡ receive i first s
  unfolding receive
  receive-receive i first later s = elim (Option-cases (get_elem? s.callbacks i)) [
    | inl e ↦ ground (arith, e)
    | inr (cb, e) ↦ elim (Bool-cases cb.done) [
      | inl f ↦ rw (receive-done i first s cb e f) (receive-done i later s cb e f)
      | inr f ↦ rw (receive_open i first s cb e f) (
          receive-done i later (stored i (on_result first cb) s) (on_result first cb)
            (get_elem?-set s.callbacks i cb (on_result first cb) e) (simp f))
    ]
  ]
