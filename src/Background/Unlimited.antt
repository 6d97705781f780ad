-- ===== src/Background/Unlimited.antt =====
-- Functions that are accepted without a queue, while none of their threads has counted itself.
use kineticio.Prelude.{
  ℕ, zero, suc, ◌+◌, ◌<◌, ◌≡◌, refl, ap, ◌∙◌, true, leb, false, List, [], ◌∷◌, ◌++◌, some, arith,
  replicate,
}
use kineticio.Background.{Handler, Event, try_run, try_run_noqueue, steps, take_task}

lt→leb : (a b : ℕ) → a < b → leb b a ≡ false
lt→leb a b h = ground arith

module _ {F : Type 0} (f : F) where
  -- The handler with `k` started threads that have not counted themselves.
  abbrev started : ℕ → Handler F → Handler F
  started k h = record h { started_tasks = replicate k f }

  replicate-snoc : (n : ℕ) → replicate n f ++ f ∷ [] ≡ replicate (suc n) f
  replicate-snoc zero = refl
  replicate-snoc (suc n) = rw (replicate-snoc n)

  module _ (h : Handler F) (no_queue : h.queue_capacity ≡ 0) where
    try_run-started :
        (k : ℕ)
        → h.numthreads < h.thread_capacity
        → try_run f (started k h) ≡ (true, started (suc k) h)
    unfolding try_run try_run_noqueue
    try_run-started k t =
        rw (no_queue, lt→leb h.numthreads h.thread_capacity t, replicate-snoc k) refl

    calls :
        (n k : ℕ) (es : List (Event F))
        → h.numthreads < h.thread_capacity
        → steps (replicate n (Event.call_try_run f) ++ es) (started k h)
          ≡ steps es (started (n + k) h)
    unfolding steps
    calls zero k es t = let e : 0 + k ≡ k = omega arith in rw e
    calls (suc n) k es t =
        let e : suc n + k ≡ n + suc k = omega arith in
        rw (try_run-started k t, e) (calls n (suc k) es t)

  enters :
      (n m t : ℕ) (h : Handler F)
      → steps
          (replicate n Event.task_enters)
          (record h { started_tasks = replicate n f; numthreads = m; tasks = t })
        ≡ some (record h { started_tasks = []; numthreads = m + n; tasks = t + n })
  unfolding steps take_task
  enters zero m t h =
      let e : m + 0 ≡ m = omega arith in let e' : t + 0 ≡ t = omega arith in rw (e, e')
  enters (suc n) m t h =
      let e : m + suc n ≡ (m + 1) + n = omega arith in
      let e' : t + suc n ≡ (t + 1) + n = omega arith in rw (e, e') (enters n (m + 1) (t + 1) h)

  -- Without a queue, and while fewer threads than allowed have counted themselves, any number of
  -- calls of try_run is accepted before one of their threads runs: then all of them run at once,
  -- however small the capacity of threads is.
  pub steps_exceed :
      (n : ℕ) (h : Handler F)
      → h.queue_capacity ≡ 0
      → h.started_tasks ≡ []
      → h.numthreads < h.thread_capacity
      → steps (replicate n (Event.call_try_run f) ++ replicate n Event.task_enters) h
        ≡ some (record h { started_tasks = []; numthreads = h.numthreads + n; tasks = h.tasks + n })
  steps_exceed n h q s t =
      let same : h ≡ started 0 h = λ i. record h { started_tasks = s i } in
      let es : List (Event F) =
        replicate n (Event.call_try_run f) ++ replicate n Event.task_enters in
      let e : n + 0 ≡ n = omega arith in
      ap (steps es) same
      ∙ calls h q n 0 (replicate n Event.task_enters) t
      ∙ rw e (enters n h.numthreads h.tasks h)
