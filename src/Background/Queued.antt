-- ===== src/Background/Queued.antt =====
-- The queue of the background threads over any schedule.
use kineticio.Prelude.{
  ℕ, ◌+◌, ◌≤◌, ◌≡◌, refl, sym, ap, subst, ◌∙◌, on_if, max, not, ◌&&◌, ltb, List, [], ◌∷◌, ◌++◌,
  Option, none, some, ok, length, length-append, append_assoc, arith, Option-cases, inl, inr,
}
use kineticio.Background.{
  Handler, Event, new_handler, try_run_noqueue, run_noqueue, run, try_run, take_function, take_task,
  step, steps,
}

-- The greatest capacity that the queue is given by a schedule.
abbrev pub peak : {F : Type 0} → ℕ → List (Event F) → ℕ
peak c [] = c
peak c (Event.change_configuration w d ∷ es) = peak (max c d) es
peak c (e ∷ es) = peak c es

module _ {F : Type 0} where
  -- What was put into the queue is what was taken from it, in the order in which it was taken, and
  -- then what it holds; beyond the capacity it holds at most one function for each caller that
  -- waits; and the counter of threads is the number of those that have counted themselves.
  pub record IsQueued (c : ℕ) (h : Handler F) : Type 0 where
    pub in_order : h.taken ++ h.queue ≡ h.pushed
    pub capacity_le : h.queue_capacity ≤ c
    pub within : length h.queue ≤ c + h.callers
    pub counted : h.numthreads ≡ h.idle + h.busy + h.tasks

  abbrev After : ℕ → Option (Handler F) → Type 0
  After c none = Unit {0}
  After c (some h) = IsQueued c h

  -- A push keeps the order.
  push_order :
      (h : Handler F) (f : F)
      → h.taken ++ h.queue ≡ h.pushed
      → h.taken ++ (h.queue ++ f ∷ []) ≡ h.pushed ++ f ∷ []
  push_order h f o = sym (append_assoc h.taken h.queue (f ∷ [])) ∙ ap (λ l. l ++ f ∷ []) o

  run-IsQueued : (c : ℕ) (f : F) (h : Handler F) → IsQueued c h → IsQueued c (run f h)
  unfolding run run_noqueue try_run_noqueue
  run-IsQueued c f h q = ground (arith, push_order h f q.in_order, length-append h.queue (f ∷ []))

  try_run-IsQueued : (c : ℕ) (f : F) (h : Handler F) → IsQueued c h → IsQueued c ((try_run f h).1)
  unfolding try_run try_run_noqueue
  try_run-IsQueued c f h q =
      ground (arith, push_order h f q.in_order, length-append h.queue (f ∷ []))

  take_function-IsQueued :
      (c : ℕ) (fs : List F) (h : Handler F)
      → fs ≡ h.queue
      → 1 ≤ h.idle
      → IsQueued c h
      → After c (take_function fs h)
  unfolding take_function
  take_function-IsQueued c [] h e i q = tt
  take_function-IsQueued c (f ∷ fs) h e i q = record {
    in_order = append_assoc h.taken (f ∷ []) fs ∙ ap (◌++◌ h.taken) e ∙ q.in_order;
    capacity_le = q.capacity_le;
    within = omega (arith, ap length e);
    counted = omega arith;
  }

  take_task-IsQueued :
      (c : ℕ) (fs : List F) (h : Handler F) → IsQueued c h → After c (take_task fs h)
  unfolding take_task
  take_task-IsQueued c [] h q = tt
  take_task-IsQueued c (f ∷ fs) h q = ground arith

  step-IsQueued :
      (c : ℕ) (e : Event F) (h : Handler F) → IsQueued c h → After (peak c (e ∷ [])) (step e h)
  unfolding step
  step-IsQueued c (Event.call_run f) h q = run-IsQueued c f h q
  step-IsQueued c (Event.call_try_run f) h q = try_run-IsQueued c f h q
  step-IsQueued c Event.run_returns h q = ground arith
  step-IsQueued c Event.worker_enters h q = ground arith
  step-IsQueued c Event.task_enters h q = take_task-IsQueued c h.started_tasks h q
  step-IsQueued c Event.worker_takes h q =
      on_if (After c) (not h.shutdown && ltb 0 h.idle) _ _
        (λ b. take_function-IsQueued c h.queue h refl (ground arith) q) (λ _. tt)
  step-IsQueued c Event.worker_done h q = ground arith
  step-IsQueued c Event.worker_ends h q = ground arith
  step-IsQueued c Event.task_done h q = ground arith
  step-IsQueued c (Event.stop_workers w d) h q = ground arith
  step-IsQueued c (Event.change_configuration w d) h q = ground (arith)
  step-IsQueued c Event.destruct h q = ground arith

  peak-cons :
      (c : ℕ) (e : Event F) (es : List (Event F)) → peak c (e ∷ es) ≡ peak (peak c (e ∷ [])) es
  peak-cons c (Event.change_configuration w d) es = refl
  peak-cons c (Event.call_run f) es = refl
  peak-cons c (Event.call_try_run f) es = refl
  peak-cons c Event.run_returns es = refl
  peak-cons c Event.worker_enters es = refl
  peak-cons c Event.task_enters es = refl
  peak-cons c Event.worker_takes es = refl
  peak-cons c Event.worker_done es = refl
  peak-cons c Event.worker_ends es = refl
  peak-cons c Event.task_done es = refl
  peak-cons c (Event.stop_workers w d) es = refl
  peak-cons c Event.destruct es = refl

  steps_keep :
      (es : List (Event F)) (c : ℕ) (h h' : Handler F)
      → IsQueued c h
      → steps es h ≡ some h'
      → IsQueued (peak c es) h'
  unfolding steps
  steps_keep [] c h h' q r = let e : h ≡ h' = cc in subst (IsQueued c) e q
  steps_keep (e ∷ es) c h h' q r = elim (Option-cases (step e h)) [
    | inl stuck ↦ let no : ⊥ = cc (rw (stuck, steps) at r) in absurd no
    | inr (g, eq) ↦ rw (peak-cons c e es) (
        steps_keep es (peak c (e ∷ [])) g h'
          (subst (After (peak c (e ∷ []))) eq (step-IsQueued c e h q)) (rw (eq, steps) at r))
  ]

  new-IsQueued : (w d : ℕ) (h : Handler F) → new_handler w d ≡ ok h → IsQueued d h
  unfolding new_handler
  new-IsQueued w d h new = ground arith

  -- Whatever the schedule, from the constructor on, what was put into the queue is what was taken,
  -- in the same order, and then what the queue holds; the queue is longer than the greatest
  -- capacity it was given by at most the callers of run that still wait; and the counter of threads
  -- is the number of threads that have counted themselves and not ended.
  pub steps-IsQueued :
      (w d : ℕ) (es : List (Event F)) (h h' : Handler F)
      → new_handler w d ≡ ok h
      → steps es h ≡ some h'
      → IsQueued (peak d es) h'
  steps-IsQueued w d es h h' new r = steps_keep es d h h' (new-IsQueued w d h new) r
