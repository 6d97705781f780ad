-- ===== src/Background.antt =====
-- The background threads: src/BackgroundOperationHandler.cc. Threads interleave at the points where
-- they take or leave the lock of the queue or change an atomic counter; each such point is an event,
-- and a schedule is a list of events. A function that is run is a value of `F`, and whether it
-- throws makes no difference, since both ways of running it catch.
pub mod Queued
pub mod Unlimited
use kineticio.Prelude.{
  ℕ, suc, ◌+◌, ◌-◌, ◌≡◌, Bool, true, false, not, ◌&&◌, List, [], ◌∷◌, ◌++◌, Option, none, some,
  length, ltb, leb, ◌==◌, if◌then◌else◌, Result, ok, throw, invalid_argument,
}

-- The fields of a BackgroundOperationHandler, and its threads: callers of run that wait for the
-- queue, threads that are started and have not yet counted themselves, workers that wait and those
-- that run a function, functions that run in a thread of their own or in the caller's. The last two
-- fields list what was put into the queue and taken out of it.
pub record Handler (F : Type 0) : Type 0 where
  pub queue_capacity : ℕ
  pub thread_capacity : ℕ
  pub numthreads : ℕ
  pub shutdown : Bool
  pub queue : List F
  pub callers : ℕ
  pub started_workers : ℕ
  pub started_tasks : List F
  pub idle : ℕ
  pub busy : ℕ
  pub tasks : ℕ
  pub inline : List F
  pub pushed : List F
  pub taken : List F

pub data Event (F : Type 0) : Type 0 where
  -- calls of run and try_run, and the return of a caller of run that waits
  call_run call_try_run : F → Event F
  run_returns : Event F
  -- a started thread counts itself
  worker_enters task_enters : Event F
  -- a worker takes a function, has run it, or ends; a thread of one function ends
  worker_takes worker_done worker_ends task_done : Event F
  -- changeConfiguration(worker_threads, queue_depth): the shutdown, and what follows it
  stop_workers change_configuration : ℕ → ℕ → Event F
  -- the destructor, once the queue is empty
  destruct : Event F

module _ {F : Type 0} where
  -- The constructor.
  unfoldable pub new_handler : ℕ → ℕ → Result (Handler F)
  new_handler worker_threads queue_depth =
      if ltb 0 queue_depth && (worker_threads == 0)
      then throw invalid_argument
      else ok (record {
        queue_capacity = queue_depth;
        thread_capacity = worker_threads;
        numthreads = 0;
        shutdown = false;
        queue = [];
        callers = 0;
        started_workers = if queue_depth == 0 then 0 else worker_threads;
        started_tasks = [];
        idle = 0;
        busy = 0;
        tasks = 0;
        inline = [];
        pushed = [];
        taken = [];
      })

  -- q.push
  abbrev push : F → Handler F → Handler F
  push f h = record h { queue = h.queue ++ f ∷ []; pushed = h.pushed ++ f ∷ [] }

  -- try_run_noqueue
  unfoldable pub try_run_noqueue : F → Handler F → Bool × Handler F
  try_run_noqueue f h =
      if leb h.thread_capacity h.numthreads
      then (false, h)
      else (true, record h { started_tasks = h.started_tasks ++ f ∷ [] })

  -- run_noqueue
  unfoldable pub run_noqueue : F → Handler F → Handler F
  unfolding try_run_noqueue
  run_noqueue f h =
      let (started, h') = try_run_noqueue f h in
      if started then h' else record h' { inline = h'.inline ++ f ∷ [] }

  -- run, up to its wait
  unfoldable pub run : F → Handler F → Handler F
  unfolding run_noqueue
  run f h =
      if h.queue_capacity == 0
      then run_noqueue f h
      else let h' = push f h in record h' { callers = h'.callers + 1 }

  -- try_run
  unfoldable pub try_run : F → Handler F → Bool × Handler F
  unfolding try_run_noqueue
  try_run f h =
      if h.queue_capacity == 0
      then try_run_noqueue f h
      else if leb h.queue_capacity (length h.queue)
      then (false, h)
      else (true, push f h)

  -- The locked part of worker_thread, where it does not end: the head of the queue is taken.
  unfoldable pub take_function : List F → Handler F → Option (Handler F)
  take_function [] h = none
  take_function (f ∷ q) h =
      some (record h { queue = q; taken = h.taken ++ f ∷ []; idle = h.idle - 1; busy = h.busy + 1 })

  take_task : List F → Handler F → Option (Handler F)
  take_task [] h = none
  take_task (f ∷ fs) h =
      some (record h { started_tasks = fs; numthreads = h.numthreads + 1; tasks = h.tasks + 1 })

  -- Whether changeConfiguration ends all workers first.
  unfoldable pub must_stop : ℕ → Handler F → Bool
  must_stop worker_threads h = ltb 0 h.queue_capacity && ltb worker_threads h.numthreads

  -- changeConfiguration after the workers have ended, where they have to.
  unfoldable pub reconfigure : ℕ → ℕ → Handler F → Handler F
  reconfigure worker_threads queue_depth h =
      let running = if h.queue_capacity == 0 then 0 else h.numthreads in
      record h {
        shutdown = false;
        started_workers =
            if queue_depth == 0
            then h.started_workers
            else h.started_workers + (worker_threads - running);
        thread_capacity = worker_threads;
        queue_capacity = queue_depth;
      }

  abbrev when : Bool → Handler F → Option (Handler F)
  when b h = if b then some h else none

  -- What an event makes of the handler; `none` if it cannot happen.
  unfoldable pub step : Event F → Handler F → Option (Handler F)
  unfolding run try_run take_function take_task must_stop reconfigure
  step (call_run f) h = some (run f h)
  step (call_try_run f) h = some ((try_run f h).1)
  step run_returns h =
      when (ltb 0 h.callers && leb (length h.queue) h.queue_capacity)
        (record h { callers = h.callers - 1 })
  step worker_enters h = when (ltb 0 h.started_workers) (record h {
    started_workers = h.started_workers - 1;
    numthreads = h.numthreads + 1;
    idle = h.idle + 1;
  })
  step task_enters h = take_task h.started_tasks h
  step worker_takes h = if not h.shutdown && ltb 0 h.idle then take_function h.queue h else none
  step worker_done h = when (ltb 0 h.busy) (record h { busy = h.busy - 1; idle = h.idle + 1 })
  step worker_ends h =
      when (h.shutdown && ltb 0 h.idle)
        (record h { idle = h.idle - 1; numthreads = h.numthreads - 1 })
  step task_done h =
      when (ltb 0 h.tasks) (record h { tasks = h.tasks - 1; numthreads = h.numthreads - 1 })
  step (stop_workers w d) h = when (must_stop w h) (record h { shutdown = true })
  step (change_configuration w d) h =
      when (if h.shutdown then h.numthreads == 0 else not (must_stop w h)) (reconfigure w d h)
  step destruct h = when (length h.queue == 0) (record h { shutdown = true })

  -- A schedule.
  unfoldable pub steps : List (Event F) → Handler F → Option (Handler F)
  unfolding step
  steps [] h = some h
  steps (e ∷ es) h = elim (step e h) [ none ↦ none | some h' ↦ steps es h' ]
