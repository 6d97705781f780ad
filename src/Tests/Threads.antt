-- ===== src/Tests/Threads.antt =====
-- Examples for the background threads (src/BackgroundOperationHandler.cc) and the connections that
-- reconnect on them (src/KineticAutoConnection.cc).
use kineticio.Prelude.{
  ℕ, zero, suc, ◌≡◌, refl, true, false, List, [], ◌∷◌, ◌++◌, some, ok, arith, replicate,
}
use kineticio.Background.{Handler, Event, new_handler, steps}
use kineticio.Background.Queued.{IsQueued, peak, steps-IsQueued}
use kineticio.Background.Unlimited.{steps_exceed}
use kineticio.Connection.{Network, new_connection}
use kineticio.Connection.Limited
use kineticio.Connection.Limited.{Spaced, History, new_history, steps-Spaced}

abbrev pool : ℕ → ℕ → Handler ℕ
pool threads depth = record {
  queue_capacity = depth;
  thread_capacity = threads;
  numthreads = 0;
  shutdown = false;
  queue = [];
  callers = 0;
  started_workers = elim depth [ zero ↦ 0 | suc _ ↦ threads ];
  started_tasks = [];
  idle = 0;
  busy = 0;
  tasks = 0;
  inline = [];
  pushed = [];
  taken = [];
}

-- One worker and a queue of one: three functions, of which the last has to wait.
abbrev busy_schedule : List (Event ℕ)
busy_schedule =
    Event.worker_enters
    ∷ Event.call_try_run 7
    ∷ Event.worker_takes
    ∷ Event.call_run 8
    ∷ Event.run_returns
    ∷ Event.call_run 9
    ∷ []

abbrev after_schedule : Handler ℕ
after_schedule = record (pool 1 1) {
  numthreads = 1;
  started_workers = 0;
  busy = 1;
  callers = 1;
  queue = 8 ∷ 9 ∷ [];
  pushed = 7 ∷ 8 ∷ 9 ∷ [];
  taken = 7 ∷ [];
}

new_pool : new_handler 1 1 ≡ ok (pool 1 1)
unfolding new_handler
new_pool = refl

steps-busy_schedule : steps busy_schedule (pool 1 1) ≡ some after_schedule
unfolding steps
steps-busy_schedule = refl

steps-IsQueued_example : IsQueued (peak 1 busy_schedule) after_schedule
steps-IsQueued_example =
    steps-IsQueued 1 1 busy_schedule (pool 1 1) after_schedule new_pool steps-busy_schedule

steps_exceed_example :
    steps (replicate 5 (Event.call_try_run 7) ++ replicate 5 Event.task_enters) (pool 1 0)
    ≡ some (record (pool 1 0) { started_tasks = []; numthreads = 5; tasks = 5 })
steps_exceed_example = steps_exceed 7 5 (pool 1 0) refl refl (omega arith)

-- A world that is the time of day, and connections that are made at once.
abbrev quick_network : Network ℕ
quick_network = record {
  new_nonblocking = λ address w. (some address, w);
  no_op = λ con w. w;
  run = λ con w. (true, 5, w);
  done = λ con w. true;
  is_success = λ con w. true;
  select = λ fd w. (true, w);
  random = λ w. (0, w);
  subscribe = λ fd w. (ok tt, w);
  now = λ w. w;
}

abbrev threads : Handler (Unit {0})
threads = record {
  queue_capacity = 0;
  thread_capacity = 1;
  numthreads = 0;
  shutdown = false;
  queue = [];
  callers = 0;
  started_workers = 0;
  started_tasks = [];
  idle = 0;
  busy = 0;
  tasks = 0;
  inline = [];
  pushed = [];
  taken = [];
}

-- A reconnect, a get that comes too early, a connection that fails again, and a second reconnect.
abbrev trouble : List (Limited.Event ℕ)
trouble =
    Limited.Event.got 3_000
    ∷ Limited.Event.got 4_000
    ∷ Limited.Event.attempted 6 (some 1) 5_000
    ∷ Limited.Event.failed (some 1)
    ∷ Limited.Event.got 7_900
    ∷ Limited.Event.got 8_000
    ∷ []

abbrev after_trouble : History
after_trouble = record {
  state = record (new_connection 2 threads 0) {
    connection = some 1;
    timestamp = 8_000;
    bg = record threads { started_tasks = tt ∷ tt ∷ [] };
  };
  clock = 8_000;
  scheduled = 8_000 ∷ 3_000 ∷ [];
}

steps-trouble :
    Limited.steps quick_network trouble (new_history quick_network 2 threads 0) ≡ some after_trouble
unfolding Limited.steps new_connection
steps-trouble = refl

steps-Spaced_example : Spaced 2 (8_000 ∷ 3_000 ∷ [])
steps-Spaced_example = steps-Spaced quick_network 2 0 threads trouble after_trouble steps-trouble
