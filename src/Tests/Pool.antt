-- ===== src/Tests/Pool.antt =====
-- Runs of the thread pool and of sockets.
use tacopie.ThreadPool
use tacopie.ThreadPool.Workers.{
  Step, WorkerStep, Workers, executing, exited, fetches, fetching, works,
}
use tacopie.ThreadPool.Workers.Invariant.{Inv, Step-keeps-Inv}
use tacopie.Prelude.{ℕ, ◌-◌, ◌≡◌, refl, true, [], ◌∷◌, none, some, arith}
use tacopie.ThreadPool.Workers.Drain.{stop_drains, Drained}
use tacopie.ThreadPool.{set_max, decrement, set_nb_threads}
use tacopie.ThreadPool.Workers.Invariant.{Step-keeps-Inv}
use tacopie.ThreadPool.Resize.{set_nb_threads_lem, grown}

-- A pool of two threads that a caller stops while one of them is in a task.
abbrev stopping : Workers ℕ
stopping = record {
  pool = record {
    worker_threads = 2;
    max_nb_threads = 2;
    nb_running_threads = 2;
    stop_requested = true;
    tasks = some 5 ∷ [];
  };
  threads = fetching ∷ executing (some 4) ∷ [];
  added = some 4 ∷ some 5 ∷ [];
  started = some 4 ∷ [];
}

abbrev leaving : Workers ℕ
leaving = record stopping {
  pool = record stopping.pool { nb_running_threads = decrement 2 };
  threads = exited ∷ executing (some 4) ∷ [];
}

leave : WorkerStep stopping leaving
unfolding ThreadPool.fetch_task_or_stop ThreadPool.should_stop
leave = fetches [] (executing (some 4) ∷ []) true none leaving.pool refl refl

stop_drains_example : (t : Workers ℕ) × Drained stopping t
stop_drains_example = stop_drains stopping refl

stopping-Inv : Inv stopping
stopping-Inv = record { counted = refl; owned = refl; fifo = refl; small = omega arith }

leave-Step : Step stopping leaving
leave-Step = works leave

Step-keeps-Inv_example : Inv leaving
Step-keeps-Inv_example = Step-keeps-Inv leave-Step stopping-Inv

set_nb_threads_example : set_nb_threads 5 stopping.pool ≡ grown (5 - 2) (set_max 5 stopping.pool)
set_nb_threads_example = set_nb_threads_lem 5 stopping.pool (omega arith)
