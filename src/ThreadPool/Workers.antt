-- ===== src/ThreadPool/Workers.antt =====
-- The threads that `thread_pool::run` is the body of, interleaved with the callers of the pool.
-- A call that holds `m_mtxTasks` is one step, and so is each round of `set_nb_threads`. A wait on
-- `m_cvTasks` is a thread that cannot step while its predicate is false: a notification that comes
-- between the test of the predicate and the sleep is not in the model, and neither is a new maximum or a
-- stop request, which are set without the mutex, between two tests of one fetch.
pub mod Drain
pub mod Invariant
use tacopie.Prelude.{◌<◌, ℕ, ℕ, ◌≡◌, Bool, true, false, List, [], ◌∷◌, ◌++◌, Option, ltb, count}
use tacopie.ThreadPool.{
  size_t_mod, ThreadPool, fetched, fetch_task_or_stop, add_task, spawn, set_max, request_stop,
  clear_workers,
}

-- Where a worker stands in `run`: about to fetch, in its task, or past the loop.
pub data WorkerPc (T : Type 0) : Type 0 where
  fetching : WorkerPc T
  executing : Option T → WorkerPc T
  exited : WorkerPc T

-- The pool and its threads, oldest first. `added` has the tasks of all calls of `add_task`, and
-- `started` those that workers went on to run, both in order.
pub record Workers (T : Type 0) : Type 0 where
  pub pool : ThreadPool T
  pub threads : List (WorkerPc T)
  pub added : List (Option T)
  pub started : List (Option T)

module _ {T : Type 0} where
  -- After a fetch: `if (bStopped) break;`, else the task is run.
  abbrev pub after_fetch : Bool → Option T → WorkerPc T
  after_fetch true task = exited
  after_fetch false task = executing task

  abbrev pub log_start : Bool → Option T → List (Option T) → List (Option T)
  log_start true task log = log
  log_start false task log = log ++ task ∷ []

  abbrev pub is_live : WorkerPc T → Bool
  is_live exited = false
  is_live pc = true

  -- A step of a worker: one call of `fetch_task_or_stop` that returns, or the end of a task, by a
  -- return or by an exception, which `run` catches.
  pub data WorkerStep (s : Workers T) : Workers T → Type 0 where
    fetches :
        (before behind : List (WorkerPc T)) (stopped : Bool) (task : Option T) (p : ThreadPool T)
        → s.threads ≡ before ++ fetching ∷ behind
        → fetch_task_or_stop s.pool ≡ fetched stopped task p
        → WorkerStep s (record s {
          pool = p;
          threads = before ++ after_fetch stopped task ∷ behind;
          started = log_start stopped task s.started;
        })
    completes :
        (before behind : List (WorkerPc T)) (task : Option T)
        → s.threads ≡ before ++ executing task ∷ behind
        → WorkerStep s (record s { threads = before ++ fetching ∷ behind })

  -- Any step: a worker's, or that of a call from outside. `joins` is the end of `stop`.
  pub data Step (s : Workers T) : Workers T → Type 0 where
    works : {t : Workers T} → WorkerStep s t → Step s t
    adds :
        (task : Option T)
        → Step s (record s { pool = add_task task s.pool; added = s.added ++ task ∷ [] })
    sets_max : (n : ℕ) → n < size_t_mod → Step s (record s { pool = set_max n s.pool })
    spawns :
        ltb s.pool.nb_running_threads s.pool.max_nb_threads ≡ true
        → Step s (record s { pool = spawn s.pool; threads = s.threads ++ fetching ∷ [] })
    stops : Step s (record s { pool = request_stop s.pool })
    joins :
        s.pool.stop_requested ≡ true
        → count is_live s.threads ≡ 0
        → Step s (record s { pool = clear_workers s.pool; threads = [] })

  abbrev pub idle : ThreadPool T → Workers T
  idle p = record { pool = p; threads = []; added = []; started = [] }

  -- The states that the interleavings reach from a pool with no thread yet.
  pub data Reach : Workers T → Type 0 where
    start : Reach (
        idle (record {
          worker_threads = 0;
          max_nb_threads = 0;
          nb_running_threads = 0;
          stop_requested = false;
          tasks = [];
        }))
    next : {s t : Workers T} → Reach s → Step s t → Reach t
