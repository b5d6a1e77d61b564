-- ===== src/ThreadPool/Workers/Invariant.antt =====
-- What every interleaving of callers and workers keeps.
use tacopie.Prelude.{
  length-middle, count-middle, ap, ◌<◌, ◌≡◌, refl, inl, inr, Bool, List, [], ◌∷◌, ◌++◌, Option,
  arith, length, length-append, count, count-append,
}
use mathlib.Core.List.{append_assoc}
use tacopie.ThreadPool.{
  fetched, fetch_task_or_stop, ThreadPool, size_t_mod, add_task, spawn, set_max, request_stop,
  clear_workers, is_running,
}
use tacopie.ThreadPool.Fetching.{fetched_cases}
use tacopie.ThreadPool.Workers.{
  Workers, WorkerPc, fetching, executing, exited, after_fetch, log_start, is_live, WorkerStep, Step,
  fetches, completes, works, adds, sets_max, spawns, stops, joins, Reach, start, next,
}

-- `counted`: `m_nNbRunningThreads_a` is the number of threads that have not left `run`.
-- `owned`: every thread started since the last `stop` is in `m_lstWorkerThreads`.
-- `fifo`: the tasks added are those started and then those queued, in order.
pub record Inv {T : Type 0} (s : Workers T) : Type 0 where
  pub counted : s.pool.nb_running_threads ≡ count is_live s.threads
  pub owned : s.pool.worker_threads ≡ length s.threads
  pub fifo : s.added ≡ s.started ++ s.pool.tasks
  pub small : (s.pool.nb_running_threads < size_t_mod) × (s.pool.max_nb_threads < size_t_mod)

module _ {T : Type 0} where
  fetches-Inv :
      (s : Workers T) (before behind : List (WorkerPc T)) (stopped : Bool) (task : Option T)
      (p : ThreadPool T)
      → s.threads ≡ before ++ fetching ∷ behind
      → fetch_task_or_stop s.pool ≡ fetched stopped task p
      → Inv s
      → Inv (record s {
        pool = p;
        threads = before ++ after_fetch stopped task ∷ behind;
        started = log_start stopped task s.started;
      })
  fetches-Inv s before behind stopped task p at returned inv =
      elim (fetched_cases s.pool p stopped task returned) [
        | inl leaves ↦ ground (
          arith,
          ap (count is_live) at,
          ap length at,
          count-middle is_live before fetching behind,
          count-middle is_live before exited behind,
          length-middle before fetching behind,
          length-middle before exited behind,
        )
        | inr goes_on ↦ ground (
          arith,
          ap (count is_live) at,
          ap length at,
          count-middle is_live before fetching behind,
          count-middle is_live before (executing task) behind,
          length-middle before fetching behind,
          length-middle before (executing task) behind,
          append_assoc s.started (task ∷ []) p.tasks,
        )
      ]

  WorkerStep-Inv : {s t : Workers T} → WorkerStep s t → Inv s → Inv t
  WorkerStep-Inv {s} (fetches before behind stopped task p at returned) inv =
      fetches-Inv s before behind stopped task p at returned inv
  WorkerStep-Inv {s} (completes before behind task at) inv = ground (
    arith,
    ap (count is_live) at,
    ap length at,
    count-middle is_live before (executing task) behind,
    count-middle is_live before fetching behind,
    length-middle before (executing task) behind,
    length-middle before fetching behind,
  )

  -- Every step of a worker or a caller keeps the invariant: the counter of running threads is the
  -- number of threads that have not left `run`, no started thread is missing from the list that `stop`
  -- joins, and the tasks added are those started and then those queued, in order.
  pub Step-keeps-Inv : {s t : Workers T} → Step s t → Inv s → Inv t
  unfolding add_task spawn set_max request_stop clear_workers is_running
  Step-keeps-Inv (works w) inv = WorkerStep-Inv w inv
  Step-keeps-Inv {s} (adds task) inv = record {
    counted = inv.counted;
    owned = inv.owned;
    fifo = rw inv.fifo (append_assoc s.started s.pool.tasks (task ∷ []));
    small = inv.small;
  }
  Step-keeps-Inv (sets_max n small) inv = ground arith
  Step-keeps-Inv {s} (spawns below) inv = ground (
    arith,
    count-append is_live s.threads (fetching ∷ []),
    length-append s.threads (fetching ∷ []),
  )
  Step-keeps-Inv stops inv = ground arith
  Step-keeps-Inv (joins stopped quiet) inv = ground arith

  pub Reach-Inv : {s : Workers T} → Reach s → Inv s
  Reach-Inv start = record { counted = refl; owned = refl; fifo = refl; small = omega arith }
  Reach-Inv (next r st) = Step-keeps-Inv st (Reach-Inv r)
