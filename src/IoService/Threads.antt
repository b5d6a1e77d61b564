-- ===== src/IoService/Threads.antt =====
-- The service with the threads of its pool one by one: what they do in `thread_pool::run`, as in
-- `ThreadPool.Workers`, with the lambdas of io_service.cpp as their tasks. `System` sees the jobs only.
pub mod Refines
pub mod Exclusive
pub mod Progress
use tacopie.Prelude.{
  ℕ, zero, suc, ◌-◌, ◌≡◌, Bool, true, false, List, [], ◌∷◌, ◌++◌, Option, none, some, if◌then◌else◌,
}
use tacopie.ThreadPool.{ThreadPool, fetched, fetch_task_or_stop}
use tacopie.ThreadPool.Workers.{WorkerPc, fetching, executing, exited, after_fetch}
use tacopie.IoService.{IoService, Job, create}
use tacopie.IoService.System.{Call, Poller, at_test, in_select, at_events, ended}
use tacopie.IoService.Jobs.{finish}
use tacopie.IoService.Poll.{init_poll_fds_info, apply_select, process_events, SelectAnswer}
use tacopie.SelfPipe.{SelfPipe}

pub record Threads (C : Type 0) : Type 0 where
  pub service : IoService C
  pub threads : List (WorkerPc (Job C))
  pub poller : Poller

module _ {C : Type 0} where
  -- The threads that a call has started: those of `set_nb_threads`.
  abbrev pub new_threads : ℕ → List (WorkerPc (Job C))
  new_threads zero = []
  new_threads (suc n) = fetching ∷ new_threads n

  abbrev pub started_by : IoService C → IoService C → List (WorkerPc (Job C))
  started_by s t = new_threads (t.workers.worker_threads - s.workers.worker_threads)

  -- The job that a thread runs. An empty `std::function` throws when it is called, and `run` goes on.
  abbrev pub running_job : WorkerPc (Job C) → List (Job C) → List (Job C)
  running_job fetching jobs = jobs
  running_job (executing none) jobs = jobs
  running_job (executing (some job)) jobs = job ∷ jobs
  running_job exited jobs = jobs

  abbrev pub running_jobs : List (WorkerPc (Job C)) → List (Job C)
  running_jobs [] = []
  running_jobs (pc ∷ pcs) = running_job pc (running_jobs pcs)

  -- A step of one of the threads: of the pool's, of a caller, or of the poll worker.
  pub data ThreadStep (s : Threads C) : Threads C → Type 0 where
    thread_fetches :
        (before behind : List (WorkerPc (Job C))) (stopped : Bool) (task : Option (Job C))
        (p : ThreadPool (Job C))
        → s.threads ≡ before ++ fetching ∷ behind
        → fetch_task_or_stop s.service.workers ≡ fetched stopped task p
        → ThreadStep s (record s {
          service = record s.service { workers = p };
          threads = before ++ after_fetch stopped task ∷ behind;
        })
    thread_ends_job :
        (before behind : List (WorkerPc (Job C))) (job : Job C)
        → s.threads ≡ before ++ executing (some job) ∷ behind
        → ThreadStep s
            (record s { service = finish job s.service; threads = before ++ fetching ∷ behind })
    -- The callback throws: `run` catches the exception and goes on.
    thread_catches :
        (before behind : List (WorkerPc (Job C))) (job : Job C)
        → s.threads ≡ before ++ executing (some job) ∷ behind
        → ThreadStep s (record s { threads = before ++ fetching ∷ behind })
    thread_skips_empty :
        (before behind : List (WorkerPc (Job C)))
        → s.threads ≡ before ++ executing none ∷ behind
        → ThreadStep s (record s { threads = before ++ fetching ∷ behind })
    caller_calls :
        {t : IoService C}
        → Call s.service (running_jobs s.threads) t
        → ThreadStep s (record s { service = t; threads = s.threads ++ started_by s.service t })
    poller_prepares :
        s.poller ≡ at_test
        → s.service.should_stop ≡ false
        → ThreadStep s (record s {
          service = (init_poll_fds_info s.service).0;
          poller = in_select (init_poll_fds_info s.service).1;
        })
    poller_selects :
        (bound : ℕ) (answer : SelectAnswer)
        → s.poller ≡ in_select bound
        → ThreadStep s (record s {
          service = apply_select answer s.service;
          poller = if answer.positive then at_events else at_test;
        })
    poller_processes :
        s.poller ≡ at_events
        → ThreadStep s (record s { service = process_events s.service; poller = at_test })
    poller_ends :
        s.poller ≡ at_test
        → s.service.should_stop ≡ true
        → ThreadStep s (record s { poller = ended })

  pub data ThreadReach (notifier : SelfPipe) : Threads C → Type 0 where
    thread_start :
        ThreadReach notifier
          (record { service = create notifier; threads = fetching ∷ []; poller = at_test })
    thread_next :
        {s t : Threads C} → ThreadReach notifier s → ThreadStep s t → ThreadReach notifier t
