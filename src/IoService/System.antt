-- ===== src/IoService/System.antt =====
-- The threads round one service, interleaved: the poll worker, the threads of the pool, and the
-- callers of the service, among them the callbacks. A function that holds `m_mtxTrackedSockets` is
-- one step. The pool's threads are those of `ThreadPool.Workers`, seen here by what they run.
use tacopie.Prelude.{
  ℕ, ◌+◌, ◌≡◌, Bool, true, false, List, [], ◌∷◌, ◌++◌, Option, none, some, count, if◌then◌else◌,
}
use tacopie.Typedefs.{Fd, fd_eq}
use tacopie.IoService.{ThreadPool, IoService, Job, read_job, write_job}
use tacopie.ThreadPool.{fetched, fetch_task_or_stop}
use tacopie.IoService.{destroy, create, set_nb_workers}
use tacopie.IoService.Track.{track, set_rd_callback, set_wr_callback, untrack}
use tacopie.IoService.Jobs.{finish}
use tacopie.IoService.Poll.{init_poll_fds_info, apply_select, process_events, SelectAnswer}
use tacopie.SelfPipe.{SelfPipe}

-- Where the poll worker stands in `poll`.
pub data Poller : Type 0 where
  at_test : Poller
  in_select : ℕ → Poller
  at_events : Poller
  ended : Poller

-- `running` has the jobs that threads of the pool have fetched and that have not finished, in the
-- order of the threads.
pub record System (C : Type 0) : Type 0 where
  pub service : IoService C
  pub running : List (Job C)
  pub poller : Poller

module _ {C : Type 0} where
  abbrev pub fetched_job : Option (Job C) → List (Job C) → List (Job C)
  fetched_job none jobs = jobs
  fetched_job (some job) jobs = job ∷ jobs

  -- The jobs in flight for a socket: queued in the pool, or running.
  abbrev pub is_read_of : Fd → Job C → Bool
  is_read_of f (read_job g callback) = fd_eq f g
  is_read_of f (write_job g callback) = false

  abbrev pub is_write_of : Fd → Job C → Bool
  is_write_of f (read_job g callback) = false
  is_write_of f (write_job g callback) = fd_eq f g

  abbrev pub is_queued : (Job C → Bool) → Option (Job C) → Bool
  is_queued test none = false
  is_queued test (some job) = test job

  abbrev pub in_flight : (Job C → Bool) → List (Option (Job C)) → List (Job C) → ℕ
  in_flight test tasks running = count (is_queued test) tasks + count test running

  -- A call of the service. `track` is called for a socket that was just made or connected: no
  -- callback of an earlier socket with the same descriptor is in flight.
  pub data Call (s : IoService C) (running : List (Job C)) : IoService C → Type 0 where
    tracks :
        (f : Fd) (callback_read callback_write : Option C)
        → in_flight (is_read_of f) s.workers.tasks running ≡ 0
        → in_flight (is_write_of f) s.workers.tasks running ≡ 0
        → Call s running (track f callback_read callback_write s)
    sets_rd : (f : Fd) (callback : Option C) → Call s running (set_rd_callback f callback s)
    sets_wr : (f : Fd) (callback : Option C) → Call s running (set_wr_callback f callback s)
    untracks : (f : Fd) → Call s running (untrack f s)
    resizes : (n : ℕ) → Call s running (set_nb_workers n s)
    destroys : Call s running (destroy s)

  pub data Step (s : System C) : System C → Type 0 where
    calls : {t : IoService C} → Call s.service s.running t → Step s (record s { service = t })
    prepares :
        s.poller ≡ at_test
        → s.service.should_stop ≡ false
        → Step s (record s {
          service = (init_poll_fds_info s.service).0;
          poller = in_select (init_poll_fds_info s.service).1;
        })
    selects :
        (bound : ℕ) (answer : SelectAnswer)
        → s.poller ≡ in_select bound
        → Step s (record s {
          service = apply_select answer s.service;
          poller = if answer.positive then at_events else at_test;
        })
    processes :
        s.poller ≡ at_events
        → Step s (record s { service = process_events s.service; poller = at_test })
    ends : s.poller ≡ at_test → s.service.should_stop ≡ true → Step s (record s { poller = ended })
    fetches :
        (before behind : List (Job C)) (stopped : Bool) (job : Option (Job C))
        (p : ThreadPool (Job C))
        → s.running ≡ before ++ behind
        → fetch_task_or_stop s.service.workers ≡ fetched stopped job p
        → Step s (record s {
          service = record s.service { workers = p };
          running = before ++ fetched_job job behind;
        })
    finishes :
        (before behind : List (Job C)) (job : Job C)
        → s.running ≡ before ++ job ∷ behind
        → Step s (record s { service = finish job s.service; running = before ++ behind })
    -- The callback of a job throws an std::exception: thread_pool::run catches it, and the rest of the
    -- lambda is skipped, so that the flag of the socket stays up.
    throws :
        (before behind : List (Job C)) (job : Job C)
        → s.running ≡ before ++ job ∷ behind
        → Step s (record s { running = before ++ behind })

  pub data Reach (notifier : SelfPipe) : System C → Type 0 where
    start : Reach notifier (record { service = create notifier; running = []; poller = at_test })
    next : {s t : System C} → Reach notifier s → Step s t → Reach notifier t
