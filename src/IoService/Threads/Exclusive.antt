-- ===== src/IoService/Threads/Exclusive.antt =====
-- Which callbacks the threads of the pool run at once.
use tacopie.Prelude.{◌+◌, ◌≤◌, ◌≡◌, refl, Bool, false, List, [], ◌∷◌, none, some, arith, count}
use tacopie.Typedefs.{Fd, find}
use tacopie.ThreadPool.Workers.{WorkerPc, fetching, executing, exited}
use tacopie.IoService.{Job}
use tacopie.IoService.Threads.{ThreadReach, Threads, running_jobs}
use tacopie.SelfPipe.{SelfPipe}
use tacopie.IoService.System.{is_write_of, is_read_of, is_queued}
use tacopie.IoService.Invariant.{writing, reading}
use tacopie.IoService.Safety.{Reach-Inv}
use tacopie.IoService.Threads.Refines.{ThreadReach-refines-Reach}

module _ {C : Type 0} where
  -- Whether a thread is in the lambda of `process_rd_event`, or of `process_wr_event`, for `f`.
  abbrev pub runs : (Job C → Bool) → WorkerPc (Job C) → Bool
  runs test fetching = false
  runs test (executing none) = false
  runs test (executing (some job)) = test job
  runs test exited = false

  pub count-runs :
      (test : Job C → Bool) (pcs : List (WorkerPc (Job C)))
      → count (runs test) pcs ≡ count test (running_jobs pcs)
  count-runs test [] = refl
  count-runs test (fetching ∷ pcs) = omega (arith, count-runs test pcs)
  count-runs test (executing none ∷ pcs) = omega (arith, count-runs test pcs)
  count-runs test (executing (some job) ∷ pcs) = omega (arith, count-runs test pcs)
  count-runs test (exited ∷ pcs) = omega (arith, count-runs test pcs)

  -- In every state that the service and the threads of its pool reach, where a descriptor is tracked
  -- only while none of its callbacks is in flight: the queued tasks for a read callback of a socket and
  -- the pool's threads that are in one are together at most one, and that only with the socket's flag
  -- up; so for a write callback; and if the descriptor is not tracked, no thread is in one and no task
  -- is queued. Callbacks may throw.
  pub ThreadReach-counts :
      {notifier : SelfPipe} {s : Threads C}
      → ThreadReach notifier s
      → (f : Fd)
      → (count (is_queued (is_read_of f)) s.service.workers.tasks
            + count (runs (is_read_of f)) s.threads
          ≤ reading (find f s.service.tracked))
        × (count (is_queued (is_write_of f)) s.service.workers.tasks
              + count (runs (is_write_of f)) s.threads
            ≤ writing (find f s.service.tracked))
  ThreadReach-counts {s} r f =
      let here = Reach-Inv (ThreadReach-refines-Reach r) f in
      (
        omega (arith, here.reads, count-runs (is_read_of f) s.threads),
        omega (arith, here.writes, count-runs (is_write_of f) s.threads),
      )
