-- ===== src/IoService/Hazards.antt =====
-- Where the flags do not protect a socket: a descriptor that is tracked again too early.
use tacopie.Prelude.{
  ◌<◌, ◌+◌, ap, count, ◌++◌, count-append, ◌≢◌, ◌≡◌, true, false, List, [], ◌∷◌, Option, none, some,
  arith,
}
use tacopie.Typedefs.{fd_eq_refl, fd_eq_iff, Fd, find}
use tacopie.IoService.{member, TrackedSocket, Job, read_job, write_job}
use tacopie.IoService.System.{is_queued, is_read_of, in_flight}
use tacopie.IoService.Poll.{read_phase, write_phase, untrack_phase, process_socket, process_fd}
use tacopie.IoService.{IoService, put, wake, process_rd_event, process_wr_event}
use tacopie.IoService.Track.{track}
use tacopie.Typedefs.{find-assign}
use tacopie.ThreadPool.{add_task}
use tacopie.IoService.Invariant.Calls.{ServiceInv}
use tacopie.SelfPipe.{notify}

module _ {C : Type 0} where
  abbrev tracked_anew : C → Option C → TrackedSocket C
  tracked_anew callback callback_write = record {
    callback_read = some callback;
    is_executing_read = false;
    callback_write = callback_write;
    is_executing_write = false;
    marked_for_untrack = false;
  }

  -- A visit of a socket with a read event queues its read callback, and no other read callback.
  visit-tasks :
      (s : IoService C) (f : Fd) (callback : C) (callback_write : Option C)
      → member f s.rd_set ≡ true
      → count
          (is_queued (is_read_of f))
          (process_socket f (some (tracked_anew callback callback_write)) s).workers.tasks
        ≡ count (is_queued (is_read_of f)) s.workers.tasks + 1
  unfolding process_socket read_phase write_phase untrack_phase process_rd_event process_wr_event
      put add_task
  visit-tasks s f callback none ready = ground (
    arith,
    fd_eq_refl f,
    count-append (is_queued (is_read_of f)) s.workers.tasks (some (read_job f callback) ∷ []),
  )
  visit-tasks s f callback (some w) ready = ground (
    arith,
    fd_eq_refl f,
    count-append (is_queued (is_read_of f)) s.workers.tasks (some (read_job f callback) ∷ []),
    count-append (is_queued (is_read_of f)) (s.workers.tasks ++ some (read_job f callback) ∷ [])
        (some (write_job f w) ∷ []),
  )

  visit_anew :
      (s : IoService C) (f : Fd) (callback : C) (callback_write : Option C)
      → f ≢ s.notifier.read_fd
      → process_fd f (track f (some callback) callback_write s)
        ≡ process_socket f
            (some (tracked_anew callback callback_write))
            (track f (some callback) callback_write s)
  unfolding process_fd track wake put notify
  visit_anew s f callback callback_write other = ground (
    arith,
    fd_eq_iff f s.notifier.read_fd,
    fd_eq_refl f,
    find-assign f f (tracked_anew callback callback_write) s.tracked,
  )

  -- A descriptor is tracked while a read callback of the socket that had it before is in flight: the
  -- flag is forgotten, and the next read event starts a second read callback beside the first.
  pub track-over_in_flight :
      (s : IoService C) (running : List (Job C)) (f : Fd) (t : TrackedSocket C) (callback : C)
      (callback_write : Option C)
      → ServiceInv s running
      → find f s.tracked ≡ some t
      → 0 < in_flight (is_read_of f) s.workers.tasks running
      → f ≢ s.notifier.read_fd
      → member f s.rd_set ≡ true
      → in_flight
          (is_read_of f)
          (process_fd f (track f (some callback) callback_write s)).workers.tasks
          running
        ≡ 2
  unfolding track wake put
  track-over_in_flight s running f t callback callback_write inv e started other ready = ground (
    arith,
    inv f,
    ap (λ (u : IoService C). count (is_queued (is_read_of f)) u.workers.tasks)
        (visit_anew s f callback callback_write other),
    visit-tasks (track f (some callback) callback_write s) f callback callback_write ready,
  )
