-- ===== src/Tests/Threads.antt =====
-- A run of the service with its threads: the socket is tracked, served, marked and let go.
use tacopie.IoService
use tacopie.ThreadPool
use tacopie.Prelude.{◌⊎◌, ◌≤◌, ◌+◌, refl, ℕ, false, [], ◌∷◌, none, some, count}
use tacopie.Tests.Service.{
  pipe, socket, ready, tracked, served, emptied, running, marked, Reach-running,
}
use tacopie.Typedefs.{find, assign, erase}
use tacopie.ThreadPool.Workers.{fetching, executing}
use tacopie.ThreadPool.{spawn_loop, set_nb_threads}
use tacopie.SelfPipe.{notify, clr_buffer}
use tacopie.IoService.Threads.{
  poller_processes, poller_selects, poller_prepares, thread_fetches, caller_calls, thread_start,
  thread_next, ThreadReach, Threads,
}
use tacopie.IoService.Poll.{
  read_phase, write_phase, untrack_phase, process_socket, process_fd, poll_entry, poll_entries,
  init_poll_fds_info, apply_select, process_fds, process_events,
}
use tacopie.IoService.System.{
  is_write_of, tracks, at_test, untracks, calls, is_read_of, Step, is_queued,
}
use tacopie.IoService.Lifecycle.{life, Move}
use tacopie.IoService.Threads.Exclusive.{ThreadReach-counts, runs}
use tacopie.IoService.Lifecycle.Refines.{IsTrackedAnew, Step-refines-Move}
use tacopie.IoService.{TrackedSocket, wake, put, read_job}
use tacopie.IoService.Invariant.{writing, reading}
use tacopie.IoService.Track.{untrack_entry, untrack, is_removed, track}
use tacopie.ThreadPool.{set_nb_threads}

abbrev threads_tracked : Threads ℕ
threads_tracked = record { service = tracked.service; threads = fetching ∷ []; poller = at_test }

abbrev threads_running : Threads ℕ
threads_running = record {
  service = running.service;
  threads = executing (some (read_job socket 1)) ∷ [];
  poller = at_test;
}

ThreadReach-tracked : ThreadReach pipe threads_tracked
unfolding find assign erase process_events process_fds apply_select init_poll_fds_info poll_entries
    track IoService.create poll_entry process_fd process_socket untrack_phase write_phase read_phase
    IoService.process_rd_event IoService.process_wr_event put IoService.remove wake notify
    clr_buffer ThreadPool.add_task ThreadPool.create ThreadPool.set_max set_nb_threads
    ThreadPool.spawn spawn_loop ThreadPool.fetch_task_or_stop ThreadPool.should_stop is_removed
    untrack untrack_entry
ThreadReach-tracked =
    thread_next thread_start (caller_calls (tracks socket (some 1) none refl refl))

ThreadReach-served :
    ThreadReach pipe
      (record { service = served.service; threads = fetching ∷ []; poller = at_test })
unfolding find assign erase process_events process_fds apply_select init_poll_fds_info poll_entries
    track IoService.create poll_entry process_fd process_socket untrack_phase write_phase read_phase
    IoService.process_rd_event IoService.process_wr_event put IoService.remove wake notify
    clr_buffer ThreadPool.add_task ThreadPool.create ThreadPool.set_max set_nb_threads
    ThreadPool.spawn spawn_loop ThreadPool.fetch_task_or_stop ThreadPool.should_stop is_removed
    untrack untrack_entry
ThreadReach-served =
    thread_next
      (thread_next (thread_next ThreadReach-tracked (poller_prepares refl refl))
        (poller_selects (init_poll_fds_info tracked.service).1 ready refl))
      (poller_processes refl)

ThreadReach-running : ThreadReach pipe threads_running
unfolding find assign erase process_events process_fds apply_select init_poll_fds_info poll_entries
    track IoService.create poll_entry process_fd process_socket untrack_phase write_phase read_phase
    IoService.process_rd_event IoService.process_wr_event put IoService.remove wake notify
    clr_buffer ThreadPool.add_task ThreadPool.create ThreadPool.set_max set_nb_threads
    ThreadPool.spawn spawn_loop ThreadPool.fetch_task_or_stop ThreadPool.should_stop is_removed
    untrack untrack_entry
ThreadReach-running =
    thread_next ThreadReach-served
      (thread_fetches [] [] false (some (read_job socket 1)) emptied refl refl)

ThreadReach-counts_example :
    (count (is_queued (is_read_of socket)) threads_running.service.workers.tasks
        + count (runs (is_read_of socket)) threads_running.threads
      ≤ reading (find socket threads_running.service.tracked))
    × (count (is_queued (is_write_of socket)) threads_running.service.workers.tasks
          + count (runs (is_write_of socket)) threads_running.threads
        ≤ writing (find socket threads_running.service.tracked))
ThreadReach-counts_example = ThreadReach-counts ThreadReach-running socket

untrack_running : Step running marked
untrack_running = calls (untracks socket)

Step-refines-Move_example :
    Move (life (find socket running.service.tracked)) (life (find socket marked.service.tracked))
    ⊎ IsTrackedAnew socket running marked
Step-refines-Move_example = Step-refines-Move Reach-running untrack_running socket

abbrev threads_marked : Threads ℕ
threads_marked = record threads_running { service = marked.service }
