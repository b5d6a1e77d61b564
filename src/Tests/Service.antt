-- ===== src/Tests/Service.antt =====
-- Runs of the service: a socket is tracked, polled, served, and untracked while it is served.
use tacopie.IoService
use tacopie.ThreadPool
use tacopie.Prelude.{ℕ, ◌≤◌, ◌≡◌, refl, true, false, ◌&&◌, ◌||◌, [], ◌∷◌, none, some, arith, ltb}
use tacopie.IoService.System.{
  Step, is_write_of, is_read_of, in_flight, Reach, System, tracks, untracks, calls, prepares,
  selects, processes, fetches, start, next, at_test, in_select, at_events,
}
use tacopie.Typedefs.{erase, assign, fd_eq, Distinct, find, member, Fd, fd}
use tacopie.IoService.{above, Job, IoService, TrackedSocket, put, wake, read_job, write_job}
use tacopie.SelfPipe.{clr_buffer, notify, SelfPipe}
use tacopie.IoService.Poll.{
  read_phase, write_phase, untrack_phase, process_socket, poll_entry, poll_entries, process_fds,
  process_fd, apply_select, init_poll_fds_info, process_events, SelectAnswer,
}
use tacopie.IoService.Track.{untrack_entry, is_removed, untrack, track}
use tacopie.ThreadPool.{ThreadPool, spawn_loop, set_nb_threads}
use tacopie.IoService.Safety.{callbacks_exclusive, is_removed-quiet, Reach-Inv}
use tacopie.IoService.Signals.{Step-Signals, Signals}
use tacopie.IoService.Distinctness.{Reach-Distinct}
use tacopie.IoService.Jobs.{finish}
use tacopie.IoService.Hazards.{track-over_in_flight}
use tacopie.IoService.Interest.{init_poll_fds_info_lem, wants_visit, wants_write, wants_read}
use tacopie.IoService.Stuck.{IsStuck, Step-IsStuck}
use tacopie.IoService.System.{throws, destroys}
use tacopie.Prelude.{◌≤◌, ◌⊎◌, Option}
use tacopie.IoService.Removal.{untrack_lem, finish-removes_marked, pending}

abbrev pub pipe : SelfPipe
pipe = record { read_fd = fd 3; write_fd = fd 4; pending = 0 }

abbrev pub socket : Fd
socket = fd 7

abbrev pub ready : SelectAnswer
ready = record { positive = true; rd = fd 7 ∷ []; wr = [] }

abbrev pub fresh : System ℕ
fresh = record { service = IoService.create pipe; running = []; poller = at_test }

abbrev pub tracked : System ℕ
tracked = record fresh { service = track socket (some 1) none fresh.service }

abbrev pub prepared : System ℕ
prepared = record tracked {
  service = (init_poll_fds_info tracked.service).0;
  poller = in_select (init_poll_fds_info tracked.service).1;
}

abbrev pub selected : System ℕ
selected = record prepared { service = apply_select ready prepared.service; poller = at_events }

abbrev pub served : System ℕ
served = record selected { service = process_events selected.service; poller = at_test }

Reach-tracked : Reach pipe tracked
unfolding IoService.create ThreadPool.create set_nb_threads spawn_loop ThreadPool.set_max
    ThreadPool.spawn
Reach-tracked = next start (calls (tracks socket (some 1) none refl refl))

Reach-prepared : Reach pipe prepared
unfolding find assign erase process_events process_fds apply_select init_poll_fds_info poll_entries
    track IoService.create poll_entry process_fd process_socket untrack_phase write_phase read_phase
    IoService.process_rd_event IoService.process_wr_event put IoService.remove wake notify
    clr_buffer ThreadPool.add_task ThreadPool.create ThreadPool.set_max set_nb_threads
    ThreadPool.spawn spawn_loop ThreadPool.fetch_task_or_stop ThreadPool.should_stop is_removed
    untrack untrack_entry
Reach-prepared = next Reach-tracked (prepares refl refl)

Reach-selected : Reach pipe selected
Reach-selected = next Reach-prepared (selects (init_poll_fds_info tracked.service).1 ready refl)

pub Reach-served : Reach pipe served
Reach-served = next Reach-selected (processes refl)

callbacks_exclusive_example :
    (in_flight (is_read_of socket) served.service.workers.tasks served.running ≤ 1)
    × (in_flight (is_write_of socket) served.service.workers.tasks served.running ≤ 1)
callbacks_exclusive_example = callbacks_exclusive Reach-served socket

abbrev untracked : System ℕ
untracked = record tracked { service = untrack socket tracked.service }

Reach-untracked : Reach pipe untracked
Reach-untracked = next Reach-tracked (calls (untracks socket))

is_removed-quiet_example :
    (in_flight (is_read_of socket) untracked.service.workers.tasks untracked.running ≡ 0)
    × (in_flight (is_write_of socket) untracked.service.workers.tasks untracked.running ≡ 0)
unfolding find assign erase process_events process_fds apply_select init_poll_fds_info poll_entries
    track IoService.create poll_entry process_fd process_socket untrack_phase write_phase read_phase
    IoService.process_rd_event IoService.process_wr_event put IoService.remove wake notify
    clr_buffer ThreadPool.add_task ThreadPool.create ThreadPool.set_max set_nb_threads
    ThreadPool.spawn spawn_loop ThreadPool.fetch_task_or_stop ThreadPool.should_stop is_removed
    untrack untrack_entry
is_removed-quiet_example = is_removed-quiet Reach-untracked socket refl

process-Step : Step selected served
process-Step = processes refl

tracked-Distinct : Distinct tracked.service.tracked
tracked-Distinct = Reach-Distinct Reach-tracked

init_poll_fds_info_example :
    (member socket prepared.service.rd_set ≡ (
      fd_eq socket tracked.service.notifier.read_fd
      || wants_read (find socket tracked.service.tracked)))
    × (member socket prepared.service.wr_set ≡ wants_write (find socket tracked.service.tracked))
    × (member socket prepared.service.polled_fds ≡ (
        fd_eq socket tracked.service.notifier.read_fd
        || wants_visit (find socket tracked.service.tracked)))
    × (((member socket prepared.service.rd_set || member socket prepared.service.wr_set)
          && ltb (init_poll_fds_info tracked.service).1 (above socket))
        ≡ false)
init_poll_fds_info_example = init_poll_fds_info_lem tracked.service tracked-Distinct socket

abbrev pub entry : TrackedSocket ℕ
entry = record {
  callback_read = some 1;
  is_executing_read = true;
  callback_write = none;
  is_executing_write = false;
  marked_for_untrack = false;
}

untrack_example :
    (find socket (untrack socket served.service).tracked
      ≡ some (record entry { marked_for_untrack = true }))
    × (pending socket served.service [] ≤ 1)
unfolding find assign erase process_events process_fds apply_select init_poll_fds_info poll_entries
    track IoService.create poll_entry process_fd process_socket untrack_phase write_phase read_phase
    IoService.process_rd_event IoService.process_wr_event put IoService.remove wake notify
    clr_buffer ThreadPool.add_task ThreadPool.create ThreadPool.set_max set_nb_threads
    ThreadPool.spawn spawn_loop ThreadPool.fetch_task_or_stop ThreadPool.should_stop is_removed
    untrack untrack_entry
untrack_example = untrack_lem {s = served} socket socket entry Reach-served refl

-- The pool once its thread has fetched the job.
abbrev pub emptied : ThreadPool (Job ℕ)
emptied = record served.service.workers { tasks = [] }

abbrev pub running : System ℕ
running = record served {
  service = record served.service { workers = emptied };
  running = read_job socket 1 ∷ [];
}

pub Reach-running : Reach pipe running
unfolding find assign erase process_events process_fds apply_select init_poll_fds_info poll_entries
    track IoService.create poll_entry process_fd process_socket untrack_phase write_phase read_phase
    IoService.process_rd_event IoService.process_wr_event put IoService.remove wake notify
    clr_buffer ThreadPool.add_task ThreadPool.create ThreadPool.set_max set_nb_threads
    ThreadPool.spawn spawn_loop ThreadPool.fetch_task_or_stop ThreadPool.should_stop is_removed
    untrack untrack_entry
Reach-running = next Reach-served (fetches [] [] false (some (read_job socket 1)) emptied refl refl)

abbrev pub marked : System ℕ
marked = record running { service = untrack socket running.service }

pub Reach-marked : Reach pipe marked
Reach-marked = next Reach-running (calls (untracks socket))

finish-removes_marked_example :
    (is_removed socket (finish (read_job socket 1) marked.service) ≡ true)
    × (pending socket marked.service [] ≤ 0)
unfolding find assign erase process_events process_fds apply_select init_poll_fds_info poll_entries
    track IoService.create poll_entry process_fd process_socket untrack_phase write_phase read_phase
    IoService.process_rd_event IoService.process_wr_event put IoService.remove wake notify
    clr_buffer ThreadPool.add_task ThreadPool.create ThreadPool.set_max set_nb_threads
    ThreadPool.spawn spawn_loop ThreadPool.fetch_task_or_stop ThreadPool.should_stop is_removed
    untrack untrack_entry
finish-removes_marked_example =
    finish-removes_marked {s = marked} [] [] (read_job socket 1)
      (record entry { marked_for_untrack = true }) Reach-marked refl refl refl

-- The read callback throws, and the service is destroyed.
abbrev stuck : System ℕ
stuck = record marked { running = [] }

Reach-stuck : Reach pipe stuck
Reach-stuck = next Reach-marked (throws [] [] (read_job socket 1) refl)

abbrev stuck_later : System ℕ
stuck_later = record stuck { service = IoService.destroy stuck.service }

socket-IsStuck : IsStuck socket stuck
unfolding find assign erase process_events process_fds apply_select init_poll_fds_info poll_entries
    track IoService.create poll_entry process_fd process_socket untrack_phase write_phase read_phase
    IoService.process_rd_event IoService.process_wr_event put IoService.remove wake notify
    clr_buffer ThreadPool.add_task ThreadPool.create ThreadPool.set_max set_nb_threads
    ThreadPool.spawn spawn_loop ThreadPool.fetch_task_or_stop ThreadPool.should_stop is_removed
    untrack untrack_entry
socket-IsStuck = ((refl, refl), refl)

Step-IsStuck_example :
    IsStuck socket stuck_later
    ⊎ ((r : Option ℕ) × (w : Option ℕ) × (stuck_later.service ≡ track socket r w stuck.service))
Step-IsStuck_example = Step-IsStuck socket 1 Reach-stuck (calls destroys) socket-IsStuck

untrack-Step : Step tracked untracked
untrack-Step = calls (untracks socket)

Step-Signals_example : Signals socket tracked.service untracked.service
Step-Signals_example = Step-Signals untrack-Step socket

track-over_in_flight_example :
    in_flight
      (is_read_of socket)
      (process_fd socket (track socket (some 2) none served.service)).workers.tasks
      []
    ≡ 2
unfolding find assign erase process_events process_fds apply_select init_poll_fds_info poll_entries
    track IoService.create poll_entry process_fd process_socket untrack_phase write_phase read_phase
    IoService.process_rd_event IoService.process_wr_event put IoService.remove wake notify
    clr_buffer ThreadPool.add_task ThreadPool.create ThreadPool.set_max set_nb_threads
    ThreadPool.spawn spawn_loop ThreadPool.fetch_task_or_stop ThreadPool.should_stop is_removed
    untrack untrack_entry
track-over_in_flight_example =
    track-over_in_flight served.service [] socket entry 2 none (Reach-Inv Reach-served) refl
      (omega arith) (ground arith) refl
