-- ===== src/IoService/Invariant/Events.antt =====
-- `process_events` keeps the invariant.
use tacopie.Prelude.{
  ◌+◌, ◌≡◌, refl, inl, inr, Bool, true, false, not, ◌&&◌, List, [], ◌∷◌, ◌++◌, Option, none, some,
  arith, Bool-cases, Option-cases, to_nat,
}
use tacopie.Typedefs.{Fd, fd_eq, find}
use tacopie.IoService.Invariant.Jobs.{fd_of}
use tacopie.IoService.System.{is_queued}
use tacopie.IoService.{member, TrackedSocket, Job, read_job, write_job}
use tacopie.IoService.Invariant.{Matches, change-Inv, SameElsewhere}
use tacopie.IoService.Invariant.Calls.{ServiceInv}
use tacopie.IoService.Poll.{
  read_phase, write_phase, untrack_phase, process_socket, process_fd, process_fds, process_events,
}
use tacopie.IoService.System.{in_flight, is_read_of, is_write_of}
use tacopie.Typedefs.{find-assign, fd_eq_refl}
use tacopie.Prelude.{count-append}
use tacopie.IoService.{IoService, process_rd_event, process_wr_event}
use tacopie.ThreadPool.{add_task}

module _ {C : Type 0} (running : List (Job C)) where
  -- A job that is queued is in flight.
  in_flight-queued :
      (test : Job C → Bool) (tasks : List (Option (Job C))) (job : Job C)
      → in_flight test (tasks ++ some job ∷ []) running
        ≡ in_flight test tasks running + to_nat (test job)
  in_flight-queued test tasks job =
      omega (arith, count-append (is_queued test) tasks (some job ∷ []))

  queued_elsewhere :
      (tasks : List (Option (Job C))) (job : Job C)
      → SameElsewhere (fd_of job) tasks (tasks ++ some job ∷ []) running running
  queued_elsewhere tasks (read_job f callback) j e = (
    ground (arith, in_flight-queued (is_read_of j) tasks (read_job f callback)),
    ground (arith, in_flight-queued (is_write_of j) tasks (read_job f callback)),
  )
  queued_elsewhere tasks (write_job f callback) j e = (
    ground (arith, in_flight-queued (is_read_of j) tasks (write_job f callback)),
    ground (arith, in_flight-queued (is_write_of j) tasks (write_job f callback)),
  )

  -- The service and the entry that a phase hands on.
  pub record Hands (f : Fd) (r : IoService C × TrackedSocket C) : Type 0 where
    pub keeps : ServiceInv r.0 running
    pub entry : find f r.0.tracked ≡ some r.1

  Matches-entry :
      (f : Fd) (t : TrackedSocket C) (s : IoService C)
      → Hands f (s, t)
      → Matches s.workers.tasks running f (some t)
  Matches-entry f t s h = rw h.entry at (h.keeps f)

  process_rd_event-Hands :
      (f : Fd) (callback : C) (t : TrackedSocket C) (s : IoService C)
      → Hands f (s, t)
      → t.is_executing_read ≡ false
      → Hands f (process_rd_event f callback t s, record t { is_executing_read = true })
  unfolding process_rd_event add_task
  process_rd_event-Hands f callback t s h quiet = record {
    keeps =
        change-Inv s.tracked _ s.workers.tasks _ running running f
          (some (record t { is_executing_read = true })) h.keeps (λ j. find-assign j f _ s.tracked)
          (queued_elsewhere s.workers.tasks (read_job f callback))
          (ground (
            arith,
            Matches-entry f t s h,
            in_flight-queued (is_read_of f) s.workers.tasks (read_job f callback),
            in_flight-queued (is_write_of f) s.workers.tasks (read_job f callback),
            fd_eq_refl f,
          ));
    entry = rw (find-assign f f (record t { is_executing_read = true }) s.tracked, fd_eq_refl f);
  }

  process_wr_event-Hands :
      (f : Fd) (callback : C) (t : TrackedSocket C) (s : IoService C)
      → Hands f (s, t)
      → t.is_executing_write ≡ false
      → Hands f (process_wr_event f callback t s, record t { is_executing_write = true })
  unfolding process_wr_event add_task
  process_wr_event-Hands f callback t s h quiet = record {
    keeps =
        change-Inv s.tracked _ s.workers.tasks _ running running f
          (some (record t { is_executing_write = true })) h.keeps (λ j. find-assign j f _ s.tracked)
          (queued_elsewhere s.workers.tasks (write_job f callback))
          (ground (
            arith,
            Matches-entry f t s h,
            in_flight-queued (is_read_of f) s.workers.tasks (write_job f callback),
            in_flight-queued (is_write_of f) s.workers.tasks (write_job f callback),
            fd_eq_refl f,
          ));
    entry = rw (find-assign f f (record t { is_executing_write = true }) s.tracked, fd_eq_refl f);
  }

  pub read_phase-Hands :
      (f : Fd) (t : TrackedSocket C) (s : IoService C) → Hands f (s, t) → Hands f (read_phase f t s)
  unfolding read_phase
  read_phase-Hands f t s h = elim (Option-cases t.callback_read) [
    | inl e ↦ rw (e, read_phase) h
    | inr (callback, e) ↦ elim (Bool-cases (member f s.rd_set && not t.is_executing_read)) [
      | inl ready ↦
          rw (e, read_phase, ready) (process_rd_event-Hands f callback t s h (ground arith))
      | inr not_ready ↦ rw (e, read_phase, not_ready) h
    ]
  ]

  pub write_phase-Hands :
      (f : Fd) (t : TrackedSocket C) (s : IoService C)
      → Hands f (s, t)
      → Hands f (write_phase f t s)
  unfolding write_phase
  write_phase-Hands f t s h = elim (Option-cases t.callback_write) [
    | inl e ↦ rw (e, write_phase) h
    | inr (callback, e) ↦ elim (Bool-cases (member f s.wr_set && not t.is_executing_write)) [
      | inl ready ↦
          rw (e, write_phase, ready) (process_wr_event-Hands f callback t s h (ground arith))
      | inr not_ready ↦ rw (e, write_phase, not_ready) h
    ]
  ]

  -- Under the invariant a marked socket has a flag up, so this phase removes nothing.
  pub untrack_phase_idle :
      (f : Fd) (t : TrackedSocket C) (s : IoService C) → Hands f (s, t) → untrack_phase f t s ≡ s
  unfolding untrack_phase
  untrack_phase_idle f t s h = ground (arith, Matches-entry f t s h)

  process_socket-Inv :
      (f : Fd) (s : IoService C) (o : Option (TrackedSocket C))
      → find f s.tracked ≡ o
      → ServiceInv s running
      → ServiceInv (process_socket f o s) running
  unfolding process_socket
  process_socket-Inv f s none e inv = inv
  process_socket-Inv f s (some t) e inv =
      let first = read_phase-Hands f t s (record { keeps = inv; entry = e }) in
      let second = write_phase-Hands f (read_phase f t s).1 (read_phase f t s).0 first in
      rw (untrack_phase_idle f _ _ second) second.keeps

  pub process_fd-Inv :
      (f : Fd) (s : IoService C) → ServiceInv s running → ServiceInv (process_fd f s) running
  unfolding process_fd
  process_fd-Inv f s inv = elim (Bool-cases (fd_eq f s.notifier.read_fd && member f s.rd_set)) [
    | inl wakes ↦ rw (wakes, process_fd) inv
    | inr socket ↦ rw (socket, process_fd) (process_socket-Inv f s (find f s.tracked) refl inv)
  ]

  process_fds-Inv :
      (fs : List Fd) (s : IoService C)
      → ServiceInv s running
      → ServiceInv (process_fds fs s) running
  unfolding process_fds
  process_fds-Inv [] s inv = inv
  process_fds-Inv (f ∷ fs) s inv = process_fds-Inv fs (process_fd f s) (process_fd-Inv f s inv)

  -- Starting the callbacks of all sockets that select() reports keeps the invariant.
  pub process_events-Inv :
      (s : IoService C) → ServiceInv s running → ServiceInv (process_events s) running
  unfolding process_events
  process_events-Inv s inv = process_fds-Inv s.polled_fds s inv
