-- ===== src/IoService/Removal.antt =====
-- How a socket leaves the service: untrack, the last callback, and the threads that wait for it.
use tacopie.Prelude.{
  ℕ, ◌+◌, ◌≤◌, to_nat, Bool, not, ◌||◌, ◌≡◌, true, false, List, ◌∷◌, ◌++◌, none, some, arith,
  if◌then◌else◌,
}
use tacopie.Typedefs.{Fd, fd_eq, find, assign}
use tacopie.IoService.{TrackedSocket, Job, read_job, write_job}
use tacopie.IoService.Invariant.{Matches}
use tacopie.IoService.Invariant.Calls.{ServiceInv}
use tacopie.IoService.Invariant.Jobs.{fd_of, in_flight-middle}
use tacopie.IoService.System.{in_flight, is_read_of, is_write_of, System, Reach}
use tacopie.IoService.Safety.{Reach-Inv}
use tacopie.SelfPipe.{SelfPipe}
use mathlib.Core.Path.{subst}
use tacopie.IoService.{IoService, put, remove, wake}
use tacopie.IoService.Track.{is_removed, untrack_entry, untrack}
use tacopie.IoService.Jobs.{
  finish_read_entry, finish_read, finish_write_entry, finish_write, finish,
}
use tacopie.Typedefs.{find-assign, find-erase, fd_eq_refl, fd_eq_iff}

module _ {C : Type 0} where
  -- Both kinds of jobs of a socket.
  abbrev pub pending : Fd → IoService C → List (Job C) → ℕ
  pending f s running =
      in_flight (is_read_of f) s.workers.tasks running
      + in_flight (is_write_of f) s.workers.tasks running

  -- `untrack` of a tracked socket, in a reachable state: if both its flags are down it is removed at
  -- once, and none of its callbacks is in flight; otherwise it stays, marked. The other sockets stay as
  -- they are. A descriptor is tracked only while none of its callbacks is in flight.
  pub untrack_lem :
      {notifier : SelfPipe} {s : System C} (f g : Fd) (t : TrackedSocket C)
      → Reach notifier s
      → find f s.service.tracked ≡ some t
      → (find g (untrack f s.service).tracked ≡ (
          if fd_eq g f
          then if t.is_executing_read || t.is_executing_write
            then some (record t { marked_for_untrack = true })
            else none
          else find g s.service.tracked))
        × (pending f s.service s.running ≤ to_nat t.is_executing_read + to_nat t.is_executing_write)
  unfolding untrack untrack_entry put remove wake
  untrack_lem {s} f g t r e =
      let here : Matches s.service.workers.tasks s.running f (some t) = rw e at (Reach-Inv r f) in
      (
        ground (
          arith,
          find-assign g f (record t { marked_for_untrack = true }) s.service.tracked,
          find-erase g f s.service.tracked,
          fd_eq_iff g f,
        ),
        omega (arith, here.reads, here.writes),
      )

  -- Whether the flag of the other kind of callback is up.
  abbrev pub other_flag : Job C → TrackedSocket C → Bool
  other_flag (read_job f callback) t = t.is_executing_write
  other_flag (write_job f callback) t = t.is_executing_read

  finish-flag :
      (s : IoService C) (job : Job C) (t : TrackedSocket C)
      → find (fd_of job) s.tracked ≡ some t
      → t.marked_for_untrack ≡ true
      → is_removed (fd_of job) (finish job s) ≡ not (other_flag job t)
  unfolding finish finish_read finish_read_entry finish_write finish_write_entry is_removed remove
      wake put
  finish-flag s (read_job f callback) t e marked = ground (
    arith,
    find-erase f f (assign f (record t { is_executing_read = false }) s.tracked),
    find-assign f f (record t { is_executing_read = false }) s.tracked,
    fd_eq_refl f,
  )
  finish-flag s (write_job f callback) t e marked = ground (
    arith,
    find-erase f f (assign f (record t { is_executing_write = false }) s.tracked),
    find-assign f f (record t { is_executing_write = false }) s.tracked,
    fd_eq_refl f,
  )

  -- What is left of a socket after one of its jobs: at most one of the other kind.
  pending-left :
      (s : IoService C) (before behind : List (Job C)) (job : Job C) (t : TrackedSocket C)
      → Matches s.workers.tasks (before ++ job ∷ behind) (fd_of job) (some t)
      → pending (fd_of job) s (before ++ behind) ≤ to_nat (other_flag job t)
  pending-left s before behind (read_job f callback) t here = ground (
    arith,
    here.reads,
    here.writes,
    in_flight-middle (is_read_of f) s.workers.tasks before behind (read_job f callback),
    in_flight-middle (is_write_of f) s.workers.tasks before behind (read_job f callback),
    fd_eq_refl f,
  )
  pending-left s before behind (write_job f callback) t here = ground (
    arith,
    here.reads,
    here.writes,
    in_flight-middle (is_read_of f) s.workers.tasks before behind (write_job f callback),
    in_flight-middle (is_write_of f) s.workers.tasks before behind (write_job f callback),
    fd_eq_refl f,
  )

  -- In a reachable state, a callback of a marked socket returns: its end removes the socket exactly when
  -- the flag of the other kind is down, and if it does, nothing of the socket is in flight any more. A
  -- descriptor is tracked only while none of its callbacks is in flight.
  pub finish-removes_marked :
      {notifier : SelfPipe} {s : System C} (before behind : List (Job C)) (job : Job C)
      (t : TrackedSocket C)
      → Reach notifier s
      → s.running ≡ before ++ job ∷ behind
      → find (fd_of job) s.service.tracked ≡ some t
      → t.marked_for_untrack ≡ true
      → (is_removed (fd_of job) (finish job s.service) ≡ not (other_flag job t))
        × (pending (fd_of job) s.service (before ++ behind) ≤ to_nat (other_flag job t))
  finish-removes_marked {s} before behind job t r at e marked =
      let inv : ServiceInv s.service (before ++ job ∷ behind) =
        subst (ServiceInv s.service) at (Reach-Inv r) in
      (
        finish-flag s.service job t e marked,
        pending-left s.service before behind job t (rw e at (inv (fd_of job))),
      )
