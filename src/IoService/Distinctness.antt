-- ===== src/IoService/Distinctness.antt =====
-- The map of the tracked sockets has one entry for a descriptor, whatever the threads do.
use tacopie.Prelude.{
  Bool, true, false, not, ◌&&◌, ◌||◌, List, [], ◌∷◌, Option, none, some, arith, if◌then◌else◌,
}
use tacopie.Typedefs.{Fd, fd_eq, find}
use tacopie.IoService.{member, TrackedSocket, Job, read_job, write_job}
use tacopie.IoService.System.{
  start, next, next, Reach, System, Step, Call, tracks, sets_rd, sets_wr, untracks, resizes,
  destroys, calls, prepares, selects, processes, ends, fetches, finishes, throws,
}
use tacopie.IoService.Poll.{
  init_poll_fds_info, apply_select, read_phase, write_phase, untrack_phase, process_socket,
  process_fd, process_fds, process_events,
}
use tacopie.IoService.{
  IoService, put, remove, wake, process_rd_event, process_wr_event, destroy, set_nb_workers,
}
use tacopie.IoService.Track.{track, set_rd_callback, set_wr_callback, untrack_entry, untrack}
use tacopie.IoService.Jobs.{
  finish_read_entry, finish_read, finish_write_entry, finish_write, finish,
}
use tacopie.Typedefs.{Distinct, assign-Distinct, erase-Distinct}
use tacopie.IoService.{create}
use tacopie.SelfPipe.{SelfPipe}

module _ {C : Type 0} where
  put-Distinct :
      (f : Fd) (t : TrackedSocket C) (s : IoService C)
      → Distinct s.tracked
      → Distinct (put f t s).tracked
  unfolding put
  put-Distinct f t s d = assign-Distinct f t s.tracked d

  remove-Distinct : (f : Fd) (s : IoService C) → Distinct s.tracked → Distinct (remove f s).tracked
  unfolding remove
  remove-Distinct f s d = erase-Distinct f s.tracked d

  choose_Distinct :
      (b : Bool) (s t : IoService C)
      → Distinct s.tracked
      → Distinct t.tracked
      → Distinct (if b then s else t).tracked
  choose_Distinct true s t d e = d
  choose_Distinct false s t d e = e

  untrack_entry-Distinct :
      (f : Fd) (o : Option (TrackedSocket C)) (s : IoService C)
      → Distinct s.tracked
      → Distinct (untrack_entry f o s).tracked
  unfolding untrack_entry wake
  untrack_entry-Distinct f none s d = d
  untrack_entry-Distinct f (some t) s d =
      choose_Distinct (t.is_executing_read || t.is_executing_write) _ _ (put-Distinct f _ s d)
        (remove-Distinct f s d)

  finish_read_entry-Distinct :
      (f : Fd) (o : Option (TrackedSocket C)) (s : IoService C)
      → Distinct s.tracked
      → Distinct (finish_read_entry f o s).tracked
  unfolding finish_read_entry wake
  finish_read_entry-Distinct f none s d = d
  finish_read_entry-Distinct f (some t) s d =
      choose_Distinct (t.marked_for_untrack && not t.is_executing_write) _ _
        (remove-Distinct f (put f (record t { is_executing_read = false }) s)
          (put-Distinct f _ s d))
        (put-Distinct f _ s d)

  finish_write_entry-Distinct :
      (f : Fd) (o : Option (TrackedSocket C)) (s : IoService C)
      → Distinct s.tracked
      → Distinct (finish_write_entry f o s).tracked
  unfolding finish_write_entry wake
  finish_write_entry-Distinct f none s d = d
  finish_write_entry-Distinct f (some t) s d =
      choose_Distinct (t.marked_for_untrack && not t.is_executing_read) _ _
        (remove-Distinct f (put f (record t { is_executing_write = false }) s)
          (put-Distinct f _ s d))
        (put-Distinct f _ s d)

  finish-Distinct :
      (job : Job C) (s : IoService C) → Distinct s.tracked → Distinct (finish job s).tracked
  unfolding finish finish_read finish_write
  finish-Distinct (read_job f callback) s d = finish_read_entry-Distinct f (find f s.tracked) s d
  finish-Distinct (write_job f callback) s d = finish_write_entry-Distinct f (find f s.tracked) s d

  phases-Distinct :
      (f : Fd) (t : TrackedSocket C) (s : IoService C)
      → Distinct s.tracked
      → (Distinct (read_phase f t s).0.tracked) × (Distinct (write_phase f t s).0.tracked)
  unfolding read_phase write_phase process_rd_event process_wr_event
  phases-Distinct f t s d = (
    ground (arith, put-Distinct f (record t { is_executing_read = true }) s d),
    ground (arith, put-Distinct f (record t { is_executing_write = true }) s d),
  )

  process_socket-Distinct :
      (f : Fd) (o : Option (TrackedSocket C)) (s : IoService C)
      → Distinct s.tracked
      → Distinct (process_socket f o s).tracked
  unfolding process_socket untrack_phase
  process_socket-Distinct f none s d = d
  process_socket-Distinct f (some t) s d =
      let after_read = (phases-Distinct f t s d).0 in
      let after_write =
        (phases-Distinct f (read_phase f t s).1 (read_phase f t s).0 after_read).1 in
      choose_Distinct _ _ _ (remove-Distinct f _ after_write) after_write

  process_fds-Distinct :
      (fs : List Fd) (s : IoService C) → Distinct s.tracked → Distinct (process_fds fs s).tracked
  unfolding process_fds process_fd
  process_fds-Distinct [] s d = d
  process_fds-Distinct (f ∷ fs) s d = process_fds-Distinct fs (process_fd f s) (
      choose_Distinct (fd_eq f s.notifier.read_fd && member f s.rd_set) _ _ d
        (process_socket-Distinct f (find f s.tracked) s d))

  Call-Distinct :
      {s t : IoService C} {running : List (Job C)}
      → Call s running t
      → Distinct s.tracked
      → Distinct t.tracked
  unfolding track set_rd_callback set_wr_callback untrack set_nb_workers destroy wake
  Call-Distinct {s} (tracks f callback_read callback_write no_read no_write) d =
      put-Distinct f _ s d
  Call-Distinct {s} (sets_rd f callback) d = put-Distinct f _ s d
  Call-Distinct {s} (sets_wr f callback) d = put-Distinct f _ s d
  Call-Distinct {s} (untracks f) d = untrack_entry-Distinct f (find f s.tracked) s d
  Call-Distinct (resizes n) d = d
  Call-Distinct destroys d = d

  Step-Distinct :
      {s t : System C} → Step s t → Distinct s.service.tracked → Distinct t.service.tracked
  unfolding init_poll_fds_info apply_select process_events
  Step-Distinct (calls call) d = Call-Distinct call d
  Step-Distinct (prepares at going) d = d
  Step-Distinct (selects bound answer at) d = d
  Step-Distinct {s} (processes at) d = process_fds-Distinct s.service.polled_fds s.service d
  Step-Distinct (ends at stopped) d = d
  Step-Distinct (fetches before behind stopped job p at e) d = d
  Step-Distinct {s} (finishes before behind job at) d = finish-Distinct job s.service d
  Step-Distinct (throws before behind job at) d = d

  -- In every reachable state no descriptor has two entries among the tracked sockets.
  pub Reach-Distinct :
      {notifier : SelfPipe} {s : System C} → Reach notifier s → Distinct s.service.tracked
  unfolding create
  Reach-Distinct start = tt
  Reach-Distinct (next r st) = Step-Distinct st (Reach-Distinct r)
