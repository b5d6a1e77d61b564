-- ===== src/IoService/Signals.antt =====
-- No wake-up of `wait_for_removal` is lost: what removes a socket notifies the condition variable.
use tacopie.Prelude.{
  ◌≤◌, ◌<◌, ◌≡◌, Bool, true, false, not, ◌&&◌, ◌||◌, List, [], ◌∷◌, Option, none, some, arith,
  if◌then◌else◌, Bool-cases,
}
use tacopie.Typedefs.{Fd, fd_eq, find}
use tacopie.IoService.{member, TrackedSocket, Job, read_job, write_job}
use tacopie.IoService.System.{
  throws, System, Step, Call, tracks, sets_rd, sets_wr, untracks, resizes, destroys, calls,
  prepares, selects, processes, ends, fetches, finishes,
}
use tacopie.IoService.Poll.{
  init_poll_fds_info, apply_select, read_phase, write_phase, untrack_phase, process_socket,
  process_fd, process_fds, process_events,
}
use tacopie.IoService.{
  IoService, put, remove, wake, process_rd_event, process_wr_event, destroy, set_nb_workers,
}
use tacopie.IoService.Track.{
  is_removed, track, set_rd_callback, set_wr_callback, untrack_entry, untrack,
}
use tacopie.IoService.Jobs.{
  finish_read_entry, finish_read, finish_write_entry, finish_write, finish,
}
use tacopie.Typedefs.{find-assign, find-erase}

module _ {C : Type 0} where
  -- Notifications do not become fewer, and one is made if `f` is tracked before and not after.
  pub record Signals (f : Fd) (s t : IoService C) : Type 0 where
    pub more : s.removal_signals ≤ t.removal_signals
    pub on_removal :
        is_removed f s ≡ false → is_removed f t ≡ true → s.removal_signals < t.removal_signals

  module _ (f : Fd) where
    Signals-trans : {s t u : IoService C} → Signals f s t → Signals f t u → Signals f s u
    Signals-trans {t} a b = ground (arith, Bool-cases (is_removed f t))

    Signals-refl : (s : IoService C) → Signals f s s
    Signals-refl s = ground arith

    put-Signals : (g : Fd) (t : TrackedSocket C) (s : IoService C) → Signals f s (put g t s)
    unfolding put is_removed
    put-Signals g t s = ground (arith, find-assign f g t s.tracked)

    remove-Signals : (g : Fd) (s : IoService C) → Signals f s (remove g s)
    unfolding remove is_removed
    remove-Signals g s = ground (arith, find-erase f g s.tracked)

    wake-Signals : (s t : IoService C) → Signals f s t → Signals f s (wake t)
    unfolding wake is_removed
    wake-Signals s t h = ground arith

    track-Signals :
        (g : Fd) (callback_read callback_write : Option C) (s : IoService C)
        → Signals f s (track g callback_read callback_write s)
    unfolding track
    track-Signals g callback_read callback_write s = wake-Signals s _ (put-Signals g _ s)

    set_rd_callback-Signals :
        (g : Fd) (callback : Option C) (s : IoService C)
        → Signals f s (set_rd_callback g callback s)
    unfolding set_rd_callback
    set_rd_callback-Signals g callback s = wake-Signals s _ (put-Signals g _ s)

    set_wr_callback-Signals :
        (g : Fd) (callback : Option C) (s : IoService C)
        → Signals f s (set_wr_callback g callback s)
    unfolding set_wr_callback
    set_wr_callback-Signals g callback s = wake-Signals s _ (put-Signals g _ s)

    either_way :
        (b : Bool) (s t u : IoService C)
        → Signals f s t
        → Signals f s u
        → Signals f s (if b then t else u)
    either_way true s t u a b = a
    either_way false s t u a b = b

    untrack_entry-Signals :
        (g : Fd) (o : Option (TrackedSocket C)) (s : IoService C)
        → Signals f s (untrack_entry g o s)
    unfolding untrack_entry
    untrack_entry-Signals g none s = Signals-refl s
    untrack_entry-Signals g (some t) s = wake-Signals s _ (
        either_way (t.is_executing_read || t.is_executing_write) s _ _ (put-Signals g _ s)
          (remove-Signals g s))

    put-remove-Signals :
        (g : Fd) (t : TrackedSocket C) (s : IoService C) → Signals f s (remove g (put g t s))
    put-remove-Signals g t s = Signals-trans (put-Signals g t s) (remove-Signals g (put g t s))

    finish_read_entry-Signals :
        (g : Fd) (o : Option (TrackedSocket C)) (s : IoService C)
        → Signals f s (finish_read_entry g o s)
    unfolding finish_read_entry
    finish_read_entry-Signals g none s = Signals-refl s
    finish_read_entry-Signals g (some t) s = wake-Signals s _ (
        either_way (t.marked_for_untrack && not t.is_executing_write) s _ _
          (put-remove-Signals g _ s) (put-Signals g _ s))

    finish_write_entry-Signals :
        (g : Fd) (o : Option (TrackedSocket C)) (s : IoService C)
        → Signals f s (finish_write_entry g o s)
    unfolding finish_write_entry
    finish_write_entry-Signals g none s = Signals-refl s
    finish_write_entry-Signals g (some t) s = wake-Signals s _ (
        either_way (t.marked_for_untrack && not t.is_executing_read) s _ _
          (put-remove-Signals g _ s) (put-Signals g _ s))

    finish-Signals : (job : Job C) (s : IoService C) → Signals f s (finish job s)
    unfolding finish finish_read finish_write
    finish-Signals (read_job g callback) s = finish_read_entry-Signals g (find g s.tracked) s
    finish-Signals (write_job g callback) s = finish_write_entry-Signals g (find g s.tracked) s

    read_phase-Signals :
        (g : Fd) (t : TrackedSocket C) (s : IoService C) → Signals f s (read_phase g t s).0
    unfolding read_phase process_rd_event put is_removed
    read_phase-Signals g t s =
        ground (arith, find-assign f g (record t { is_executing_read = true }) s.tracked)

    write_phase-Signals :
        (g : Fd) (t : TrackedSocket C) (s : IoService C) → Signals f s (write_phase g t s).0
    unfolding write_phase process_wr_event put is_removed
    write_phase-Signals g t s =
        ground (arith, find-assign f g (record t { is_executing_write = true }) s.tracked)

    untrack_phase-Signals :
        (g : Fd) (t : TrackedSocket C) (s : IoService C) → Signals f s (untrack_phase g t s)
    unfolding untrack_phase
    untrack_phase-Signals g t s =
        either_way (t.marked_for_untrack && not t.is_executing_read && not t.is_executing_write) s _
          _ (remove-Signals g s) (Signals-refl s)

    process_socket-Signals :
        (g : Fd) (o : Option (TrackedSocket C)) (s : IoService C)
        → Signals f s (process_socket g o s)
    unfolding process_socket
    process_socket-Signals g none s = Signals-refl s
    process_socket-Signals g (some t) s = Signals-trans (read_phase-Signals g t s) (
        Signals-trans (write_phase-Signals g (read_phase g t s).1 (read_phase g t s).0)
          (untrack_phase-Signals g _ _))

    process_fds-Signals : (gs : List Fd) (s : IoService C) → Signals f s (process_fds gs s)
    unfolding process_fds process_fd is_removed
    process_fds-Signals [] s = Signals-refl s
    process_fds-Signals (g ∷ gs) s =
        Signals-trans
          (either_way (fd_eq g s.notifier.read_fd && member g s.rd_set) s _ _ (ground arith)
            (process_socket-Signals g (find g s.tracked) s))
          (process_fds-Signals gs (process_fd g s))

    Call-Signals : {s t : IoService C} {running : List (Job C)} → Call s running t → Signals f s t
    unfolding untrack set_nb_workers destroy is_removed
    Call-Signals {s} (tracks g callback_read callback_write no_read no_write) =
        track-Signals g callback_read callback_write s
    Call-Signals {s} (sets_rd g callback) = set_rd_callback-Signals g callback s
    Call-Signals {s} (sets_wr g callback) = set_wr_callback-Signals g callback s
    Call-Signals {s} (untracks g) = untrack_entry-Signals g (find g s.tracked) s
    Call-Signals (resizes n) = ground arith
    Call-Signals destroys = ground arith

  -- Whatever step takes a tracked socket out of the service, it also notifies those who wait for a
  -- removal; and no step takes a notification back.
  pub Step-Signals : {s t : System C} → Step s t → (f : Fd) → Signals f s.service t.service
  unfolding init_poll_fds_info apply_select process_events is_removed
  Step-Signals (calls call) f = Call-Signals f call
  Step-Signals (prepares at going) f = ground arith
  Step-Signals (selects bound answer at) f = ground arith
  Step-Signals {s} (processes at) f = process_fds-Signals f s.service.polled_fds s.service
  Step-Signals (ends at stopped) f = ground arith
  Step-Signals (fetches before behind stopped job p at e) f = ground arith
  Step-Signals {s} (finishes before behind job at) f = finish-Signals f job s.service
  Step-Signals (throws before behind job at) f = ground arith
