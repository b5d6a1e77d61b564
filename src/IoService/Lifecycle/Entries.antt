-- ===== src/IoService/Lifecycle/Entries.antt =====
-- What each function of the service does to the life of a descriptor.
use tacopie.Typedefs.{Fd, fd_eq, fd_eq_iff, find, member, find-assign, find-erase}
use tacopie.IoService.{IoService, TrackedSocket, Job}
use tacopie.IoService.{put, remove, wake}
use tacopie.IoService.Served.{process_fd_lem, serve, serve_idem, process_socket_lem}
use tacopie.Prelude.{
  ◌≡◌, refl, ◌⊎◌, inl, inr, false, ◌&&◌, ◌||◌, List, [], ◌∷◌, Option, none, some, arith,
  if◌then◌else◌, is_set, Bool-cases, Option-cases,
}
use tacopie.IoService.Lifecycle.{leaves_quiet, marks_busy, raises, appears, gone, stays, life, Move}
use tacopie.IoService.Poll.{process_socket, process_events, process_fd, process_fds}
use tacopie.IoService.Invariant.Calls.{ServiceInv}
use tacopie.IoService.Invariant.Events.{process_fd-Inv}
use tacopie.IoService.Track.{
  untrack_entry, entry_or_fresh, set_rd_callback, set_wr_callback, track, untrack,
}
use tacopie.IoService.Invariant.{Matches}

module _ {C : Type 0} where
  -- Serving a polled socket starts what was not running.
  serve-Move :
      (f : Fd) (rd wr : List Fd) (o : Option (TrackedSocket C))
      → Move (life o) (life (serve f rd wr o))
  serve-Move f rd wr none = stays
  serve-Move f rd wr (some t) =
      raises t.is_executing_read t.is_executing_write t.marked_for_untrack
        (member f rd && is_set t.callback_read) (member f wr && is_set t.callback_write)

  -- A visit of a descriptor leaves an entry as it is, or serves it.
  process_fd-served :
      (running : List (Job C)) (f j : Fd) (s : IoService C)
      → ServiceInv s running
      → (find j (process_fd f s).tracked ≡ find j s.tracked)
        ⊎ (find j (process_fd f s).tracked ≡ serve j s.rd_set s.wr_set (find j s.tracked))
  unfolding process_fd process_socket
  process_fd-served running f j s inv =
      elim (Bool-cases (fd_eq f s.notifier.read_fd && member f s.rd_set)) [
        | inl wakes ↦ rw (wakes, process_fd) (inl refl)
        | inr socket ↦ elim (Option-cases (find f s.tracked)) [
          | inl e ↦ rw (socket, process_fd, e, process_socket) (inl refl)
          | inr (t, e) ↦
              let (same, found) =
                process_socket_lem running f t s (record { keeps = inv; entry = e }) in
              rw (socket, process_fd, e) (ground (arith, found j, fd_eq_iff j f))
        ]
      ]

  process_fd-sets :
      (running : List (Job C)) (f : Fd) (s : IoService C)
      → ServiceInv s running
      → ((process_fd f s).rd_set ≡ s.rd_set) × ((process_fd f s).wr_set ≡ s.wr_set)
  process_fd-sets running f s inv =
      let (same, found) = process_fd_lem running f s inv in (same.rd, same.wr)

  pub process_fds-served :
      (running : List (Job C)) (fs : List Fd) (j : Fd) (s : IoService C)
      → ServiceInv s running
      → (find j (process_fds fs s).tracked ≡ find j s.tracked)
        ⊎ (find j (process_fds fs s).tracked ≡ serve j s.rd_set s.wr_set (find j s.tracked))
  unfolding process_fds
  process_fds-served running [] j s inv = inl refl
  process_fds-served running (f ∷ fs) j s inv = ground (
    arith,
    process_fds-served running fs j (process_fd f s) (process_fd-Inv running f s inv),
    process_fd-served running f j s inv,
    process_fd-sets running f s inv,
    serve_idem j s.rd_set s.wr_set (find j s.tracked),
  )

  pub process_events-Move :
      (running : List (Job C)) (j : Fd) (s : IoService C)
      → ServiceInv s running
      → Move (life (find j s.tracked)) (life (find j (process_events s).tracked))
  unfolding process_events
  process_events-Move running j s inv = elim (process_fds-served running s.polled_fds j s inv) [
    | inl e ↦ rw (e) stays
    | inr e ↦ rw (e) (serve-Move j s.rd_set s.wr_set (find j s.tracked))
  ]

  -- A change of one entry.
  pub change-Move :
      (m m' : List (Fd × TrackedSocket C)) (f : Fd) (o : Option (TrackedSocket C))
      → ((j : Fd) → find j m' ≡ (if fd_eq j f then o else find j m))
      → Move (life (find f m)) (life o)
      → (j : Fd) → Move (life (find j m)) (life (find j m'))
  change-Move m m' f o found here j = elim (Bool-cases (fd_eq j f)) [
    | inl e ↦ rw (found j, e, (fd_eq_iff j f).0 e) here
    | inr e ↦ rw (found j, e) stays
  ]

  pub put-Move :
      (f : Fd) (t : TrackedSocket C) (s : IoService C)
      → Move (life (find f s.tracked)) (life (some t))
      → (j : Fd) → Move (life (find j s.tracked)) (life (find j (put f t s).tracked))
  unfolding put
  put-Move f t s here = change-Move s.tracked _ f (some t) (λ j. find-assign j f t s.tracked) here

  remove-Move :
      (f : Fd) (s : IoService C)
      → Move (life (find f s.tracked)) gone
      → (j : Fd) → Move (life (find j s.tracked)) (life (find j (remove f s).tracked))
  unfolding remove
  remove-Move f s here = change-Move s.tracked _ f none (λ j. find-erase j f s.tracked) here

  -- To track another descriptor is no move of this one.
  pub track-Move :
      (f : Fd) (callback_read callback_write : Option C) (s : IoService C) (j : Fd)
      → fd_eq j f ≡ false
      → Move
          (life (find j s.tracked))
          (life (find j (track f callback_read callback_write s).tracked))
  unfolding track wake put
  track-Move f callback_read callback_write s j other =
      rw (find-assign j f _ s.tracked, other) stays

  pub set_rd_callback-Move :
      (f : Fd) (callback : Option C) (s : IoService C) (j : Fd)
      → Move (life (find j s.tracked)) (life (find j (set_rd_callback f callback s).tracked))
  unfolding set_rd_callback wake
  set_rd_callback-Move f callback s = put-Move f _ s (same_flags (find f s.tracked))
    where
      same_flags :
          (o : Option (TrackedSocket C))
          → Move (life o) (life (some (record (entry_or_fresh o) { callback_read = callback })))
      same_flags none = appears
      same_flags (some t) = stays

  pub set_wr_callback-Move :
      (f : Fd) (callback : Option C) (s : IoService C) (j : Fd)
      → Move (life (find j s.tracked)) (life (find j (set_wr_callback f callback s).tracked))
  unfolding set_wr_callback wake
  set_wr_callback-Move f callback s = put-Move f _ s (same_flags (find f s.tracked))
    where
      same_flags :
          (o : Option (TrackedSocket C))
          → Move (life o) (life (some (record (entry_or_fresh o) { callback_write = callback })))
      same_flags none = appears
      same_flags (some t) = stays

  untrack_entry-Move :
      (f : Fd) (s : IoService C) (running : List (Job C)) (o : Option (TrackedSocket C))
      → find f s.tracked ≡ o
      → Matches s.workers.tasks running f o
      → (j : Fd) → Move (life (find j s.tracked)) (life (find j (untrack_entry f o s).tracked))
  unfolding untrack_entry wake
  untrack_entry-Move f s running none e here j = stays
  untrack_entry-Move f s running (some t) e here j =
      elim (Bool-cases (t.is_executing_read || t.is_executing_write)) [
        | inl busy ↦
            rw (busy, untrack_entry)
              (put-Move f _ s
                (rw (e)
                  (marks_busy t.is_executing_read t.is_executing_write t.marked_for_untrack busy))
                j)
        | inr quiet ↦
            rw (quiet, untrack_entry)
              (remove-Move f s
                (rw (e) (
                  leaves_quiet t.is_executing_read t.is_executing_write t.marked_for_untrack quiet
                    here.waits))
                j)
      ]

  pub untrack-Move :
      (f : Fd) (s : IoService C) (running : List (Job C))
      → ServiceInv s running
      → (j : Fd) → Move (life (find j s.tracked)) (life (find j (untrack f s).tracked))
  unfolding untrack
  untrack-Move f s running inv = untrack_entry-Move f s running (find f s.tracked) refl (inv f)
