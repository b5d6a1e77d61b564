-- ===== src/IoService/Served.antt =====
-- Which callbacks `process_events` starts.
use tacopie.Prelude.{
  refl, Option-cases, inr, inl, ◌≢◌, ◌≡◌, true, ◌&&◌, ◌||◌, List, [], ◌∷◌, Option, none, some,
  arith, if◌then◌else◌, Bool-cases,
}
use tacopie.Typedefs.{fd_eq_iff, Fd, fd_eq, find}
use tacopie.SelfPipe.{clr_buffer}
use tacopie.Typedefs.{member}
use tacopie.Prelude.{is_set}
use tacopie.IoService.{TrackedSocket, Job}
use tacopie.IoService.Poll.{
  read_phase, write_phase, process_socket, process_fd, process_fds, process_events,
}
use tacopie.IoService.{IoService, put, process_rd_event, process_wr_event}
use tacopie.Typedefs.{find-assign}
use tacopie.IoService.Invariant.Events.{
  process_events-Inv, Hands, read_phase-Hands, write_phase-Hands, untrack_phase_idle,
  process_fd-Inv,
}
use tacopie.IoService.Invariant.Calls.{ServiceInv}

module _ {C : Type 0} where
  -- What select() reported of a socket that is visited: a callback that is set gets its flag, unless
  -- it has it already.
  abbrev pub serve : Fd → List Fd → List Fd → Option (TrackedSocket C) → Option (TrackedSocket C)
  serve f rd wr none = none
  serve f rd wr (some t) = some (record t {
    is_executing_read = t.is_executing_read || member f rd && is_set t.callback_read;
    is_executing_write = t.is_executing_write || member f wr && is_set t.callback_write;
  })

  -- The parts of the service that the loop reads and does not change.
  pub record SameSets (s t : IoService C) : Type 0 where
    pub rd : t.rd_set ≡ s.rd_set
    pub wr : t.wr_set ≡ s.wr_set
    pub notifier_fd : t.notifier.read_fd ≡ s.notifier.read_fd

  read_phase_lem :
      (f : Fd) (t : TrackedSocket C) (s : IoService C)
      → find f s.tracked ≡ some t
      → SameSets s (read_phase f t s).0
        × ((read_phase f t s).1 ≡ record t {
          is_executing_read = t.is_executing_read || member f s.rd_set && is_set t.callback_read;
        })
        × ((j : Fd)
            → find j (read_phase f t s).0.tracked
              ≡ (if fd_eq j f then some (read_phase f t s).1 else find j s.tracked))
  unfolding read_phase process_rd_event put
  read_phase_lem f t s e = (
    ground arith,
    ground arith,
    λ j.
        ground
          (arith, find-assign j f (record t { is_executing_read = true }) s.tracked, fd_eq_iff j f),
  )

  write_phase_lem :
      (f : Fd) (t : TrackedSocket C) (s : IoService C)
      → find f s.tracked ≡ some t
      → SameSets s (write_phase f t s).0
        × ((write_phase f t s).1 ≡ record t {
          is_executing_write = t.is_executing_write || member f s.wr_set && is_set t.callback_write;
        })
        × ((j : Fd)
            → find j (write_phase f t s).0.tracked
              ≡ (if fd_eq j f then some (write_phase f t s).1 else find j s.tracked))
  unfolding write_phase process_wr_event put
  write_phase_lem f t s e = (
    ground arith,
    ground arith,
    λ j.
        ground (
          arith,
          find-assign j f (record t { is_executing_write = true }) s.tracked,
          fd_eq_iff j f,
        ),
  )

  pub process_socket_lem :
      (running : List (Job C)) (f : Fd) (t : TrackedSocket C) (s : IoService C)
      → Hands running f (s, t)
      → SameSets s (process_socket f (some t) s)
        × ((j : Fd)
            → find j (process_socket f (some t) s).tracked
              ≡ (if fd_eq j f then serve f s.rd_set s.wr_set (some t) else find j s.tracked))
  unfolding process_socket
  process_socket_lem running f t s h =
      let first = read_phase-Hands running f t s h in
      let second = write_phase-Hands running f (read_phase f t s).1 (read_phase f t s).0 first in
      let (same_read, entry_read, found_read) = read_phase_lem f t s h.entry in
      let (same_write, entry_write, found_write) =
        write_phase_lem f (read_phase f t s).1 (read_phase f t s).0 first.entry in
      rw (untrack_phase_idle running f _ _ second)
        (ground arith, λ j. ground (arith, found_read j, found_write j))

  pub process_fd_lem :
      (running : List (Job C)) (f : Fd) (s : IoService C)
      → ServiceInv s running
      → SameSets s (process_fd f s)
        × ((j : Fd)
            → j ≢ s.notifier.read_fd
            → find j (process_fd f s).tracked ≡ (
                if fd_eq j f
                then serve f s.rd_set s.wr_set (find j s.tracked)
                else find j s.tracked))
  unfolding process_fd process_socket clr_buffer
  process_fd_lem running f s inv =
      elim (Bool-cases (fd_eq f s.notifier.read_fd && member f s.rd_set)) [
        | inl wakes ↦
            rw (wakes, process_fd)
              (
                ground arith,
                λ j other. ground (arith, fd_eq_iff j f, fd_eq_iff f s.notifier.read_fd),
              )
        | inr socket ↦ elim (Option-cases (find f s.tracked)) [
          | inl e ↦
              rw (socket, process_fd, e, process_socket)
                (ground arith, λ j other. ground (arith, fd_eq_iff j f))
          | inr (t, e) ↦
              let (same, found) =
                process_socket_lem running f t s (record { keeps = inv; entry = e }) in
              rw (socket, process_fd, e) (same, λ j other. ground (arith, found j, fd_eq_iff j f))
        ]
      ]

  pub serve_idem :
      (j : Fd) (rd wr : List Fd) (o : Option (TrackedSocket C))
      → serve j rd wr (serve j rd wr o) ≡ serve j rd wr o
  serve_idem j rd wr none = refl
  serve_idem j rd wr (some t) = ground arith

  process_fds_lem :
      (running : List (Job C)) (fs : List Fd) (s : IoService C)
      → ServiceInv s running
      → (j : Fd) → j ≢ s.notifier.read_fd
      → find j (process_fds fs s).tracked
        ≡ (if member j fs then serve j s.rd_set s.wr_set (find j s.tracked) else find j s.tracked)
  unfolding process_fds
  process_fds_lem running [] s inv j other = refl
  process_fds_lem running (f ∷ fs) s inv j other =
      let (same, found) = process_fd_lem running f s inv in
      let rest =
        process_fds_lem running fs (process_fd f s) (process_fd-Inv running f s inv) j
          (rw same.notifier_fd other) in
      elim (Bool-cases (fd_eq j f)) [
        | inl e ↦
            let same_fd : j ≡ f = (fd_eq_iff j f).0 e in
            ground (arith, found j, serve_idem j s.rd_set s.wr_set (find j s.tracked))
        | inr e ↦ ground (arith, found j)
      ]

  pub process_events_lem :
      (running : List (Job C)) (s : IoService C) (j : Fd)
      → ServiceInv s running
      → j ≢ s.notifier.read_fd
      → ServiceInv (process_events s) running
        × (find j (process_events s).tracked ≡ (
            if member j s.polled_fds
            then serve j s.rd_set s.wr_set (find j s.tracked)
            else find j s.tracked))
  unfolding process_events
  process_events_lem running s j inv other =
      (process_events-Inv running s inv, process_fds_lem running s.polled_fds s inv j other)
