-- ===== src/IoService/Stuck.antt =====
-- io_service.cpp:173 and thread_pool.cpp:66: what a read callback leaves that throws while its socket is
-- marked for removal. Its flag stays up, and nothing is in flight that would lower it.
use mathlib.Core.Path.{subst}
use tacopie.Prelude.{
  ◌≤◌, ◌≡◌, refl, sym, ap, ◌⊎◌, inl, inr, true, false, List, ◌∷◌, ◌++◌, Option, none, some, arith,
  to_nat, Bool-cases,
}
use tacopie.Typedefs.{Fd, fd_eq, fd_eq_refl, fd_eq_iff, find, assign, find-assign, find-erase}
use tacopie.IoService.{
  IoService, TrackedSocket, Job, read_job, write_job, put, remove, wake, destroy, set_nb_workers,
}
use tacopie.IoService.System.{
  System, Step, Call, Reach, tracks, sets_rd, sets_wr, untracks, resizes, destroys, calls, prepares,
  selects, processes, ends, fetches, finishes, throws, in_flight, is_read_of, fetched_job,
}
use tacopie.IoService.Track.{
  track, set_rd_callback, set_wr_callback, untrack, untrack_entry, entry_or_fresh,
}
use tacopie.IoService.Jobs.{
  finish, finish_read, finish_write, finish_read_entry, finish_write_entry,
}
use tacopie.IoService.Poll.{init_poll_fds_info, apply_select, process_events}
use tacopie.IoService.Invariant.{Matches, reading}
use tacopie.IoService.Invariant.Calls.{
  ServiceInv, set_rd_callback-Inv, set_wr_callback-Inv, untrack-Inv,
}
use tacopie.IoService.Invariant.Events.{process_events-Inv}
use tacopie.IoService.Invariant.Jobs.{finish-Inv, throws-Inv, find-erase-assign, in_flight-middle}
use tacopie.IoService.Lifecycle.Entries.{process_fds-served}
use tacopie.IoService.Safety.{Reach-Inv, fetches-Inv}
use tacopie.IoService.Served.{serve}
use tacopie.SelfPipe.{SelfPipe}
use tacopie.ThreadPool.Resize.{set_nb_threads-tasks}

module _ {C : Type 0} where
  -- Marked for removal, with the flag of a read callback up.
  abbrev pub Waits : Option (TrackedSocket C) → Type 0
  Waits none = ⊥
  Waits (some t) = (t.marked_for_untrack ≡ true) × (t.is_executing_read ≡ true)

  -- A tracked socket that waits for a read callback, of which none is in flight.
  abbrev pub IsStuck : Fd → System C → Type 0
  IsStuck f s =
      Waits (find f s.service.tracked)
      × (in_flight (is_read_of f) s.service.workers.tasks s.running ≡ 0)

  module _ (f : Fd) (callback : C) where
    -- The invariant has room for one more read callback of the socket.
    room :
        (s : IoService C) (running : List (Job C))
        → ServiceInv s running
        → Waits (find f s.tracked)
        → in_flight (is_read_of f) s.workers.tasks running ≡ 0
        → ServiceInv s (read_job f callback ∷ running)
    room s running inv waits none_flies j = record {
      reads = ground (arith, (inv j).reads, waits, none_flies, fd_eq_iff j f);
      writes = ground (arith, (inv j).writes);
      waits = (inv j).waits;
    }

    empty :
        (s : IoService C) (running : List (Job C))
        → ServiceInv s (read_job f callback ∷ running)
        → in_flight (is_read_of f) s.workers.tasks running ≡ 0
    empty s running inv = by_entry (find f s.tracked) (inv f).reads (fd_eq_refl f)
      where
        by_entry :
            (o : Option (TrackedSocket C))
            → in_flight (is_read_of f) s.workers.tasks (read_job f callback ∷ running) ≤ reading o
            → fd_eq f f ≡ true
            → in_flight (is_read_of f) s.workers.tasks running ≡ 0
        by_entry o h e = ground arith

    Waits-put :
        (g : Fd) (t : TrackedSocket C) (m : List (Fd × TrackedSocket C))
        → Waits (find f m)
        → (Waits (find g m) → Waits (some t))
        → Waits (find f (assign g t m))
    Waits-put g t m waits kept = elim (Bool-cases (fd_eq f g)) [
      | inl same ↦ rw (find-assign f g t m, same) (kept (rw (sym ((fd_eq_iff f g).0 same)) waits))
      | inr other ↦ rw (find-assign f g t m, other) waits
    ]

    track-other :
        (g : Fd) (r w : Option C) (s : IoService C) (running : List (Job C))
        → fd_eq f g ≡ false
        → Waits (find f s.tracked)
        → in_flight (is_read_of f) s.workers.tasks running ≡ 0
        → Waits (find f (track g r w s).tracked)
          × (in_flight (is_read_of f) (track g r w s).workers.tasks running ≡ 0)
    unfolding track put wake
    track-other g r w s running other waits none_flies =
        (rw (find-assign f g _ s.tracked, other) waits, none_flies)

    set_rd_callback-Waits :
        (g : Fd) (c : Option C) (s : IoService C)
        → Waits (find f s.tracked)
        → Waits (find f (set_rd_callback g c s).tracked)
    unfolding set_rd_callback put wake
    set_rd_callback-Waits g c s waits =
        Waits-put g (record (entry_or_fresh (find g s.tracked)) { callback_read = c }) s.tracked
          waits (kept (find g s.tracked))
      where
        kept :
            (o : Option (TrackedSocket C))
            → Waits o
            → Waits (some (record (entry_or_fresh o) { callback_read = c }))
        kept none w = absurd w
        kept (some t) w = w

    set_wr_callback-Waits :
        (g : Fd) (c : Option C) (s : IoService C)
        → Waits (find f s.tracked)
        → Waits (find f (set_wr_callback g c s).tracked)
    unfolding set_wr_callback put wake
    set_wr_callback-Waits g c s waits =
        Waits-put g (record (entry_or_fresh (find g s.tracked)) { callback_write = c }) s.tracked
          waits (kept (find g s.tracked))
      where
        kept :
            (o : Option (TrackedSocket C))
            → Waits o
            → Waits (some (record (entry_or_fresh o) { callback_write = c }))
        kept none w = absurd w
        kept (some t) w = w

    untrack-Waits :
        (g : Fd) (s : IoService C) → Waits (find f s.tracked) → Waits (find f (untrack g s).tracked)
    unfolding untrack untrack_entry put wake remove
    untrack-Waits g s waits = by_entry (find g s.tracked) refl
      where
        by_entry :
            (o : Option (TrackedSocket C))
            → find g s.tracked ≡ o
            → Waits (find f (untrack_entry g o s).tracked)
        by_entry none e = waits
        by_entry (some t) e = ground (
          arith,
          find-assign f g (record t { marked_for_untrack = true }) s.tracked,
          find-erase f g s.tracked,
          fd_eq_iff f g,
          waits,
        )

    serve-Waits :
        (rd wr : List Fd) (o : Option (TrackedSocket C)) → Waits o → Waits (serve f rd wr o)
    serve-Waits rd wr none w = absurd w
    serve-Waits rd wr (some t) w = ground (arith, w)

    process_events-Waits :
        (s : IoService C) (running : List (Job C))
        → ServiceInv s running
        → Waits (find f s.tracked)
        → Waits (find f (process_events s).tracked)
    unfolding process_events
    process_events-Waits s running inv waits =
        elim (process_fds-served running s.polled_fds f s inv) [
          | inl e ↦ rw (e) waits
          | inr e ↦ rw (e) (serve-Waits s.rd_set s.wr_set (find f s.tracked) waits)
        ]

    -- A write callback that ends lowers its own flag only; a read callback that ends is of another
    -- socket.
    finish-Waits :
        (job : Job C) (s : IoService C)
        → to_nat (is_read_of f job) ≡ 0
        → Waits (find f s.tracked)
        → Waits (find f (finish job s).tracked)
    unfolding finish finish_read finish_write finish_read_entry finish_write_entry put wake remove
    finish-Waits (read_job g c) s other waits = by_entry (find g s.tracked)
      where
        by_entry : (o : Option (TrackedSocket C)) → Waits (find f (finish_read_entry g o s).tracked)
        by_entry none = waits
        by_entry (some t) = ground (
          arith,
          find-assign f g (record t { is_executing_read = false }) s.tracked,
          find-erase-assign f g (record t { is_executing_read = false }) s.tracked,
          waits,
          other,
        )
    finish-Waits (write_job g c) s other waits = by_entry (find g s.tracked) refl
      where
        by_entry :
            (o : Option (TrackedSocket C))
            → find g s.tracked ≡ o
            → Waits (find f (finish_write_entry g o s).tracked)
        by_entry none e = waits
        by_entry (some t) e = ground (
          arith,
          find-assign f g (record t { is_executing_write = false }) s.tracked,
          find-erase-assign f g (record t { is_executing_write = false }) s.tracked,
          fd_eq_iff f g,
          waits,
        )

    no_read :
        (before behind : List (Job C)) (job : Job C) (tasks : List (Option (Job C)))
        (running : List (Job C))
        → running ≡ before ++ job ∷ behind
        → in_flight (is_read_of f) tasks running ≡ 0
        → to_nat (is_read_of f job) ≡ 0
    no_read before behind job tasks running at none_flies = omega (
      arith,
      none_flies,
      ap (in_flight (is_read_of f) tasks) at,
      in_flight-middle (is_read_of f) tasks before behind job,
    )

    lasting :
        {s t : IoService C} (running : List (Job C))
        → Call s running t
        → ServiceInv s running
        → Waits (find f s.tracked)
        → in_flight (is_read_of f) s.workers.tasks running ≡ 0
        → (Waits (find f t.tracked) × (in_flight (is_read_of f) t.workers.tasks running ≡ 0))
          ⊎ ((r : Option C) × (w : Option C) × (t ≡ track f r w s))
    unfolding set_nb_workers destroy
    lasting {s} running (tracks g r w no_read no_write) inv waits none_flies =
        elim (Bool-cases (fd_eq f g)) [
          | inl same ↦ inr (r, w, ap (λ k. track k r w s) (sym ((fd_eq_iff f g).0 same)))
          | inr other ↦ inl (track-other g r w s running other waits none_flies)
        ]
    lasting {s} running (sets_rd g c) inv waits none_flies = inl (
      set_rd_callback-Waits g c s waits,
      empty (set_rd_callback g c s) running (
          set_rd_callback-Inv s (read_job f callback ∷ running)
            (room s running inv waits none_flies) g c),
    )
    lasting {s} running (sets_wr g c) inv waits none_flies = inl (
      set_wr_callback-Waits g c s waits,
      empty (set_wr_callback g c s) running (
          set_wr_callback-Inv s (read_job f callback ∷ running)
            (room s running inv waits none_flies) g c),
    )
    lasting {s} running (untracks g) inv waits none_flies = inl (
      untrack-Waits g s waits,
      empty (untrack g s) running
          (untrack-Inv s (read_job f callback ∷ running) (room s running inv waits none_flies) g),
    )
    lasting {s} running (resizes n) inv waits none_flies =
        inl (waits, rw (set_nb_threads-tasks n s.workers) none_flies)
    lasting running destroys inv waits none_flies = inl (waits, none_flies)

    lasting_all :
        {s t : System C}
        → Step s t
        → ServiceInv s.service s.running
        → IsStuck f s
        → IsStuck f t ⊎ ((r : Option C) × (w : Option C) × (t.service ≡ track f r w s.service))
    unfolding init_poll_fds_info apply_select
    lasting_all {s} (calls call) inv (waits, none_flies) =
        lasting s.running call inv waits none_flies
    lasting_all (prepares at going) inv stuck = inl stuck
    lasting_all (selects bound answer at) inv stuck = inl stuck
    lasting_all {s} (processes at) inv (waits, none_flies) = inl (
      process_events-Waits s.service s.running inv waits,
      empty (process_events s.service) s.running (
          process_events-Inv (read_job f callback ∷ s.running) s.service
            (room s.service s.running inv waits none_flies)),
    )
    lasting_all (ends at stopped) inv stuck = inl stuck
    lasting_all {s} (fetches before behind stopped job p at e) inv (waits, none_flies) = inl (
      waits,
      empty (record s.service { workers = p }) (before ++ fetched_job job behind)
          (fetches-Inv s.service.tracked (read_job f callback ∷ s.running)
            (read_job f callback ∷ before) behind s.service.workers p stopped job
            (ap (◌∷◌ (read_job f callback)) at) e (room s.service s.running inv waits none_flies)),
    )
    lasting_all {s} (finishes before behind job at) inv (waits, none_flies) = inl (
      finish-Waits job s.service
          (no_read before behind job s.service.workers.tasks s.running at none_flies) waits,
      empty (finish job s.service) (before ++ behind) (
          finish-Inv s.service (read_job f callback ∷ before) behind job (
            subst (λ jobs. ServiceInv s.service (read_job f callback ∷ jobs)) at
              (room s.service s.running inv waits none_flies))),
    )
    lasting_all {s} (throws before behind job at) inv (waits, none_flies) = inl (
      waits,
      empty s.service (before ++ behind) (
          throws-Inv s.service (read_job f callback ∷ before) behind job (
            subst (λ jobs. ServiceInv s.service (read_job f callback ∷ jobs)) at
              (room s.service s.running inv waits none_flies))),
    )

  -- So it is after a read callback of a marked socket has thrown.
  throws-IsStuck :
      {notifier : SelfPipe} {s : System C} (before behind : List (Job C)) (f : Fd) (callback : C)
      (t : TrackedSocket C)
      → Reach notifier s
      → s.running ≡ before ++ read_job f callback ∷ behind
      → find f s.service.tracked ≡ some t
      → t.marked_for_untrack ≡ true
      → IsStuck f (record s { running = before ++ behind })
  throws-IsStuck {s} before behind f callback t r at e marked =
      let here : Matches s.service.workers.tasks (before ++ read_job f callback ∷ behind) f
          (some t) =
        rw e at (subst (ServiceInv s.service) at (Reach-Inv r) f) in
      let fewer =
        in_flight-middle (is_read_of f) s.service.workers.tasks before behind
          (read_job f callback) in
      (
        rw e (marked, ground (arith, here.reads, fewer, fd_eq_refl f)),
        ground (arith, here.reads, fewer, fd_eq_refl f),
      )

  -- A socket is marked for removal, the flag of its read callback is up, and no read callback of it is
  -- in flight, as after one that threw. After each further step of any thread this is so still, and who
  -- waits for the removal waits, unless the step is a `track` of the same descriptor. A descriptor is
  -- tracked only while none of its callbacks is in flight.
  pub Step-IsStuck :
      {notifier : SelfPipe} {s t : System C} (f : Fd) (thrown : C)
      → Reach notifier s
      → Step s t
      → IsStuck f s
      → IsStuck f t ⊎ ((r : Option C) × (w : Option C) × (t.service ≡ track f r w s.service))
  Step-IsStuck f thrown r st stuck = lasting_all f thrown st (Reach-Inv r) stuck
