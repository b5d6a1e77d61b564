-- ===== src/IoService/Invariant/Calls.antt =====
-- The calls of the service keep the invariant.
use tacopie.Typedefs.{find}
use tacopie.IoService.Track.{untrack_entry, entry_or_fresh}
use tacopie.IoService.Invariant.{Matches, assign-Inv, erase-Inv}
use tacopie.Prelude.{◌≡◌, inl, inr, ◌||◌, List, Option, none, some, arith, Bool-cases}
use tacopie.Typedefs.{Fd, find}
use tacopie.IoService.{TrackedSocket, Job}
use tacopie.IoService.Invariant.{Inv}
use tacopie.IoService.Track.{track, set_rd_callback, set_wr_callback, untrack}
use tacopie.IoService.System.{in_flight, is_read_of, is_write_of}
use tacopie.IoService.{IoService}

module _ {C : Type 0} where
  -- The invariant of a service, with the jobs that are running.
  abbrev pub ServiceInv : IoService C → List (Job C) → Type 0
  ServiceInv s running = Inv s.tracked s.workers.tasks running

  module _ (s : IoService C) (running : List (Job C)) (inv : ServiceInv s running) (f : Fd) where
    pub track-Inv :
        (callback_read callback_write : Option C)
        → in_flight (is_read_of f) s.workers.tasks running ≡ 0
        → in_flight (is_write_of f) s.workers.tasks running ≡ 0
        → ServiceInv (track f callback_read callback_write s) running
    unfolding track
    track-Inv callback_read callback_write no_read no_write =
        assign-Inv s.tracked s.workers.tasks running f _ inv (record {
          reads = omega (arith, no_read);
          writes = omega (arith, no_write);
          waits = λ marked. cc;
        })

    pub set_rd_callback-Inv :
        (callback : Option C) → ServiceInv (set_rd_callback f callback s) running
    unfolding set_rd_callback
    set_rd_callback-Inv callback =
        assign-Inv s.tracked s.workers.tasks running f _ inv (same_flags (find f s.tracked) (inv f))
      where
        same_flags :
            (o : Option (TrackedSocket C))
            → Matches s.workers.tasks running f o
            → Matches s.workers.tasks running f
                (some (record (entry_or_fresh o) { callback_read = callback }))
        same_flags none here = record { reads = here.reads; writes = here.writes; waits = λ e. cc }
        same_flags (some t) here = record {
          reads = here.reads;
          writes = here.writes;
          waits = here.waits;
        }

    pub set_wr_callback-Inv :
        (callback : Option C) → ServiceInv (set_wr_callback f callback s) running
    unfolding set_wr_callback
    set_wr_callback-Inv callback =
        assign-Inv s.tracked s.workers.tasks running f _ inv (same_flags (find f s.tracked) (inv f))
      where
        same_flags :
            (o : Option (TrackedSocket C))
            → Matches s.workers.tasks running f o
            → Matches s.workers.tasks running f
                (some (record (entry_or_fresh o) { callback_write = callback }))
        same_flags none here = record { reads = here.reads; writes = here.writes; waits = λ e. cc }
        same_flags (some t) here = record {
          reads = here.reads;
          writes = here.writes;
          waits = here.waits;
        }

    untrack_entry-Inv :
        (o : Option (TrackedSocket C))
        → Matches s.workers.tasks running f o
        → ServiceInv (untrack_entry f o s) running
    unfolding untrack_entry
    untrack_entry-Inv none here = inv
    untrack_entry-Inv (some t) here =
        elim (Bool-cases (t.is_executing_read || t.is_executing_write)) [
          | inl busy ↦
              rw (busy, untrack_entry)
                (assign-Inv s.tracked s.workers.tasks running f _ inv
                  (record { reads = here.reads; writes = here.writes; waits = λ marked. busy }))
          | inr quiet ↦
              rw (quiet, untrack_entry)
                (erase-Inv s.tracked s.workers.tasks running f inv (ground arith))
        ]

    pub untrack-Inv : ServiceInv (untrack f s) running
    unfolding untrack
    untrack-Inv = untrack_entry-Inv (find f s.tracked) (inv f)
