-- ===== src/IoService/Invariant/Jobs.antt =====
-- The end of a callback keeps the invariant.
use tacopie.Prelude.{
  ◌+◌, ◌≡◌, ap, inl, inr, Bool, false, not, ◌&&◌, List, ◌∷◌, ◌++◌, Option, none, some, arith,
  if◌then◌else◌, Bool-cases, to_nat,
}
use tacopie.Typedefs.{Fd, fd_eq, find, assign, erase}
use tacopie.IoService.{TrackedSocket, Job, read_job, write_job}
use tacopie.IoService.Invariant.{Matches, change-Inv, SameElsewhere}
use tacopie.IoService.Invariant.Calls.{ServiceInv}
use tacopie.IoService.Jobs.{finish_read_entry, finish_write_entry, finish}
use tacopie.IoService.System.{in_flight, is_read_of, is_write_of}
use tacopie.Typedefs.{find-assign, find-erase, fd_eq_refl}
use tacopie.Prelude.{count-append, count-middle}
use tacopie.IoService.{IoService}

module _ {C : Type 0} where
  pub find-erase-assign :
      (j f : Fd) (t : TrackedSocket C) (m : List (Fd × TrackedSocket C))
      → find j (erase f (assign f t m)) ≡ (if fd_eq j f then none else find j m)
  find-erase-assign j f t m = ground (arith, find-erase j f (assign f t m), find-assign j f t m)

  -- A job that ends is no longer in flight.
  pub in_flight-middle :
      (test : Job C → Bool) (tasks : List (Option (Job C))) (before behind : List (Job C))
      (job : Job C)
      → in_flight test tasks (before ++ job ∷ behind)
        ≡ in_flight test tasks (before ++ behind) + to_nat (test job)
  in_flight-middle test tasks before behind job =
      omega (arith, count-middle test before job behind, count-append test before behind)

  abbrev pub fd_of : Job C → Fd
  fd_of (read_job f callback) = f
  fd_of (write_job f callback) = f

  ended_elsewhere :
      (tasks : List (Option (Job C))) (before behind : List (Job C)) (job : Job C)
      → SameElsewhere (fd_of job) tasks tasks (before ++ job ∷ behind) (before ++ behind)
  ended_elsewhere tasks before behind (read_job f callback) j e = (
    ground (arith, in_flight-middle (is_read_of j) tasks before behind (read_job f callback)),
    ground (arith, in_flight-middle (is_write_of j) tasks before behind (read_job f callback)),
  )
  ended_elsewhere tasks before behind (write_job f callback) j e = (
    ground (arith, in_flight-middle (is_read_of j) tasks before behind (write_job f callback)),
    ground (arith, in_flight-middle (is_write_of j) tasks before behind (write_job f callback)),
  )

  module _ (s : IoService C) (before behind : List (Job C)) (f : Fd) (callback : C) where
    finish_read_entry-Inv :
        (o : Option (TrackedSocket C))
        → ServiceInv s (before ++ read_job f callback ∷ behind)
        → Matches s.workers.tasks (before ++ read_job f callback ∷ behind) f o
        → ServiceInv (finish_read_entry f o s) (before ++ behind)
    unfolding finish_read_entry
    finish_read_entry-Inv o inv here =
        by_entry o here
          (in_flight-middle (is_read_of f) s.workers.tasks before behind (read_job f callback))
          (in_flight-middle (is_write_of f) s.workers.tasks before behind (read_job f callback))
          (ap to_nat (fd_eq_refl f))
      where
        job : Job C
        job = read_job f callback

        by_entry :
            (o : Option (TrackedSocket C))
            → Matches s.workers.tasks (before ++ job ∷ behind) f o
            → in_flight (is_read_of f) s.workers.tasks (before ++ job ∷ behind)
              ≡ in_flight (is_read_of f) s.workers.tasks (before ++ behind) + to_nat (fd_eq f f)
            → in_flight (is_write_of f) s.workers.tasks (before ++ job ∷ behind)
              ≡ in_flight (is_write_of f) s.workers.tasks (before ++ behind) + 0
            → to_nat (fd_eq f f) ≡ 1
            → ServiceInv (finish_read_entry f o s) (before ++ behind)
        by_entry none here reads writes one = absurd (omega (arith, here.reads))
        by_entry (some t) here reads writes one =
            elim (Bool-cases (t.marked_for_untrack && not t.is_executing_write)) [
              | inl done ↦
                  rw (done, finish_read_entry)
                    (change-Inv s.tracked _ s.workers.tasks s.workers.tasks _ _ f none inv
                      (λ j. find-erase-assign j f _ s.tracked)
                      (ended_elsewhere s.workers.tasks before behind job) (ground arith))
              | inr kept ↦
                  rw (kept, finish_read_entry)
                    (change-Inv s.tracked _ s.workers.tasks s.workers.tasks _ _ f
                      (some (record t { is_executing_read = false })) inv
                      (λ j. find-assign j f _ s.tracked)
                      (ended_elsewhere s.workers.tasks before behind job) (ground arith))
            ]

    finish_write_entry-Inv :
        (o : Option (TrackedSocket C))
        → ServiceInv s (before ++ write_job f callback ∷ behind)
        → Matches s.workers.tasks (before ++ write_job f callback ∷ behind) f o
        → ServiceInv (finish_write_entry f o s) (before ++ behind)
    unfolding finish_write_entry
    finish_write_entry-Inv o inv here =
        by_entry o here
          (in_flight-middle (is_read_of f) s.workers.tasks before behind (write_job f callback))
          (in_flight-middle (is_write_of f) s.workers.tasks before behind (write_job f callback))
          (ap to_nat (fd_eq_refl f))
      where
        job : Job C
        job = write_job f callback

        by_entry :
            (o : Option (TrackedSocket C))
            → Matches s.workers.tasks (before ++ job ∷ behind) f o
            → in_flight (is_read_of f) s.workers.tasks (before ++ job ∷ behind)
              ≡ in_flight (is_read_of f) s.workers.tasks (before ++ behind) + 0
            → in_flight (is_write_of f) s.workers.tasks (before ++ job ∷ behind)
              ≡ in_flight (is_write_of f) s.workers.tasks (before ++ behind) + to_nat (fd_eq f f)
            → to_nat (fd_eq f f) ≡ 1
            → ServiceInv (finish_write_entry f o s) (before ++ behind)
        by_entry none here reads writes one = absurd (omega (arith, here.writes))
        by_entry (some t) here reads writes one =
            elim (Bool-cases (t.marked_for_untrack && not t.is_executing_read)) [
              | inl done ↦
                  rw (done, finish_write_entry)
                    (change-Inv s.tracked _ s.workers.tasks s.workers.tasks _ _ f none inv
                      (λ j. find-erase-assign j f _ s.tracked)
                      (ended_elsewhere s.workers.tasks before behind job) (ground arith))
              | inr kept ↦
                  rw (kept, finish_write_entry)
                    (change-Inv s.tracked _ s.workers.tasks s.workers.tasks _ _ f
                      (some (record t { is_executing_write = false })) inv
                      (λ j. find-assign j f _ s.tracked)
                      (ended_elsewhere s.workers.tasks before behind job) (ground arith))
            ]

  -- A callback that throws is no longer in flight, and its flag stays as it is.
  pub throws-Inv :
      (s : IoService C) (before behind : List (Job C)) (job : Job C)
      → ServiceInv s (before ++ job ∷ behind)
      → ServiceInv s (before ++ behind)
  throws-Inv s before behind job inv f = record {
    reads =
        omega
          (arith, (inv f).reads, in_flight-middle (is_read_of f) s.workers.tasks before behind job);
    writes =
        omega (
          arith,
          (inv f).writes,
          in_flight-middle (is_write_of f) s.workers.tasks before behind job,
        );
    waits = (inv f).waits;
  }

  -- A callback that ends clears its flag, or removes its socket, and is no longer in flight.
  pub finish-Inv :
      (s : IoService C) (before behind : List (Job C)) (job : Job C)
      → ServiceInv s (before ++ job ∷ behind)
      → ServiceInv (finish job s) (before ++ behind)
  unfolding finish
  finish-Inv s before behind (read_job f callback) inv =
      finish_read_entry-Inv s before behind f callback (find f s.tracked) inv (inv f)
  finish-Inv s before behind (write_job f callback) inv =
      finish_write_entry-Inv s before behind f callback (find f s.tracked) inv (inv f)
