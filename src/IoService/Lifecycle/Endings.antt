-- ===== src/IoService/Lifecycle/Endings.antt =====
-- What the end of a callback does to the life of a descriptor.
use tacopie.Typedefs.{Fd, fd_eq_refl, find}
use tacopie.IoService.{IoService, TrackedSocket, Job, read_job, write_job}
use tacopie.IoService.{wake}
use tacopie.Prelude.{
  ◌≡◌, refl, inl, inr, true, not, ◌&&◌, List, ◌∷◌, ◌++◌, Option, none, some, arith, Bool-cases,
}
use tacopie.IoService.Lifecycle.{
  ends_kept_read, ends_kept_write, leaves_read, leaves_write, stays, life, Move,
}
use tacopie.IoService.Invariant.Calls.{ServiceInv}
use tacopie.IoService.System.{is_write_of, is_read_of}
use tacopie.IoService.Invariant.{reading, writing, Matches}
use tacopie.IoService.Jobs.{
  finish_write, finish_read, finish, finish_read_entry, finish_write_entry,
}
use tacopie.IoService.Invariant.Jobs.{in_flight-middle, find-erase-assign}
use tacopie.IoService.Lifecycle.Entries.{put-Move, change-Move}

module _ {C : Type 0} where
  started_read :
      (f : Fd) (s : IoService C) (before behind : List (Job C)) (callback : C)
      (o : Option (TrackedSocket C))
      → Matches s.workers.tasks (before ++ read_job f callback ∷ behind) f o
      → reading o ≡ 1
  started_read f s before behind callback o here = ground (
    arith,
    here.reads,
    in_flight-middle (is_read_of f) s.workers.tasks before behind (read_job f callback),
    fd_eq_refl f,
  )

  started_write :
      (f : Fd) (s : IoService C) (before behind : List (Job C)) (callback : C)
      (o : Option (TrackedSocket C))
      → Matches s.workers.tasks (before ++ write_job f callback ∷ behind) f o
      → writing o ≡ 1
  started_write f s before behind callback o here = ground (
    arith,
    here.writes,
    in_flight-middle (is_write_of f) s.workers.tasks before behind (write_job f callback),
    fd_eq_refl f,
  )

  finish_read_entry-Move :
      (f : Fd) (s : IoService C) (o : Option (TrackedSocket C))
      → find f s.tracked ≡ o
      → reading o ≡ 1
      → (j : Fd) → Move (life (find j s.tracked)) (life (find j (finish_read_entry f o s).tracked))
  unfolding finish_read_entry wake
  finish_read_entry-Move f s none e started j = stays
  finish_read_entry-Move f s (some t) e started j =
      let runs : t.is_executing_read ≡ true = ground arith in
      elim (Bool-cases (t.marked_for_untrack && not t.is_executing_write)) [
        | inl last ↦
            rw (last, finish_read_entry)
              (change-Move s.tracked _ f none (λ k. find-erase-assign k f _ s.tracked)
                (rw (e, runs) (leaves_read t.is_executing_write t.marked_for_untrack last)) j)
        | inr kept ↦
            rw (kept, finish_read_entry)
              (put-Move f _ s
                (rw (e, runs) (ends_kept_read t.is_executing_write t.marked_for_untrack kept)) j)
      ]

  finish_write_entry-Move :
      (f : Fd) (s : IoService C) (o : Option (TrackedSocket C))
      → find f s.tracked ≡ o
      → writing o ≡ 1
      → (j : Fd) → Move (life (find j s.tracked)) (life (find j (finish_write_entry f o s).tracked))
  unfolding finish_write_entry wake
  finish_write_entry-Move f s none e started j = stays
  finish_write_entry-Move f s (some t) e started j =
      let runs : t.is_executing_write ≡ true = ground arith in
      elim (Bool-cases (t.marked_for_untrack && not t.is_executing_read)) [
        | inl last ↦
            rw (last, finish_write_entry)
              (change-Move s.tracked _ f none (λ k. find-erase-assign k f _ s.tracked)
                (rw (e, runs) (leaves_write t.is_executing_read t.marked_for_untrack last)) j)
        | inr kept ↦
            rw (kept, finish_write_entry)
              (put-Move f _ s
                (rw (e, runs) (ends_kept_write t.is_executing_read t.marked_for_untrack kept)) j)
      ]

  -- With the flag of a kind up, the job of that kind that ends was started by it.
  pub finish-Move :
      (s : IoService C) (before behind : List (Job C)) (job : Job C)
      → ServiceInv s (before ++ job ∷ behind)
      → (j : Fd) → Move (life (find j s.tracked)) (life (find j (finish job s).tracked))
  unfolding finish finish_read finish_write
  finish-Move s before behind (read_job f callback) inv =
      finish_read_entry-Move f s (find f s.tracked) refl
        (started_read f s before behind callback (find f s.tracked) (inv f))
  finish-Move s before behind (write_job f callback) inv =
      finish_write_entry-Move f s (find f s.tracked) refl
        (started_write f s before behind callback (find f s.tracked) (inv f))
