-- ===== src/IoService/Lifecycle/Refines.antt =====
-- Every step of the threads round a service is at most one move of the life of each descriptor.
use mathlib.Core.Path.{subst}
use tacopie.IoService.Lifecycle.Endings.{finish-Move}
use tacopie.Typedefs.{Fd, find}
use tacopie.IoService.{destroy, set_nb_workers, IoService}
use tacopie.Typedefs.{fd_eq, fd_eq_iff}
use tacopie.IoService.System.{in_flight, is_read_of, is_write_of}
use tacopie.IoService.Track.{track}
use tacopie.Prelude.{inr, inl, ◌≡◌, Option, ◌⊎◌, Bool-cases, sym, ap}
use tacopie.IoService.Poll.{apply_select, init_poll_fds_info}
use tacopie.SelfPipe.{SelfPipe}
use tacopie.IoService.Lifecycle.{inl, stays, Move, life}
use tacopie.IoService.System.{
  destroys, finishes, throws, resizes, fetches, ends, untracks, processes, sets_wr, selects,
  sets_rd, prepares, calls, tracks, Call, Reach, Step, System,
}
use tacopie.IoService.Invariant.Calls.{ServiceInv}
use tacopie.IoService.Safety.{Reach-Inv, SystemInv}
use tacopie.IoService.Lifecycle.Entries.{
  untrack-Move, process_events-Move, set_wr_callback-Move, set_rd_callback-Move, track-Move,
}

module _ {C : Type 0} where
  -- The descriptor is tracked, anew or for the first time, with none of its callbacks in flight.
  abbrev pub IsTrackedAnew : Fd → System C → System C → Type 0
  IsTrackedAnew f s t =
      (r : Option C) × (w : Option C) × (t.service ≡ track f r w s.service)
      × (in_flight (is_read_of f) s.service.workers.tasks s.running ≡ 0)
      × (in_flight (is_write_of f) s.service.workers.tasks s.running ≡ 0)

  Call-Move :
      (s : System C) {t : IoService C}
      → Call s.service s.running t
      → ServiceInv s.service s.running
      → (f : Fd)
      → Move (life (find f s.service.tracked)) (life (find f t.tracked))
        ⊎ IsTrackedAnew f s (record s { service = t })
  unfolding set_nb_workers destroy
  Call-Move s (tracks g r w no_read no_write) inv f = elim (Bool-cases (fd_eq f g)) [
    | inl same ↦
        let eq = sym ((fd_eq_iff f g).0 same) in
        inr (
          r,
          w,
          ap (λ k. track k r w s.service) eq,
          subst (λ k. in_flight (is_read_of k) s.service.workers.tasks s.running ≡ 0) eq no_read,
          subst (λ k. in_flight (is_write_of k) s.service.workers.tasks s.running ≡ 0) eq no_write,
        )
    | inr other ↦ inl (track-Move g r w s.service f other)
  ]
  Call-Move s (sets_rd g callback) inv f = inl (set_rd_callback-Move g callback s.service f)
  Call-Move s (sets_wr g callback) inv f = inl (set_wr_callback-Move g callback s.service f)
  Call-Move s (untracks g) inv f = inl (untrack-Move g s.service s.running inv f)
  Call-Move s (resizes n) inv f = inl stays
  Call-Move s destroys inv f = inl stays

  Step-Move :
      {s t : System C}
      → Step s t
      → SystemInv s
      → (f : Fd)
      → Move (life (find f s.service.tracked)) (life (find f t.service.tracked))
        ⊎ IsTrackedAnew f s t
  unfolding init_poll_fds_info apply_select
  Step-Move {s} (calls call) inv f = Call-Move s call inv f
  Step-Move (prepares at going) inv f = inl stays
  Step-Move (selects bound answer at) inv f = inl stays
  Step-Move {s} (processes at) inv f = inl (process_events-Move s.running f s.service inv)
  Step-Move (ends at stopped) inv f = inl stays
  Step-Move (fetches before behind stopped job p at e) inv f = inl stays
  Step-Move {s} (finishes before behind job at) inv f =
      inl (finish-Move s.service before behind job (subst (ServiceInv s.service) at inv) f)
  Step-Move (throws before behind job at) inv f = inl stays

  -- In every state reachable by steps that track a descriptor only while none of its callbacks is in
  -- flight, each further such step of any thread is, for every descriptor, at most one move of the
  -- machine of `Lifecycle`, or a `track` of that descriptor with none of its callbacks in flight.
  -- Callbacks may return or throw.
  pub Step-refines-Move :
      {notifier : SelfPipe} {s t : System C}
      → Reach notifier s
      → Step s t
      → (f : Fd)
      → Move (life (find f s.service.tracked)) (life (find f t.service.tracked))
        ⊎ IsTrackedAnew f s t
  Step-refines-Move r st f = Step-Move st (Reach-Inv r) f
