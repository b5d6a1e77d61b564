-- ===== src/IoService/Safety.antt =====
-- What holds in every state that the threads reach, whatever their interleaving.
use tacopie.Prelude.{
  count-middle, count-append, to_nat, none, ◌+◌, ◌++◌, ℕ, ◌≤◌, ◌≡◌, ap, inl, inr, Bool, true, List,
  [], Option, arith, count,
}
use tacopie.Typedefs.{Fd, find}
use tacopie.IoService.{some, TrackedSocket, Job}
use tacopie.ThreadPool.Resize.{create-tasks}
use tacopie.IoService.Invariant.{reading, writing, Inv}
use tacopie.IoService.Invariant.Calls.{
  ServiceInv, track-Inv, set_rd_callback-Inv, set_wr_callback-Inv, untrack-Inv,
}
use tacopie.IoService.Invariant.Events.{process_events-Inv}
use tacopie.IoService.Invariant.Jobs.{finish-Inv, throws-Inv}
use tacopie.IoService.System.{
  System, Step, Call, Reach, tracks, sets_rd, sets_wr, untracks, resizes, destroys, calls, prepares,
  selects, processes, ends, fetches, finishes, throws, start, next, in_flight, is_read_of,
  is_write_of, is_queued, fetched_job,
}
use tacopie.IoService.Poll.{init_poll_fds_info, apply_select}
use tacopie.IoService.{IoService, create, destroy, set_nb_workers}
use tacopie.IoService.Track.{is_removed}
use tacopie.ThreadPool.Resize.{set_nb_threads-tasks}
use tacopie.ThreadPool.{fetched, fetch_task_or_stop}
use tacopie.ThreadPool.Fetching.{fetched_cases}
use tacopie.SelfPipe.{SelfPipe}
use tacopie.ThreadPool.{ThreadPool}
use mathlib.Core.Path.{subst}

module _ {C : Type 0} where
  abbrev pub SystemInv : System C → Type 0
  SystemInv s = ServiceInv s.service s.running

  Call-Inv :
      {s t : IoService C} (running : List (Job C))
      → Call s running t
      → ServiceInv s running
      → ServiceInv t running
  unfolding set_nb_workers destroy
  Call-Inv {s} running (tracks f callback_read callback_write no_read no_write) inv =
      track-Inv s running inv f callback_read callback_write no_read no_write
  Call-Inv {s} running (sets_rd f callback) inv = set_rd_callback-Inv s running inv f callback
  Call-Inv {s} running (sets_wr f callback) inv = set_wr_callback-Inv s running inv f callback
  Call-Inv {s} running (untracks f) inv = untrack-Inv s running inv f
  Call-Inv {s} running (resizes n) inv = rw (set_nb_threads-tasks n s.workers) inv
  Call-Inv running destroys inv = inv

  running-fetched :
      (test : Job C → Bool) (before behind : List (Job C)) (job : Option (Job C))
      → count test (before ++ fetched_job job behind)
        ≡ count test (before ++ behind) + to_nat (is_queued test job)
  running-fetched test before behind none = omega (arith, count-append test before behind)
  running-fetched test before behind (some job) =
      omega (arith, count-append test before behind, count-middle test before job behind)

  pub fetches-Inv :
      (m : List (Fd × TrackedSocket C)) (running before behind : List (Job C))
      (p q : ThreadPool (Job C)) (stopped : Bool) (job : Option (Job C))
      → running ≡ before ++ behind
      → fetch_task_or_stop p ≡ fetched stopped job q
      → Inv m p.tasks running
      → Inv m q.tasks (before ++ fetched_job job behind)
  fetches-Inv m running before behind p q stopped job at e inv f =
      elim (fetched_cases p q stopped job e) [
        | inl leaves ↦ ground (
          arith,
          inv f,
          ap (count (is_read_of f)) at,
          ap (count (is_write_of f)) at,
          running-fetched (is_read_of f) before behind none,
          running-fetched (is_write_of f) before behind none,
        )
        | inr takes ↦ ground (
          arith,
          inv f,
          ap (count (is_read_of f)) at,
          ap (count (is_write_of f)) at,
          running-fetched (is_read_of f) before behind job,
          running-fetched (is_write_of f) before behind job,
          ap (count (is_queued (is_read_of f))) takes.2,
          ap (count (is_queued (is_write_of f))) takes.2,
        )
      ]

  -- Every step of a thread, where a descriptor is tracked only while none of its callbacks is in flight,
  -- keeps the callbacks in flight of each socket at most as many as its flags say, and no marked socket
  -- with both flags down.
  pub Step-Inv : {s t : System C} → Step s t → SystemInv s → SystemInv t
  unfolding init_poll_fds_info apply_select
  Step-Inv {s} (calls call) inv = Call-Inv s.running call inv
  Step-Inv (prepares at going) inv = inv
  Step-Inv (selects bound answer at) inv = inv
  Step-Inv {s} (processes at) inv = process_events-Inv s.running s.service inv
  Step-Inv (ends at stopped) inv = inv
  Step-Inv {s} (fetches before behind stopped job p at e) inv =
      fetches-Inv s.service.tracked s.running before behind s.service.workers p stopped job at e inv
  Step-Inv {s} (finishes before behind job at) inv =
      finish-Inv s.service before behind job (subst (ServiceInv s.service) at inv)
  Step-Inv {s} (throws before behind job at) inv =
      throws-Inv s.service before behind job (subst (ServiceInv s.service) at inv)

  le_one : {n : ℕ} (o : Option (TrackedSocket C)) → n ≤ reading o → n ≤ 1
  le_one o e = ground arith

  le_one_write : {n : ℕ} (o : Option (TrackedSocket C)) → n ≤ writing o → n ≤ 1
  le_one_write o e = ground arith

  create-Inv : (notifier : SelfPipe) → ServiceInv {C = C} (create notifier) []
  unfolding create find
  create-Inv notifier f =
      rw (create-tasks {T = Job C} 1)
        (record { reads = omega arith; writes = omega arith; waits = tt })

  pub Reach-Inv : {notifier : SelfPipe} {s : System C} → Reach notifier s → SystemInv s
  Reach-Inv {notifier} start = create-Inv notifier
  Reach-Inv (next r st) = Step-Inv st (Reach-Inv r)

  -- In every state reachable by steps that track a descriptor only while none of its callbacks is in
  -- flight, at most one read callback and at most one write callback of a socket are in flight: queued
  -- in the thread pool or running.
  pub callbacks_exclusive :
      {notifier : SelfPipe} {s : System C}
      → Reach notifier s
      → (f : Fd)
      → (in_flight (is_read_of f) s.service.workers.tasks s.running ≤ 1)
        × (in_flight (is_write_of f) s.service.workers.tasks s.running ≤ 1)
  callbacks_exclusive {s} r f =
      let here = Reach-Inv r f in
      (
        le_one (find f s.service.tracked) here.reads,
        le_one_write (find f s.service.tracked) here.writes,
      )

  -- In every state reachable by steps that track a descriptor only while none of its callbacks is in
  -- flight, when the wait of `wait_for_removal` can end, no callback of the socket is in flight.
  pub is_removed-quiet :
      {notifier : SelfPipe} {s : System C}
      → Reach notifier s
      → (f : Fd) → is_removed f s.service ≡ true
      → (in_flight (is_read_of f) s.service.workers.tasks s.running ≡ 0)
        × (in_flight (is_write_of f) s.service.workers.tasks s.running ≡ 0)
  unfolding is_removed
  is_removed-quiet r f gone = ground (arith, Reach-Inv r f)
