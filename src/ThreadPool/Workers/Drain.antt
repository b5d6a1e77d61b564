-- ===== src/ThreadPool/Workers/Drain.antt =====
-- `stop`: the workers leave, and no task is started after the request.
use tacopie.Prelude.{
  ℕ, zero, suc, ◌+◌, ◌≤◌, ◌<◌, ◌≡◌, refl, ap, ◌∙◌, inl, inr, true, List, [], ◌∷◌, ◌++◌, none, arith,
  count, Nat-cases,
}
use tacopie.ThreadPool.Workers.{
  Workers, WorkerPc, fetching, executing, exited, WorkerStep, fetches, completes, is_live,
}
use tacopie.ThreadPool.{decrement, fetched, ThreadPool, fetch_task_or_stop, should_stop}
use tacopie.ThreadPool.Fetching.{fetched_cases}

-- How many steps a worker has left, once it is to stop.
abbrev pub steps_left : {T : Type 0} → WorkerPc T → ℕ
steps_left fetching = 1
steps_left (executing task) = 2
steps_left exited = 0

module _ {T : Type 0} where
  abbrev pub remaining : List (WorkerPc T) → ℕ
  remaining [] = 0
  remaining (pc ∷ pcs) = steps_left pc + remaining pcs

  remaining-middle :
      (before : List (WorkerPc T)) (pc : WorkerPc T) (behind : List (WorkerPc T))
      → remaining (before ++ pc ∷ behind) ≡ remaining before + remaining behind + steps_left pc
  remaining-middle [] pc behind = omega arith
  remaining-middle (x ∷ before) pc behind = omega (arith, remaining-middle before pc behind)

  -- What a worker's step does once a stop is requested.
  pub record Winds (s t : Workers T) : Type 0 where
    pub stopping : t.pool.stop_requested ≡ true
    pub nothing_started : t.started ≡ s.started
    pub nothing_dropped : t.pool.tasks ≡ s.pool.tasks
    pub fewer : remaining t.threads < remaining s.threads

  -- After a stop request, a worker's step starts no task, leaves the queue as it is, and brings the
  -- workers closer to the end of `run`: so every schedule of the workers ends.
  pub WorkerStep-Winds :
      {s t : Workers T} → WorkerStep s t → s.pool.stop_requested ≡ true → Winds s t
  unfolding should_stop
  WorkerStep-Winds {s} (fetches before behind stopped task p at returned) h =
      elim (fetched_cases s.pool p stopped task returned) [
        | inl leaves ↦ ground (
          arith,
          ap remaining at,
          remaining-middle before fetching behind,
          remaining-middle before exited behind,
        )
        | inr goes_on ↦ ground arith
      ]
  WorkerStep-Winds (completes before behind task at) h = ground (
    arith,
    ap remaining at,
    remaining-middle before fetching behind,
    remaining-middle before (executing task) behind,
  )

  find_live :
      (pcs : List (WorkerPc T))
      → 0 < count is_live pcs
      → (before : List (WorkerPc T)) × (pc : WorkerPc T) × (behind : List (WorkerPc T)) × (pcs
          ≡ before ++ pc ∷ behind)
        × (is_live pc ≡ true)
  find_live [] h = absurd (omega arith)
  find_live (fetching ∷ pcs) h = ([], fetching, pcs, refl, refl)
  find_live (executing task ∷ pcs) h = ([], executing task, pcs, refl, refl)
  find_live (exited ∷ pcs) h =
      let (before, pc, behind, at, live) = find_live pcs (omega arith) in
      (exited ∷ before, pc, behind, ap (◌∷◌ exited) at, live)

  fetch-stopped :
      (p : ThreadPool T)
      → p.stop_requested ≡ true
      → fetch_task_or_stop p
        ≡ fetched true none (record p { nb_running_threads = decrement p.nb_running_threads })
  unfolding fetch_task_or_stop should_stop
  fetch-stopped p h = ground arith

  step_of :
      (s : Workers T) (before : List (WorkerPc T)) (pc : WorkerPc T) (behind : List (WorkerPc T))
      → s.pool.stop_requested ≡ true
      → s.threads ≡ before ++ pc ∷ behind
      → is_live pc ≡ true
      → (t : Workers T) × WorkerStep s t
  step_of s before fetching behind h at live =
      (_, fetches before behind true none _ at (fetch-stopped s.pool h))
  step_of s before (executing task) behind h at live = (_, completes before behind task at)
  step_of s before exited behind h at live = cc

  remaining_zero : (pcs : List (WorkerPc T)) → remaining pcs ≡ 0 → count is_live pcs ≡ 0
  remaining_zero [] h = refl
  remaining_zero (fetching ∷ pcs) h = absurd (omega arith)
  remaining_zero (executing task ∷ pcs) h = absurd (omega arith)
  remaining_zero (exited ∷ pcs) h = ground (arith, remaining_zero pcs)

  -- A sequence of workers' steps.
  pub data WorkerSteps : Workers T → Workers T → Type 0 where
    here : {s : Workers T} → WorkerSteps s s
    then_steps : {s t u : Workers T} → WorkerStep s t → WorkerSteps t u → WorkerSteps s u

  -- What `stop` waits for: all workers out of `run`, with no task started or dropped on the way.
  abbrev pub Drained : Workers T → Workers T → Type 0
  Drained s t =
      WorkerSteps s t
      × (count is_live t.threads ≡ 0)
      × (t.started ≡ s.started)
      × (t.pool.tasks ≡ s.pool.tasks)

  drain-Drained :
      (fuel : ℕ) (s : Workers T)
      → remaining s.threads ≤ fuel
      → s.pool.stop_requested ≡ true
      → (t : Workers T) × Drained s t
  drain-Drained zero s enough h = (s, (here, remaining_zero s.threads (omega arith), refl, refl))
  drain-Drained (suc fuel) s enough h = elim (Nat-cases (count is_live s.threads)) [
    | inl quiet ↦ (s, (here, quiet, refl, refl))
    | inr live ↦
        let (before, pc, behind, at, is_live_pc) = find_live s.threads live in
        let (t, first) = step_of s before pc behind h at is_live_pc in
        let winds = WorkerStep-Winds first h in
        let (u, drained) = drain-Drained fuel t (omega (arith, winds.fewer)) winds.stopping in
        let (rest, quiet, same, kept) = drained in
        (
          u,
          (
            then_steps first rest,
            quiet,
            same ∙ winds.nothing_started,
            kept ∙ winds.nothing_dropped,
          ),
        )
  ]

  -- From any state with a stop request, if each worker that waits has been woken, the workers can run
  -- until each has left `run`, with no more task started and none taken off the queue. (A worker that
  -- misses the notification, which comes without the mutex, is not in the model.)
  pub stop_drains : (s : Workers T) → s.pool.stop_requested ≡ true → (t : Workers T) × Drained s t
  stop_drains s h = drain-Drained (remaining s.threads) s (omega arith) h
