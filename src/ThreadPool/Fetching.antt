-- ===== src/ThreadPool/Fetching.antt =====
-- What `fetch_task_or_stop` returns, by cases on the pool.
use tacopie.Prelude.{
  ◌∙◌, sym, ◌≡◌, ◌⊎◌, inl, inr, Bool, true, false, List, [], ◌∷◌, Option, none, arith, Bool-cases,
}
use tacopie.ThreadPool.{ThreadPool, fetched, fetch_task_or_stop, should_stop, take_task, decrement}

module _ {T : Type 0} where
  -- The two ways to return: leave and count the thread off, or take the oldest task.
  abbrev pub Stops : ThreadPool T → Bool → Option T → ThreadPool T → Type 0
  Stops p stopped task q =
      (should_stop p ≡ true)
      × (stopped ≡ true)
      × (task ≡ none)
      × (q ≡ record p { nb_running_threads = decrement p.nb_running_threads })

  abbrev pub Takes : ThreadPool T → Bool → Option T → ThreadPool T → Type 0
  Takes p stopped task q =
      (should_stop p ≡ false)
      × (stopped ≡ false)
      × (p.tasks ≡ task ∷ q.tasks)
      × (q ≡ record p { tasks = q.tasks })

  take_task-Takes :
      (p q : ThreadPool T) (tasks : List (Option T)) (stopped : Bool) (task : Option T)
      → take_task p tasks ≡ fetched stopped task q
      → (stopped ≡ false) × (tasks ≡ task ∷ q.tasks) × (q ≡ record p { tasks = q.tasks })
  take_task-Takes p q [] stopped task h = cc
  take_task-Takes p q (x ∷ rest) stopped task h = ground arith

  pub fetched_cases :
      (p q : ThreadPool T) (stopped : Bool) (task : Option T)
      → fetch_task_or_stop p ≡ fetched stopped task q
      → Stops p stopped task q ⊎ Takes p stopped task q
  unfolding fetch_task_or_stop
  fetched_cases p q stopped task h = elim (Bool-cases (should_stop p)) [
    | inl e ↦ inl (ground arith)
    | inr e ↦
        let waits : take_task p p.tasks ≡ fetched stopped task q = sym (open_fetch e) ∙ h in
        let (not_stopped, oldest, rest) = take_task-Takes p q p.tasks stopped task waits in
        inr (e, not_stopped, oldest, rest)
  ]
    where
      open_fetch : should_stop p ≡ false → fetch_task_or_stop p ≡ take_task p p.tasks
      open_fetch e = rw (e, fetch_task_or_stop)
