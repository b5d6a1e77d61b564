-- ===== src/IoService/Threads/Progress.antt =====
-- While a callback is in flight a thread of the pool can go on.
use tacopie.Prelude.{◌≡◌, ◌⊎◌, Bool, true, false, List, ◌∷◌, ◌++◌, Option}
use tacopie.ThreadPool.{ThreadPool, fetched, fetch_task_or_stop}
use tacopie.ThreadPool.Workers.{WorkerPc, fetching, executing, exited}
use tacopie.IoService.{Job}
use tacopie.IoService.Threads.{Threads}

-- An element that a test finds in a list.
abbrev pub Found : {A : Type 0} → (A → Bool) → List A → Type 0
Found {A} test xs =
    (before : List A) × (x : A) × (behind : List A) × (xs ≡ before ++ x ∷ behind) × (test x ≡ true)

module _ {C : Type 0} where
  abbrev pub is_executing : WorkerPc (Job C) → Bool
  is_executing fetching = false
  is_executing (executing task) = true
  is_executing exited = false

  -- What a thread of the pool can do next: end its task, or fetch one (or its order to stop).
  abbrev pub CanGoOn : Threads C → Type 0
  CanGoOn s =
      ((before : List (WorkerPc (Job C))) × (task : Option (Job C)) × (behind : List
          (WorkerPc (Job C)))
        × (s.threads ≡ before ++ executing task ∷ behind))
      ⊎ ((before : List (WorkerPc (Job C))) × (behind : List (WorkerPc (Job C))) × (stopped : Bool)
          × (task : Option (Job C)) × (p : ThreadPool (Job C)) × (s.threads
              ≡ before ++ fetching ∷ behind)
          × (fetch_task_or_stop s.service.workers ≡ fetched stopped task p))
