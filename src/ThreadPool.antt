-- ===== src/ThreadPool.antt =====
-- includes/tacopie/utils/thread_pool.hpp and sources/utils/thread_pool.cpp: the pool's fields and
-- its operations, each as a function of the fields. `Workers` has the threads that run in it.
pub mod Fetching
pub mod Resize
pub mod Workers
use tacopie.Prelude.{
  ℕ, zero, suc, ◌+◌, ◌-◌, ◌%◌, ◌^◌, Bool, true, false, not, ◌||◌, List, [], ◌∷◌, ◌++◌, Option, none,
  ltb, if◌then◌else◌,
}

-- `std::size_t`, on a 64-bit platform.
abbrev pub size_t_mod : ℕ
size_t_mod = 2 ^ 64

abbrev pub increment : ℕ → ℕ
increment n = (n + 1) % size_t_mod

abbrev pub decrement : ℕ → ℕ
decrement n = (n + size_t_mod - 1) % size_t_mod

-- A task is a `std::function`, and `none` the empty one. `worker_threads` counts the threads of
-- `m_lstWorkerThreads`: those started and not joined yet.
pub record ThreadPool (T : Type 0) : Type 0 where
  pub worker_threads : ℕ
  pub max_nb_threads : ℕ
  pub nb_running_threads : ℕ
  pub stop_requested : Bool
  pub tasks : List (Option T)

-- What one call of `fetch_task_or_stop` comes to: it waits, or returns a pair.
pub data Fetch (T : Type 0) : Type 0 where
  blocked : Fetch T
  fetched : Bool → Option T → ThreadPool T → Fetch T

module _ {T : Type 0} where
  unfoldable pub is_running : ThreadPool T → Bool
  is_running p = not p.stop_requested

  unfoldable pub should_stop : ThreadPool T → Bool
  should_stop p = p.stop_requested || ltb p.max_nb_threads p.nb_running_threads

  abbrev pub take_task : ThreadPool T → List (Option T) → Fetch T
  take_task p [] = blocked
  take_task p (task ∷ rest) = fetched false task (record p { tasks = rest })

  unfoldable pub fetch_task_or_stop : ThreadPool T → Fetch T
  fetch_task_or_stop p =
      if should_stop p
      then fetched true none (record p { nb_running_threads = decrement p.nb_running_threads })
      else take_task p p.tasks

  unfoldable pub add_task : Option T → ThreadPool T → ThreadPool T
  add_task task p = record p { tasks = p.tasks ++ task ∷ [] }

  -- One round of the loop in `set_nb_threads`.
  unfoldable pub spawn : ThreadPool T → ThreadPool T
  spawn p = record p {
    nb_running_threads = increment p.nb_running_threads;
    worker_threads = p.worker_threads + 1;
  }

  unfoldable pub set_max : ℕ → ThreadPool T → ThreadPool T
  set_max n p = record p { max_nb_threads = n }

  unfoldable pub spawn_loop : ℕ → ThreadPool T → ThreadPool T
  spawn_loop zero p = p
  spawn_loop (suc fuel) p =
      let again = spawn_loop fuel (spawn p) in
      if ltb p.nb_running_threads p.max_nb_threads then again else p

  -- The fuel is the new maximum: each round starts a thread below it.
  unfoldable pub set_nb_threads : ℕ → ThreadPool T → ThreadPool T
  set_nb_threads n p = spawn_loop n (set_max n p)

  -- `thread_pool(nNbThreads)`.
  unfoldable pub create : ℕ → ThreadPool T
  unfolding set_nb_threads
  create n = set_nb_threads n (record {
    worker_threads = 0;
    max_nb_threads = 0;
    nb_running_threads = 0;
    stop_requested = false;
    tasks = [];
  })

  -- `stop`, up to its loop over `join`.
  unfoldable pub request_stop : ThreadPool T → ThreadPool T
  unfolding is_running
  request_stop p = if is_running p then record p { stop_requested = true } else p

  -- `m_lstWorkerThreads.clear()`, when all `join` calls have returned.
  unfoldable pub clear_workers : ThreadPool T → ThreadPool T
  clear_workers p = record p { worker_threads = 0 }

  -- The destructor is `stop`, up to its loop over `join`.
  unfoldable pub destroy : ThreadPool T → ThreadPool T
  unfolding request_stop
  destroy p = request_stop p
