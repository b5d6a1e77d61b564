-- ===== src/ThreadPool/Resize.antt =====
-- `set_nb_threads`: the loop ends, and starts exactly the threads that are missing.
use tacopie.Prelude.{[], refl, ℕ, zero, suc, ◌+◌, ◌-◌, ◌≤◌, ◌<◌, ◌≡◌, arith}
use tacopie.ThreadPool.{create, ThreadPool, size_t_mod, spawn, spawn_loop, set_nb_threads, set_max}

module _ {T : Type 0} where
  -- The fields after a resize that started `k` threads.
  abbrev pub grown : ℕ → ThreadPool T → ThreadPool T
  grown k p = record p {
    nb_running_threads = p.nb_running_threads + k;
    worker_threads = p.worker_threads + k;
  }

  spawn_loop_lem :
      (fuel : ℕ) (p : ThreadPool T)
      → p.max_nb_threads ≤ p.nb_running_threads + fuel
      → p.max_nb_threads < size_t_mod
      → spawn_loop fuel p ≡ grown (p.max_nb_threads - p.nb_running_threads) p
  unfolding spawn_loop spawn
  spawn_loop_lem zero p enough small = ground arith
  spawn_loop_lem (suc fuel) p enough small = ground (arith, spawn_loop_lem fuel (spawn p))

  -- Setting the number of threads to `n` (a `size_t`) starts `n - running` threads, none if as many
  -- are running, counts each of them, keeps the tasks and the stop flag, and sets the maximum.
  pub set_nb_threads_lem :
      (n : ℕ) (p : ThreadPool T)
      → n < size_t_mod
      → set_nb_threads n p ≡ grown (n - p.nb_running_threads) (set_max n p)
  unfolding set_nb_threads set_max
  set_nb_threads_lem n p small =
      spawn_loop_lem n (record p { max_nb_threads = n }) (omega arith) small

  spawn_loop-tasks : (fuel : ℕ) (p : ThreadPool T) → (spawn_loop fuel p).tasks ≡ p.tasks
  unfolding spawn_loop spawn
  spawn_loop-tasks zero p = refl
  spawn_loop-tasks (suc fuel) p = ground (arith, spawn_loop-tasks fuel (spawn p))

  pub set_nb_threads-tasks : (n : ℕ) (p : ThreadPool T) → (set_nb_threads n p).tasks ≡ p.tasks
  unfolding set_nb_threads set_max
  set_nb_threads-tasks n p = spawn_loop-tasks n (record p { max_nb_threads = n })

pub create-tasks : {T : Type 0} (n : ℕ) → (create {T = T} n).tasks ≡ []
unfolding create
create-tasks n = set_nb_threads-tasks n _
