-- ===== src/IoService.antt =====
-- includes/tacopie/network/io_service.hpp and sources/network/io_service.cpp: the fields of the
-- service, and what each of its functions does while it holds `m_mtxTrackedSockets`. `System` has
-- the threads, `C` is the type of the event callbacks, and an empty `std::function` is `none`.
pub mod Stuck
pub mod Threads
pub mod Order
pub mod Default
pub mod Lifecycle
pub mod Hazards
pub mod Served
pub mod Distinctness
pub mod Interest
pub mod Signals
pub mod Removal
pub mod Safety
pub mod System
pub mod Invariant
pub mod Track
pub mod Jobs
pub mod Poll
use tacopie.Prelude.{
  ℕ, ◌+◌, Bool, true, false, not, ◌&&◌, ◌||◌, List, [], ◌∷◌, ◌++◌, Option, none, some, ltb, is_set,
  if◌then◌else◌,
}
use tacopie.Typedefs.{Fd, invalid, fd, fd_eq, member, find, assign, erase}
use tacopie.SelfPipe.{SelfPipe, notify, clr_buffer}
use tacopie.ThreadPool.{ThreadPool, add_task, set_nb_threads, request_stop, create as create_pool}

pub record TrackedSocket (C : Type 0) : Type 0 where
  pub callback_read : Option C
  pub is_executing_read : Bool
  pub callback_write : Option C
  pub is_executing_write : Bool
  pub marked_for_untrack : Bool

-- The lambdas that `process_rd_event` and `process_wr_event` hand to the thread pool.
pub data Job (C : Type 0) : Type 0 where
  read_job : Fd → C → Job C
  write_job : Fd → C → Job C

-- `removal_signals` counts the calls of `m_cvWaitForRemoval.notify_all`.
pub record IoService (C : Type 0) : Type 0 where
  pub tracked : List (Fd × TrackedSocket C)
  pub should_stop : Bool
  pub workers : ThreadPool (Job C)
  pub polled_fds : List Fd
  pub rd_set : List Fd
  pub wr_set : List Fd
  pub notifier : SelfPipe
  pub removal_signals : ℕ

-- What `init_poll_fds_info` builds up. `bound` is the local `nFds` plus one, an `int` from 0 on.
pub record PollInfo : Type 0 where
  pub polled : List Fd
  pub rd : List Fd
  pub wr : List Fd
  pub bound : ℕ

-- A descriptor plus one, as an `int`.
abbrev pub above : Fd → ℕ
above invalid = 0
above (fd n) = n + 1

module _ {C : Type 0} where
  abbrev pub fresh_socket : TrackedSocket C
  fresh_socket = record {
    callback_read = none;
    is_executing_read = false;
    callback_write = none;
    is_executing_write = false;
    marked_for_untrack = false;
  }

  -- The constructor, with the number of workers that __TACOPIE_IO_SERVICE_NB_WORKERS gives.
  unfoldable pub create : SelfPipe → IoService C
  create notifier = record {
    tracked = [];
    should_stop = false;
    workers = create_pool 1;
    polled_fds = [];
    rd_set = [];
    wr_set = [];
    notifier = notifier;
    removal_signals = 0;
  }

  -- The destructor, up to its first join.
  unfoldable pub destroy : IoService C → IoService C
  destroy s = record s { should_stop = true; notifier = notify s.notifier }

  unfoldable pub set_nb_workers : ℕ → IoService C → IoService C
  set_nb_workers n s = record s { workers = set_nb_threads n s.workers }

  -- Erases a socket and wakes those up who wait for its removal.
  unfoldable pub remove : Fd → IoService C → IoService C
  remove f s = record s { tracked = erase f s.tracked; removal_signals = s.removal_signals + 1 }

  unfoldable pub put : Fd → TrackedSocket C → IoService C → IoService C
  put f t s = record s { tracked = assign f t s.tracked }

  unfoldable pub wake : IoService C → IoService C
  wake s = record s { notifier = notify s.notifier }

  -- `process_rd_event`: flag the socket, and queue the callback. The socket is the entry itself.
  unfoldable pub process_rd_event : Fd → C → TrackedSocket C → IoService C → IoService C
  unfolding put
  process_rd_event f callback t s = record (put f (record t { is_executing_read = true }) s) {
    workers = add_task (some (read_job f callback)) s.workers;
  }

  unfoldable pub process_wr_event : Fd → C → TrackedSocket C → IoService C → IoService C
  unfolding put
  process_wr_event f callback t s = record (put f (record t { is_executing_write = true }) s) {
    workers = add_task (some (write_job f callback)) s.workers;
  }
