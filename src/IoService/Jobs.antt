-- ===== src/IoService/Jobs.antt =====
-- io_service.cpp: what the lambdas of process_rd_event and process_wr_event do after their callback
-- has returned, under `m_mtxTrackedSockets`.
use tacopie.Prelude.{false, not, ◌&&◌, Option, none, some, if◌then◌else◌}
use tacopie.Typedefs.{Fd, find}
use tacopie.IoService.{IoService, TrackedSocket, Job, read_job, write_job}
use tacopie.IoService.{put, remove, wake}

module _ {C : Type 0} where
  unfoldable pub finish_read_entry : Fd → Option (TrackedSocket C) → IoService C → IoService C
  unfolding put wake remove
  finish_read_entry f none s = s
  finish_read_entry f (some t) s = wake (
      if t.marked_for_untrack && not t.is_executing_write
      then remove f (put f (record t { is_executing_read = false }) s)
      else put f (record t { is_executing_read = false }) s)

  unfoldable pub finish_read : Fd → IoService C → IoService C
  unfolding finish_read_entry
  finish_read f s = finish_read_entry f (find f s.tracked) s

  unfoldable pub finish_write_entry : Fd → Option (TrackedSocket C) → IoService C → IoService C
  unfolding put wake remove
  finish_write_entry f none s = s
  finish_write_entry f (some t) s = wake (
      if t.marked_for_untrack && not t.is_executing_read
      then remove f (put f (record t { is_executing_write = false }) s)
      else put f (record t { is_executing_write = false }) s)

  unfoldable pub finish_write : Fd → IoService C → IoService C
  unfolding finish_write_entry
  finish_write f s = finish_write_entry f (find f s.tracked) s

  unfoldable pub finish : Job C → IoService C → IoService C
  unfolding finish_read finish_write
  finish (read_job f callback) s = finish_read f s
  finish (write_job f callback) s = finish_write f s
