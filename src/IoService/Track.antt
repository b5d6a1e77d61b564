-- ===== src/IoService/Track.antt =====
-- io_service.cpp: track, set_rd_callback, set_wr_callback, untrack, and the condition that
-- wait_for_removal waits for. Each runs under `m_mtxTrackedSockets`.
use tacopie.Prelude.{Bool, true, false, not, ◌||◌, Option, none, some, if◌then◌else◌, is_set}
use tacopie.Typedefs.{Fd, find}
use tacopie.IoService.{IoService, TrackedSocket}
use tacopie.IoService.{fresh_socket, put, remove, wake}

module _ {C : Type 0} where
  -- `m_mapTrackedSockets[fd]`: a missing entry is made, by the constructor of `tracked_socket`.
  abbrev pub entry_or_fresh : Option (TrackedSocket C) → TrackedSocket C
  entry_or_fresh none = fresh_socket
  entry_or_fresh (some t) = t

  unfoldable pub track : Fd → Option C → Option C → IoService C → IoService C
  unfolding put wake
  track f callback_read callback_write s = wake (put f t s)
    where
      t : TrackedSocket C
      t = record {
        callback_read = callback_read;
        is_executing_read = false;
        callback_write = callback_write;
        is_executing_write = false;
        marked_for_untrack = false;
      }

  unfoldable pub set_rd_callback : Fd → Option C → IoService C → IoService C
  unfolding put wake
  set_rd_callback f callback s =
      wake (put f (record (entry_or_fresh (find f s.tracked)) { callback_read = callback }) s)

  unfoldable pub set_wr_callback : Fd → Option C → IoService C → IoService C
  unfolding put wake
  set_wr_callback f callback s =
      wake (put f (record (entry_or_fresh (find f s.tracked)) { callback_write = callback }) s)

  unfoldable pub untrack_entry : Fd → Option (TrackedSocket C) → IoService C → IoService C
  unfolding put wake remove
  untrack_entry f none s = s
  untrack_entry f (some t) s = wake (
      if t.is_executing_read || t.is_executing_write
      then put f (record t { marked_for_untrack = true }) s
      else remove f s)

  unfoldable pub untrack : Fd → IoService C → IoService C
  unfolding untrack_entry
  untrack f s = untrack_entry f (find f s.tracked) s

  -- The predicate of the wait in `wait_for_removal`.
  unfoldable pub is_removed : Fd → IoService C → Bool
  is_removed f s = not (is_set (find f s.tracked))
