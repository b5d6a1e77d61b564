-- ===== src/TcpServer/Destroyed.antt =====
-- The destruction of a server while its read callback is in flight.
use tacopie.Prelude.{◌≡◌, true, [], some, arith}
use tacopie.Typedefs.{find, find-assign, fd_eq_refl}
use tacopie.IoService.{TrackedSocket}
use tacopie.IoService.Track.{untrack, untrack_entry}
use tacopie.IoService.{put, wake}
use tacopie.TcpClient.{Event}
use tacopie.TcpServer.{Hub, destroy, stop, disconnect_all}

module _ {N R W : Type 0} where
  -- A running server with no clients, whose read callback is in flight, is destroyed without waiting
  -- for it: the service still has its socket, marked, with the flag of the callback up.
  pub destroy-reading :
      (u : Hub N R W) (t : TrackedSocket Event)
      → u.server.is_running ≡ true
      → u.server.clients ≡ []
      → find u.server.socket.m_fd u.service.tracked ≡ some t
      → t.is_executing_read ≡ true
      → find u.server.socket.m_fd (destroy u).service.tracked
        ≡ some (record t { marked_for_untrack = true })
  unfolding destroy stop disconnect_all untrack untrack_entry put wake
  destroy-reading u t running alone entry busy = ground (
    arith,
    fd_eq_refl u.server.socket.m_fd,
    find-assign u.server.socket.m_fd u.server.socket.m_fd (record t { marked_for_untrack = true })
        u.service.tracked,
  )
