-- ===== src/TcpServer/History.antt =====
-- A server over any history of calls and events (tcp_server.cpp).
use tacopie.Prelude.{ℕ, Bool, List, [], ◌∷◌, Option, arith}
use tacopie.Error.{state_of}
use tacopie.TcpSocket.{Os, accept}
use tacopie.TcpClient.{Event}
use tacopie.IoService.{IoService}
use tacopie.TcpServer
use tacopie.TcpServer.{Hub}
use tacopie.TcpServer.Registered.{
  Registered, Minds, start-Registered, on_client_disconnected-Registered, stop-Registered,
  new_connection-Registered,
}

-- A call of the server, a connection that comes, or a client that is disconnected.
pub data Happening (N : Type 0) : Type 0 where
  starts : Os → ℕ → List ℕ → ℕ → Option N → Happening N
  stops :
      Option (IoService Event → IoService Event)
      → Option (IoService Event → IoService Event)
      → Happening N
  reads : Os → Happening N
  loses : ℕ → Happening N

module _ {N R W : Type 0} where
  pub happen : (N → ℕ → Hub N R W → Hub N R W × Bool) → Happening N → Hub N R W → Hub N R W
  happen run (starts os this host port callback) u =
      state_of (TcpServer.start os this host port callback u)
  happen run (stops wait wait_clients) u = TcpServer.stop wait wait_clients u
  happen run (reads os) u = TcpServer.on_read_available os run u
  happen run (loses id) u = TcpServer.on_client_disconnected id u

  pub history : (N → ℕ → Hub N R W → Hub N R W × Bool) → List (Happening N) → Hub N R W → Hub N R W
  history run [] u = u
  history run (x ∷ xs) u = history run xs (happen run x u)

  happen-Registered :
      (run : N → ℕ → Hub N R W → Hub N R W × Bool) (x : Happening N) (u : Hub N R W)
      → Minds run
      → Registered u
      → Registered (happen run x u)
  unfolding happen TcpServer.on_read_available
  happen-Registered run (starts os this host port callback) u minds r =
      start-Registered os this host port callback u r
  happen-Registered run (stops wait wait_clients) u minds r = stop-Registered wait wait_clients u r
  happen-Registered run (reads os) u minds r =
      new_connection-Registered run (accept os u.server.socket) u minds r
  happen-Registered run (loses id) u minds r = on_client_disconnected-Registered id u r

  history-Registered :
      (run : N → ℕ → Hub N R W → Hub N R W × Bool) (xs : List (Happening N)) (u : Hub N R W)
      → Minds run
      → Registered u
      → Registered (history run xs u)
  unfolding history
  history-Registered run [] u minds r = r
  history-Registered run (x ∷ xs) u minds r =
      history-Registered run xs (happen run x u) minds (happen-Registered run x u minds r)

  -- A new server, after any history of starts, stops, connections and disconnections, whatever the
  -- system answers: each client on its list was made by it, and has the handler that takes it off the
  -- list when it is disconnected. The user's callback is assumed to leave the list and the handlers of
  -- the other clients alone.
  pub create-history-Registered :
      (run : N → ℕ → Hub N R W → Hub N R W × Bool) (xs : List (Happening N))
      (service : IoService Event)
      → Minds run
      → Registered (history run xs (TcpServer.create service))
  unfolding TcpServer.create
  create-history-Registered run xs service minds =
      history-Registered run xs (TcpServer.create service) minds (λ k h. absurd (ground (arith, h)))
