-- ===== src/TcpServer/Stopping.antt =====
-- The stop of a server: none of its clients stays connected.
use tacopie.Prelude.{
  ==_iff, ℕ, ◌≡◌, refl, ap, ◌∙◌, inl, inr, Bool, true, false, not, ◌||◌, List, [], ◌∷◌, Option,
  none, some, arith, if◌then◌else◌, is_set, Bool-cases, ◌==◌,
}
use tacopie.Typedefs.{invalid}
use tacopie.TcpSocket
use tacopie.TcpClient
use tacopie.TcpClient.{TcpClient, World, Event}
use tacopie.IoService.{IoService}
use tacopie.TcpServer
use tacopie.TcpServer.{
  Hub, TcpServer, lookup, update, disconnect_client, disconnect_all, not_running, clear_clients,
}
use tacopie.TcpServer.Lifetime.{mem}

pub lookup-update :
    {V : Type 0} (k id : ℕ) (c : V) (m : List (ℕ × V))
    → is_set (lookup id m) ≡ true
    → lookup k (update id c m) ≡ (if k == id then some c else lookup k m)
lookup-update k id c [] h = absurd (ground (arith, h))
lookup-update k id c ((j, d) ∷ m) h = ground (arith, lookup-update k id c m)

module _ {R W : Type 0} where
  -- A client that is not connected, or that there is not.
  abbrev pub is_off : Option (TcpClient R W ℕ) → Bool
  is_off none = true
  is_off (some c) = not c.is_connected

  disconnect-off :
      (wait : Option (IoService Event → IoService Event)) (w : World R W ℕ)
      → (TcpClient.disconnect wait w).client.is_connected ≡ false
  unfolding TcpClient.disconnect
  disconnect-off wait w = ground arith

  chosen :
      (b : Bool) (c : TcpClient R W ℕ) (o : Option (TcpClient R W ℕ))
      → c.is_connected ≡ false
      → is_off (if b then some c else o) ≡ (b || is_off o)
  chosen true c o off = rw (off) refl
  chosen false c o off = refl

||_swap : (a b c : Bool) → (a || (b || c)) ≡ ((b || a) || c)
||_swap a b c = ground arith

module _ {N R W : Type 0} where
  disconnect_client-is_off :
      (wait : Option (IoService Event → IoService Event)) (id k : ℕ) (o : Option (TcpClient R W ℕ))
      (u : Hub N R W)
      → lookup id u.store ≡ o
      → is_off (lookup k (disconnect_client wait id o u).store)
        ≡ (k == id || is_off (lookup k u.store))
  disconnect_client-is_off wait id k none u at = elim (Bool-cases (k == id)) [
    | inl same ↦
        rw (same) (ap (λ j. is_off (lookup j u.store)) ((==_iff k id).0 same) ∙ ap is_off at)
    | inr other ↦ rw (other) refl
  ]
  disconnect_client-is_off wait id k (some c) u at =
      let after = (TcpClient.disconnect wait (record { client = c; service = u.service })).client in
      ap is_off (lookup-update k id after u.store (ap is_set at))
      ∙ chosen (k == id)
          ((TcpClient.disconnect wait (record { client = c; service = u.service })).client)
          (lookup k u.store) (disconnect-off wait (record { client = c; service = u.service }))

  disconnect_all-is_off :
      (wait : Option (IoService Event → IoService Event)) (ids : List ℕ) (k : ℕ) (u : Hub N R W)
      → is_off (lookup k (disconnect_all wait ids u).store)
        ≡ (mem k ids || is_off (lookup k u.store))
  unfolding disconnect_all
  disconnect_all-is_off wait [] k u = refl
  disconnect_all-is_off wait (id ∷ ids) k u =
      let v = disconnect_client wait id (lookup id u.store) u in
      disconnect_all-is_off wait ids k v
      ∙ ap (λ b. mem k ids || b) (disconnect_client-is_off wait id k (lookup id u.store) u refl)
      ∙ ||_swap (mem k ids) (k == id) (is_off (lookup k u.store))

  disconnect_client-server :
      (wait : Option (IoService Event → IoService Event)) (id : ℕ) (o : Option (TcpClient R W ℕ))
      (u : Hub N R W)
      → (disconnect_client wait id o u).server ≡ u.server
  disconnect_client-server wait id none u = refl
  disconnect_client-server wait id (some c) u = refl

  disconnect_all-server :
      (wait : Option (IoService Event → IoService Event)) (ids : List ℕ) (u : Hub N R W)
      → (disconnect_all wait ids u).server ≡ u.server
  unfolding disconnect_all
  disconnect_all-server wait [] u = refl
  disconnect_all-server wait (id ∷ ids) u =
      disconnect_all-server wait ids (disconnect_client wait id (lookup id u.store) u)
      ∙ disconnect_client-server wait id (lookup id u.store) u

  stop-on :
      (wait wait_clients : Option (IoService Event → IoService Event)) (u : Hub N R W)
      → u.server.is_running ≡ true
      → TcpServer.stop wait wait_clients u
        ≡ clear_clients (disconnect_all wait_clients u.server.clients (not_running wait u))
  unfolding TcpServer.stop
  stop-on wait wait_clients u on =
      ap
        (λ b.
          if b
          then clear_clients (disconnect_all wait_clients u.server.clients (not_running wait u))
          else u)
        on

  -- `stop` of a running server: it does not run, its socket is closed, it has no clients, and each
  -- client that it had is disconnected; a client that it had not stays connected if it was.
  pub stop_lem :
      (wait wait_clients : Option (IoService Event → IoService Event)) (u : Hub N R W) (k : ℕ)
      → u.server.is_running ≡ true
      → let v = TcpServer.stop wait wait_clients u in
        (v.server.is_running ≡ false)
        × (v.server.socket.m_fd ≡ invalid)
        × (v.server.clients ≡ [])
        × (is_off (lookup k v.store) ≡ (mem k u.server.clients || is_off (lookup k u.store)))
  unfolding TcpSocket.close
  stop_lem wait wait_clients u k on =
      let stopped = stop-on wait wait_clients u on in
      let kept = disconnect_all-server wait_clients u.server.clients (not_running wait u) in
      (
        ap (λ v. v.server.is_running) stopped ∙ ap (λ s. s.is_running) kept,
        ap (λ v. v.server.socket.m_fd) stopped ∙ ap (λ s. s.socket.m_fd) kept,
        ap (λ v. v.server.clients) stopped,
        ap (λ v. is_off (lookup k v.store)) stopped
            ∙ disconnect_all-is_off wait_clients u.server.clients k (not_running wait u),
      )
