-- ===== src/TcpServer/Registered.antt =====
-- What a server knows of its clients: each call and each connection keeps it.
use tacopie.Prelude.{
  ==_iff, ℕ, ◌+◌, ◌<◌, ◌≡◌, refl, sym, ap, ◌∙◌, inl, inr, Bool, true, false, ◌||◌, List, [], ◌∷◌,
  ◌++◌, Option, none, some, arith, if◌then◌else◌, is_set, Bool-cases, ◌==◌,
}
use tacopie.Error
use tacopie.Error.{Outcome, ok, err, state_of}
use tacopie.TcpSocket.{TcpSocket, Os, listen}
use tacopie.TcpSocket.Connect.{bind}
use tacopie.TcpClient
use tacopie.TcpClient.{TcpClient, Event}
use tacopie.IoService.{IoService}
use tacopie.TcpServer
use tacopie.TcpServer.{
  Hub, lookup, erase_client, bound, listening, add_client, with_socket, handle_client, unless_taken,
  offer, new_connection, connection_queue_size, disconnect_all, not_running, clear_clients,
}
use tacopie.TcpServer.Lifetime.{mem}
use tacopie.TcpServer.Stopping.{lookup-update}

mem-snoc : (k id : ℕ) (ks : List ℕ) → mem k (ks ++ id ∷ []) ≡ (mem k ks || k == id)
mem-snoc k id [] = ground arith
mem-snoc k id (j ∷ ks) = ground (arith, mem-snoc k id ks)

mem-erase_client : (k id : ℕ) (ks : List ℕ) → mem k (erase_client id ks) ≡ true → mem k ks ≡ true
mem-erase_client k id [] h = h
mem-erase_client k id (j ∷ ks) h = ground (arith, mem-erase_client k id ks)

module _ {R W : Type 0} where
  -- The disconnection handler of a client that there is.
  abbrev pub handler_at : Option (TcpClient R W ℕ) → Option ℕ
  handler_at none = none
  handler_at (some c) = c.disconnection_handler

module _ {N R W : Type 0} where
  -- Each client of the server's list was made, and its disconnection handler is the one that takes it
  -- off the list.
  abbrev pub Registered : Hub N R W → Type 0
  Registered u =
      (k : ℕ)
      → mem k u.server.clients ≡ true
      → (k < u.made) × (handler_at (lookup k u.store) ≡ some k)

  -- The user's callback for new connections leaves the server's list and the other clients' handlers
  -- alone.
  abbrev pub Minds : (N → ℕ → Hub N R W → Hub N R W × Bool) → Type 0
  Minds run =
      (callback : N) (id : ℕ) (u : Hub N R W)
      → (((run callback id u).0).server.clients ≡ u.server.clients)
        × (((run callback id u).0).made ≡ u.made)
        × ((k : ℕ)
            → (k == id) ≡ false
            → handler_at (lookup k (((run callback id u).0).store)) ≡ handler_at (lookup k u.store))

  if-Registered :
      (b : Bool) (v u : Hub N R W) → Registered v → Registered u → Registered (if b then v else u)
  if-Registered true v u kept r = kept
  if-Registered false v u kept r = r

  listening-Registered :
      (this : ℕ) (callback : Option N) (u : Hub N R W) (o : Outcome TcpSocket (Unit {0}))
      → Registered u
      → Registered (state_of (listening this callback u o))
  listening-Registered this callback u (ok a s) r = r
  listening-Registered this callback u (err e s) r = r

  bound-Registered :
      (os : Os) (this : ℕ) (callback : Option N) (u : Hub N R W) (o : Outcome TcpSocket (Unit {0}))
      → Registered u
      → Registered (state_of (bound os this callback u o))
  bound-Registered os this callback u (ok a s) r =
      listening-Registered this callback u (listen os connection_queue_size s) r
  bound-Registered os this callback u (err e s) r = r

  pub start-Registered :
      (os : Os) (this : ℕ) (host : List ℕ) (port : ℕ) (callback : Option N) (u : Hub N R W)
      → Registered u
      → Registered (state_of (TcpServer.start os this host port callback u))
  unfolding TcpServer.start
  start-Registered os this host port callback u r = by_running u.server.is_running
    where
      by_running :
          (b : Bool)
          → Registered (
              state_of (
                if b
                then err Error.already_running u
                else bound os this callback u (bind os host port u.server.socket)))
      by_running true = r
      by_running false = bound-Registered os this callback u (bind os host port u.server.socket) r

  pub on_client_disconnected-Registered :
      (id : ℕ) (u : Hub N R W) → Registered u → Registered (TcpServer.on_client_disconnected id u)
  unfolding TcpServer.on_client_disconnected
  on_client_disconnected-Registered id u r =
      if-Registered u.server.is_running
        (record u { server = record u.server { clients = erase_client id u.server.clients } }) u
        (λ k h. r k (mem-erase_client k id u.server.clients h)) r

  pub stop-Registered :
      (wait wait_clients : Option (IoService Event → IoService Event)) (u : Hub N R W)
      → Registered u
      → Registered (TcpServer.stop wait wait_clients u)
  unfolding TcpServer.stop
  stop-Registered wait wait_clients u r =
      if-Registered u.server.is_running
        (clear_clients (disconnect_all wait_clients u.server.clients (not_running wait u))) u
        (λ k h. absurd (ground (arith, h))) r

  -- The clients of the list are registered, and the client of a number was made but is not on the list.
  Apart : ℕ → Hub N R W → Type 0
  Apart id u =
      (id < u.made)
      × ((k : ℕ)
          → mem k u.server.clients ≡ true
          → (k < u.made) × ((k == id) ≡ false) × (handler_at (lookup k u.store) ≡ some k))

  add_client-Apart : (s : TcpSocket) (u : Hub N R W) → Registered u → Apart u.made (add_client s u)
  unfolding Apart TcpClient.create_from
  add_client-Apart s u r = (omega arith, listed)
    where
      listed :
          (k : ℕ)
          → mem k u.server.clients ≡ true
          → (k < u.made + 1)
            × ((k == u.made) ≡ false)
            × (handler_at (lookup k (add_client s u).store) ≡ some k)
      listed k h =
          let (made, handler) = r k h in
          let other : (k == u.made) ≡ false = ground (arith, made) in
          (
            omega (arith, made),
            other,
            ap
                  (λ b. handler_at (
                    if b
                    then some ((TcpClient.create_from s u.service).client)
                    else lookup k u.store))
                  other
                ∙ handler,
          )

  offer-Apart :
      (run : N → ℕ → Hub N R W → Hub N R W × Bool) (o : Option N) (id : ℕ) (u : Hub N R W)
      → Minds run
      → Apart id u
      → Apart id (offer run o id u).0
  unfolding Apart
  offer-Apart run none id u minds apart = apart
  offer-Apart run (some callback) id u minds (low, apart) =
      let (same_clients, same_made, same_handlers) = minds callback id u in
      (
        omega (arith, low, same_made),
        λ k h.
            let (made, other, handler) = apart k (sym (ap (mem k) same_clients) ∙ h) in
            (omega (arith, made, same_made), other, same_handlers k other ∙ handler),
      )

  handle_client-Registered :
      (id : ℕ) (o : Option (TcpClient R W ℕ)) (u : Hub N R W)
      → lookup id u.store ≡ o
      → Apart id u
      → Registered (handle_client id o u)
  unfolding Apart
  handle_client-Registered id none u at (low, apart) k h = ((apart k h).0, (apart k h).2)
  handle_client-Registered id (some c) u at (low, apart) k h =
      let new = record c { disconnection_handler = some id } in
      let found = ap handler_at (lookup-update k id new u.store (ap is_set at)) in
      elim (Bool-cases (k == id)) [
        | inl same ↦ (
          omega (arith, low, (==_iff k id).0 same),
          found
              ∙ ap (λ b. handler_at (if b then some new else lookup k u.store)) same
              ∙ ap some (sym ((==_iff k id).0 same)),
        )
        | inr other ↦
            let (made, apart_k, handler) =
              apart k (ground (arith, h, mem-snoc k id u.server.clients)) in
            (
              made,
              found
                  ∙ ap (λ b. handler_at (if b then some new else lookup k u.store)) other
                  ∙ handler,
            )
      ]

  unless_taken-Registered :
      (id : ℕ) (p : Hub N R W × Bool) → Apart id p.0 → Registered (unless_taken id p)
  unfolding Apart
  unless_taken-Registered id (u, true) apart = λ k h. ((apart.1 k h).0, (apart.1 k h).2)
  unless_taken-Registered id (u, false) apart =
      handle_client-Registered id (lookup id u.store) u refl apart

  pub new_connection-Registered :
      (run : N → ℕ → Hub N R W → Hub N R W × Bool) (o : Outcome TcpSocket TcpSocket) (u : Hub N R W)
      → Minds run
      → Registered u
      → Registered (new_connection run o u)
  new_connection-Registered run (ok s listener) u minds r =
      let v = add_client s (with_socket listener u) in
      unless_taken-Registered u.made (offer run u.server.callback_on_new_connection u.made v) (
        offer-Apart run u.server.callback_on_new_connection u.made v minds
          (add_client-Apart s (with_socket listener u) r))
  new_connection-Registered run (err e listener) u minds r =
      stop-Registered none none (with_socket listener u) r
