-- ===== src/TcpServer/Lifetime.antt =====
-- The start of a server, its clients while it runs, and its stop.
use tacopie.Prelude.{
  ℕ, ◌≡◌, refl, sym, ap, ◌∙◌, Bool, true, false, ◌||◌, List, [], ◌∷◌, ◌++◌, Option, none, some,
  arith, if◌then◌else◌, ◌==◌,
}
use mathlib.Core.Path.{subst}
use tacopie.TcpServer.{handle_client, add_client, with_socket, new_connection, unless_taken, offer}
use tacopie.IoService.Track.{entry_or_fresh}
use tacopie.IoService.{fresh_socket}
use tacopie.Typedefs.{Fd, find, find-assign, fd_eq_refl}
use tacopie.Error.{Error, Outcome, ok, err}
use tacopie.TcpSocket.{
  TcpSocket, Os, accept, listen, create_socket_if_necessary, check_or_set_type, is_valid, server,
}
use tacopie.TcpSocket.Connect.{bind}
use tacopie.TcpClient
use tacopie.TcpClient.{TcpClient, Event, server_read}
use tacopie.IoService.{IoService, TrackedSocket, put, wake}
use tacopie.IoService.Track.{track, set_rd_callback}
use tacopie.TcpServer
use tacopie.TcpServer.{
  Hub, TcpServer, lookup, erase_client, bound, listening, connection_queue_size,
}

abbrev pub mem : ℕ → List ℕ → Bool
mem id [] = false
mem id (k ∷ ks) = id == k || mem id ks

-- The service calls the server back for reads of its socket, and for nothing else.
abbrev pub Heard : ℕ → Option (TrackedSocket Event) → Type 0
Heard this none = ⊥
Heard this (some t) = (t.callback_read ≡ some (server_read this)) × (t.callback_write ≡ none)

abbrev ListenEnds : Outcome TcpSocket (Unit {0}) → Type 0
ListenEnds (ok a s) = (is_valid s.m_fd ≡ true) × (s.type ≡ server)
ListenEnds (err e s) = Unit

listen-ListenEnds : (os : Os) (n : ℕ) (s : TcpSocket) → ListenEnds (listen os n s)
unfolding listen create_socket_if_necessary check_or_set_type
listen-ListenEnds os n s = ground arith

erase_client-snoc :
    (id : ℕ) (ks : List ℕ) → mem id ks ≡ false → erase_client id (ks ++ id ∷ []) ≡ ks
erase_client-snoc id [] new = ground arith
erase_client-snoc id (k ∷ ks) new = ground (arith, erase_client-snoc id ks)

find-track :
    (f : Fd) (s : IoService Event) → find f (track f none none s).tracked ≡ some fresh_socket
unfolding track put wake
find-track f s =
    find-assign f f fresh_socket s.tracked
    ∙ ap (λ b. if b then some fresh_socket else find f s.tracked) (fd_eq_refl f)

find-set_rd_callback :
    (f : Fd) (callback : Option Event) (s : IoService Event) (t : TrackedSocket Event)
    → find f s.tracked ≡ some t
    → find f (set_rd_callback f callback s).tracked ≡ some (record t { callback_read = callback })
unfolding set_rd_callback put wake
find-set_rd_callback f callback s t at =
    let set = λ (o : Option (TrackedSocket Event)). record (entry_or_fresh o) {
      callback_read = callback;
    } in
    find-assign f f (set (find f s.tracked)) s.tracked
    ∙ ap (λ b. if b then some (set (find f s.tracked)) else find f s.tracked) (fd_eq_refl f)
    ∙ ap (λ o. some (set o)) at

set_rd_callback-Heard :
    (f : Fd) (this : ℕ) (s : IoService Event)
    → Heard this
        (find f (set_rd_callback f (some (server_read this)) (track f none none s)).tracked)
set_rd_callback-Heard f this s =
    subst (Heard this)
      (sym (
        find-set_rd_callback f (some (server_read this)) (track f none none s) fresh_socket
          (find-track f s)))
      (refl, refl)

==_refl : (n : ℕ) → (n == n) ≡ true
==_refl n = ground arith

module _ {N R W : Type 0} where
  -- What `start` comes to: on success the server runs with an open socket of type SERVER for which
  -- the service calls it; otherwise nothing but the socket has changed.
  abbrev pub StartEnds : ℕ → Hub N R W → Outcome (Hub N R W) (Unit {0}) → Type 0
  StartEnds this u (ok a v) =
      (u.server.is_running ≡ false)
      × (v.server.is_running ≡ true)
      × (is_valid v.server.socket.m_fd ≡ true)
      × (v.server.socket.type ≡ server)
      × Heard this (find v.server.socket.m_fd v.service.tracked)
  StartEnds this u (err e v) =
      (v.server.is_running ≡ u.server.is_running)
      × (v.server.clients ≡ u.server.clients)
      × (v.store ≡ u.store)
      × (v.service ≡ u.service)

  listening-StartEnds :
      (this : ℕ) (callback : Option N) (u : Hub N R W) (r : Outcome TcpSocket (Unit {0}))
      → u.server.is_running ≡ false
      → ListenEnds r
      → StartEnds this u (listening this callback u r)
  listening-StartEnds this callback u (ok a s) off ends =
      (off, refl, ends.0, ends.1, set_rd_callback-Heard s.m_fd this u.service)
  listening-StartEnds this callback u (err e s) off ends = (refl, refl, refl, refl)

  bound-StartEnds :
      (os : Os) (this : ℕ) (callback : Option N) (u : Hub N R W) (r : Outcome TcpSocket (Unit {0}))
      → u.server.is_running ≡ false
      → StartEnds this u (bound os this callback u r)
  bound-StartEnds os this callback u (ok a s) off =
      listening-StartEnds this callback u (listen os connection_queue_size s) off
        (listen-ListenEnds os connection_queue_size s)
  bound-StartEnds os this callback u (err e s) off = (refl, refl, refl, refl)

  start_by :
      (os : Os) (this : ℕ) (host : List ℕ) (port : ℕ) (callback : Option N) (u : Hub N R W)
      (running : Bool)
      → u.server.is_running ≡ running
      → StartEnds this u (
          if running
          then err Error.already_running u
          else bound os this callback u (bind os host port u.server.socket))
  start_by os this host port callback u true on = (refl, refl, refl, refl)
  start_by os this host port callback u false off =
      bound-StartEnds os this callback u (bind os host port u.server.socket) off

  -- `start`, whatever the system answers: if it returns, the server was not running and runs now,
  -- with an open socket of type SERVER that the service tracks for reads; if it throws, the clients,
  -- the service and whether the server runs are as before.
  pub start-StartEnds :
      (os : Os) (this : ℕ) (host : List ℕ) (port : ℕ) (callback : Option N) (u : Hub N R W)
      → StartEnds this u (TcpServer.start os this host port callback u)
  unfolding TcpServer.start
  start-StartEnds os this host port callback u =
      start_by os this host port callback u u.server.is_running refl

  taken_up :
      (os : Os) (run : N → ℕ → Hub N R W → Hub N R W × Bool) (u : Hub N R W)
      (s listener : TcpSocket)
      → u.server.callback_on_new_connection ≡ none
      → accept os u.server.socket ≡ ok s listener
      → TcpServer.on_read_available os run u
        ≡ handle_client u.made
            (some ((TcpClient.create_from {R = R} {W = W} {H = ℕ} s u.service).client))
            (add_client s (with_socket listener u))
  unfolding TcpServer.on_read_available
  taken_up os run u s listener alone came =
      let v = add_client s (with_socket listener u) in
      ap (λ r. new_connection run r u) came
      ∙ ap (λ callback. unless_taken u.made (offer run callback u.made v)) alone
      ∙ ap
          (λ b.
            handle_client u.made
              (if b
                then some ((TcpClient.create_from s u.service).client)
                else lookup u.made u.store)
              v)
          (==_refl u.made)

  on_client_disconnected-clients :
      (id : ℕ) (v : Hub N R W)
      → v.server.is_running ≡ true
      → (TcpServer.on_client_disconnected id v).server.clients ≡ erase_client id v.server.clients
  unfolding TcpServer.on_client_disconnected
  on_client_disconnected-clients id v on = ground arith

  -- A server without a callback for new connections takes a new client up, and gives it up again when
  -- the client is disconnected.
  pub on_client_disconnected-on_read_available :
      (os : Os) (run : N → ℕ → Hub N R W → Hub N R W × Bool) (u : Hub N R W)
      (s listener : TcpSocket)
      → u.server.is_running ≡ true
      → u.server.callback_on_new_connection ≡ none
      → accept os u.server.socket ≡ ok s listener
      → mem u.made u.server.clients ≡ false
      → ((TcpServer.on_read_available os run u).server.clients ≡ u.server.clients ++ u.made ∷ [])
        × ((TcpServer.on_client_disconnected u.made
              (TcpServer.on_read_available os run u)).server.clients
            ≡ u.server.clients)
  unfolding TcpServer.on_read_available TcpServer.on_client_disconnected
  on_client_disconnected-on_read_available os run u s listener on alone came new =
      let up = taken_up os run u s listener alone came in
      (
        ap (λ v. v.server.clients) up,
        ap (λ v. (TcpServer.on_client_disconnected u.made v).server.clients) up
            ∙ on_client_disconnected-clients u.made
                (handle_client u.made (some ((TcpClient.create_from s u.service).client))
                  (add_client s (with_socket listener u)))
                on
            ∙ erase_client-snoc u.made u.server.clients new,
      )
