-- ===== src/TcpServer.antt =====
-- includes/tacopie/network/tcp_server.hpp and sources/network/tcp_server.cpp: a server, the clients
-- that it made, and the service. The clients are shared objects: `store` has them by their numbers,
-- and the server's list has the numbers of those that it looks after. A disconnection handler of a
-- client is the number that `on_client_disconnected` is bound to. `N` is the type of the user's
-- callbacks for new connections.
pub mod History
pub mod Registered
pub mod Stopping
pub mod Lifetime
pub mod Destroyed
use tacopie.Prelude.{
  ℕ, ◌+◌, refl, Bool, true, false, List, [], ◌∷◌, ◌++◌, Option, none, some, if◌then◌else◌, ◌==◌,
}
use tacopie.Error
use tacopie.Error.{Error, M, Outcome, ok, err}
use tacopie.TcpSocket
use tacopie.TcpSocket.{socket_eq, TcpSocket, Os, accept, listen, close}
use tacopie.TcpSocket.Connect.{bind}
use tacopie.TcpClient
use tacopie.TcpClient.{TcpClient, Event, server_read, waited}
use tacopie.IoService.{IoService}
use tacopie.IoService.Track.{track, set_rd_callback, untrack}

pub record TcpServer (N : Type 0) : Type 0 where
  pub socket : TcpSocket
  pub is_running : Bool
  pub callback_on_new_connection : Option N
  pub clients : List ℕ

-- `made` counts the clients made so far: the next one gets that number.
pub record Hub (N R W : Type 0) : Type 0 where
  pub server : TcpServer N
  pub store : List (ℕ × TcpClient R W ℕ)
  pub made : ℕ
  pub service : IoService Event

-- __TACOPIE_CONNECTION_QUEUE_SIZE
abbrev pub connection_queue_size : ℕ
connection_queue_size = 1024

-- The objects by their numbers.
module _ {V : Type 0} where
  abbrev pub lookup : ℕ → List (ℕ × V) → Option V
  lookup id [] = none
  lookup id ((k, c) ∷ m) = if id == k then some c else lookup id m

  abbrev pub update : ℕ → V → List (ℕ × V) → List (ℕ × V)
  update id c [] = []
  update id c ((k, d) ∷ m) = if id == k then (k, c) ∷ m else (k, d) ∷ update id c m

-- Erases the first entry of the number, if there is one.
abbrev pub erase_client : ℕ → List ℕ → List ℕ
erase_client id [] = []
erase_client id (k ∷ ks) = if id == k then ks else k ∷ erase_client id ks

-- `operator==`
unfoldable pub server_eq : {N : Type 0} → TcpServer N → TcpServer N → Bool
server_eq s t = socket_eq s.socket t.socket

module _ {N R W : Type 0} where
  unfoldable pub create : IoService Event → Hub N R W
  create service = record {
    server = record {
      socket = TcpSocket.create;
      is_running = false;
      callback_on_new_connection = none;
      clients = [];
    };
    store = [];
    made = 0;
    service = service;
  }

  abbrev pub with_socket : TcpSocket → Hub N R W → Hub N R W
  with_socket s u = record u { server = record u.server { socket = s } }

  -- `start` after the socket listens: `this` is the number that the service knows the server by.
  abbrev pub started : ℕ → Option N → TcpSocket → Hub N R W → Hub N R W
  started this callback s u = record u {
    server = record u.server {
      socket = s;
      is_running = true;
      callback_on_new_connection = callback;
    };
    service = set_rd_callback s.m_fd (some (server_read this)) (track s.m_fd none none u.service);
  }

  abbrev pub listening :
      ℕ → Option N → Hub N R W → Outcome TcpSocket (Unit {0}) → Outcome (Hub N R W) (Unit {0})
  listening this callback u (ok a s) = ok tt (started this callback s u)
  listening this callback u (err e s) = err e (with_socket s u)

  abbrev pub bound :
      Os → ℕ → Option N → Hub N R W → Outcome TcpSocket (Unit {0}) → Outcome (Hub N R W) (Unit {0})
  bound os this callback u (ok a s) = listening this callback u (listen os connection_queue_size s)
  bound os this callback u (err e s) = err e (with_socket s u)

  unfoldable pub start : Os → ℕ → List ℕ → ℕ → Option N → M (Hub N R W) (Unit {0})
  start os this host port callback u =
      if u.server.is_running
      then err Error.already_running u
      else bound os this callback u (bind os host port u.server.socket)

  abbrev pub disconnect_client :
      Option (IoService Event → IoService Event)
      → ℕ
      → Option (TcpClient R W ℕ)
      → Hub N R W
      → Hub N R W
  disconnect_client wait id none u = u
  disconnect_client wait id (some c) u =
      let w = TcpClient.disconnect wait (record { client = c; service = u.service }) in
      record u { store = update id w.client u.store; service = w.service }

  unfoldable pub disconnect_all :
      Option (IoService Event → IoService Event) → List ℕ → Hub N R W → Hub N R W
  disconnect_all wait [] u = u
  disconnect_all wait (id ∷ ids) u =
      disconnect_all wait ids (disconnect_client wait id (lookup id u.store) u)

  abbrev pub not_running : Option (IoService Event → IoService Event) → Hub N R W → Hub N R W
  not_running wait u = record u {
    server = record u.server { is_running = false; socket = close u.server.socket };
    service = waited wait (untrack u.server.socket.m_fd u.service);
  }

  abbrev pub clear_clients : Hub N R W → Hub N R W
  clear_clients u = record u { server = record u.server { clients = [] } }

  -- `stop`, with what the other threads do during its wait, and during those for the clients.
  unfoldable pub stop :
      Option (IoService Event → IoService Event)
      → Option (IoService Event → IoService Event)
      → Hub N R W
      → Hub N R W
  unfolding disconnect_all
  stop wait wait_clients u =
      if u.server.is_running
      then clear_clients (disconnect_all wait_clients u.server.clients (not_running wait u))
      else u

  -- The client made of an accepted socket, which the user's callback may take over.
  abbrev pub add_client : TcpSocket → Hub N R W → Hub N R W
  add_client s u =
      let w = TcpClient.create_from s u.service in
      record u { store = (u.made, w.client) ∷ u.store; made = u.made + 1; service = w.service }

  abbrev pub handle_client : ℕ → Option (TcpClient R W ℕ) → Hub N R W → Hub N R W
  handle_client id none u = u
  handle_client id (some c) u = record u {
    store = update id (record c { disconnection_handler = some id }) u.store;
    server = record u.server { clients = u.server.clients ++ id ∷ [] };
  }

  abbrev pub unless_taken : ℕ → Hub N R W × Bool → Hub N R W
  unless_taken id (u, true) = u
  unless_taken id (u, false) = handle_client id (lookup id u.store) u

  -- The user's callback: what it does with the new client, and whether it takes it over.
  abbrev pub offer :
      (N → ℕ → Hub N R W → Hub N R W × Bool) → Option N → ℕ → Hub N R W → Hub N R W × Bool
  offer run none id u = (u, false)
  offer run (some callback) id u = run callback id u

  abbrev pub new_connection :
      (N → ℕ → Hub N R W → Hub N R W × Bool) → Outcome TcpSocket TcpSocket → Hub N R W → Hub N R W
  new_connection run (ok s listener) u =
      let v = add_client s (with_socket listener u) in
      unless_taken u.made (offer run u.server.callback_on_new_connection u.made v)
  new_connection run (err e listener) u = stop none none (with_socket listener u)

  unfoldable pub on_read_available :
      Os → (N → ℕ → Hub N R W → Hub N R W × Bool) → Hub N R W → Hub N R W
  on_read_available os run u = new_connection run (accept os u.server.socket) u

  unfoldable pub on_client_disconnected : ℕ → Hub N R W → Hub N R W
  on_client_disconnected id u =
      if u.server.is_running
      then record u { server = record u.server { clients = erase_client id u.server.clients } }
      else u

  -- The destructor: `stop` with its default arguments, which does not wait for the server's socket.
  unfoldable pub destroy : Hub N R W → Hub N R W
  unfolding stop
  destroy u = stop none none u
