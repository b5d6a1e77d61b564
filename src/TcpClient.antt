-- ===== src/TcpClient.antt =====
-- includes/tacopie/network/tcp_client.hpp and sources/network/tcp_client.cpp: one client and the
-- service that it is tracked by. `R`, `W` and `H` are the types of the read callbacks, the write
-- callbacks and the disconnection handler; an empty `std::function` is `none`.
pub mod Calls
pub mod History
pub mod Answers
pub mod Linked
pub mod Events
use tacopie.TcpSocket.{socket_eq, TcpSocket, Os}
use tacopie.TcpSocket
use tacopie.TcpSocket.Connect
use tacopie.Typedefs.{Fd}
use tacopie.IoService.{IoService}
use tacopie.IoService.Track.{set_rd_callback, set_wr_callback, track, untrack}
use tacopie.TcpSocket.{close, move_from}
use tacopie.Error.{ok, err, M, Error, Outcome}
use tacopie.Prelude.{◌∷◌, ◌++◌, if◌then◌else◌, none, some, Bool, List, Option, [], false, true, ℕ}

-- The callbacks that clients and servers give to the service: a member function bound to `this`, an
-- object known by its number.
pub data Event : Type 0 where
  client_read : ℕ → Event
  client_write : ℕ → Event
  server_read : ℕ → Event

pub record ReadResult : Type 0 where
  pub success : Bool
  pub buffer : List ℕ

pub record WriteResult : Type 0 where
  pub success : Bool
  pub size : ℕ

pub record ReadRequest (R : Type 0) : Type 0 where
  pub size_to_read : ℕ
  pub callback_async_read : Option R

pub record WriteRequest (W : Type 0) : Type 0 where
  pub buffer : List ℕ
  pub callback_async_write : Option W

pub record TcpClient (R W H : Type 0) : Type 0 where
  pub socket : TcpSocket
  pub is_connected : Bool
  pub read_requests : List (ReadRequest R)
  pub write_requests : List (WriteRequest W)
  pub disconnection_handler : Option H

-- The client together with the service.
pub record World (R W H : Type 0) : Type 0 where
  pub client : TcpClient R W H
  pub service : IoService Event

-- A wait for the removal hands the service over to the other threads until they have removed the
-- socket: `some others`, with what they do to the service. `none` is no wait.
abbrev pub waited : Option (IoService Event → IoService Event) → IoService Event → IoService Event
waited none s = s
waited (some others) s = others s

module _ {R W H : Type 0} where
  abbrev pub fd_of : World R W H → Fd
  fd_of w = w.client.socket.m_fd

  abbrev fresh_client : TcpSocket → Bool → TcpClient R W H
  fresh_client s connected = record {
    socket = s;
    is_connected = connected;
    read_requests = [];
    write_requests = [];
    disconnection_handler = none;
  }

  -- `tcp_client()` and `tcp_client(tcp_socket&&)`.
  unfoldable pub create : IoService Event → World R W H
  create service = record { client = fresh_client TcpSocket.create false; service = service }

  unfoldable pub create_from : TcpSocket → IoService Event → World R W H
  create_from socket service = record {
    client = fresh_client (move_from socket).0 true;
    service = track (move_from socket).0.m_fd none none service;
  }

  abbrev connected_world :
      World R W H → Outcome TcpSocket (Unit {0}) → Outcome (World R W H) (Unit {0})
  connected_world w (ok a s) = ok tt (record w {
    client = record w.client { socket = s; is_connected = true };
    service = track s.m_fd none none w.service;
  })
  connected_world w (err e s) = err e (record w { client = record w.client { socket = close s } })

  unfoldable pub connect : Os → List ℕ → ℕ → ℕ → M (World R W H) (Unit {0})
  connect os host port timeout w =
      if w.client.is_connected
      then err Error.already_connected w
      else connected_world w (Connect.connect os host port timeout w.client.socket)

  unfoldable pub clear_read_requests : TcpClient R W H → TcpClient R W H
  clear_read_requests c = record c { read_requests = [] }

  unfoldable pub clear_write_requests : TcpClient R W H → TcpClient R W H
  clear_write_requests c = record c { write_requests = [] }

  unfoldable pub disconnect : Option (IoService Event → IoService Event) → World R W H → World R W H
  unfolding clear_read_requests clear_write_requests
  disconnect wait w =
      if w.client.is_connected
      then record {
        client = record (clear_write_requests (clear_read_requests w.client)) {
          is_connected = false;
          socket = close w.client.socket;
        };
        service = waited wait (untrack (fd_of w) w.service);
      }
      else w

  unfoldable pub async_read : ℕ → ReadRequest R → M (World R W H) (Unit {0})
  async_read this request w =
      if w.client.is_connected
      then ok tt (record w {
        client = record w.client { read_requests = w.client.read_requests ++ request ∷ [] };
        service = set_rd_callback (fd_of w) (some (client_read this)) w.service;
      })
      else err Error.disconnected w

  unfoldable pub async_write : ℕ → WriteRequest W → M (World R W H) (Unit {0})
  async_write this request w =
      if w.client.is_connected
      then ok tt (record w {
        client = record w.client { write_requests = w.client.write_requests ++ request ∷ [] };
        service = set_wr_callback (fd_of w) (some (client_write this)) w.service;
      })
      else err Error.disconnected w

  unfoldable pub set_on_disconnection_handler : Option H → World R W H → World R W H
  set_on_disconnection_handler handler w = record w {
    client = record w.client { disconnection_handler = handler };
  }

  -- The destructor waits for the removal: `during` is what the other threads do meanwhile.
  unfoldable pub destroy : (IoService Event → IoService Event) → World R W H → World R W H
  unfolding disconnect
  destroy during w = disconnect (some during) w

  -- `operator==`
  unfoldable pub client_eq : TcpClient R W H → TcpClient R W H → Bool
  client_eq c d = socket_eq c.socket d.socket
