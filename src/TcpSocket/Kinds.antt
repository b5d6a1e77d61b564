-- ===== src/TcpSocket/Kinds.antt =====
-- The type of a socket: client operations and server operations do not mix.
use tacopie.TcpSocket.{
  type_eq, unknown, is_valid, check_or_set_type, create_socket_if_necessary, accept, listen, send,
  server, client, recv, Os, TcpSocket, SocketType,
}
use tacopie.TcpSocket.{close, invalid}
use tacopie.TcpSocket.Connect.{connect, bind, prepare, resolve, use_socket, or_close}
use tacopie.Prelude.{false, ◌⊎◌, Bool, arith, ◌≢◌, true, ◌≡◌, some, none, List, Option, ℕ}
use tacopie.Error.{err, ok, Error, Outcome}

-- The operations that depend on the type.
pub data Operation : Type 0 where
  receives : ℕ → Operation
  sends : List ℕ → ℕ → Operation
  listens : ℕ → Operation
  accepts : Operation
  connects : List ℕ → ℕ → ℕ → Operation
  binds : List ℕ → ℕ → Operation

abbrev pub kind : Operation → SocketType
kind (receives size) = client
kind (sends bytes size) = client
kind (listens backlog) = server
kind accepts = server
kind (connects host port timeout) = client
kind (binds host port) = server

-- The error of an operation, if it throws, and the socket after it.
abbrev pub ended : {A : Type 0} → Outcome TcpSocket A → Option Error × TcpSocket
ended (ok a s) = (none, s)
ended (err e s) = (some e, s)

pub perform : Os → Operation → TcpSocket → Option Error × TcpSocket
perform os (receives size) s = ended (recv os size s)
perform os (sends bytes size) s = ended (send os bytes size s)
perform os (listens backlog) s = ended (listen os backlog s)
perform os accepts s = ended (accept os s)
perform os (connects host port timeout) s = ended (connect os host port timeout s)
perform os (binds host port) s = ended (bind os host port s)

-- The socket with the address that connect and bind set before the type is checked.
abbrev pub addressed : Operation → TcpSocket → TcpSocket
addressed (connects host port timeout) s = record s { host = host; port = port }
addressed (binds host port) s = record s { host = host; port = port }
addressed op s = s

-- Only connect closes the socket when it fails.
abbrev pub closes : Operation → Bool
closes (connects host port timeout) = true
closes op = false

-- How an operation ends, by whether it fits the type of the socket.
abbrev pub Ends : Bool → Operation → TcpSocket → Option Error × TcpSocket → Type 0
Ends true op s r =
    (r.1 ≡ addressed op s)
    ⊎ ((closes op ≡ true) × (r.1 ≡ record (addressed op s) { m_fd = invalid; type = unknown }))
Ends false op s r = r ≡ (some Error.invalid_operation, addressed op s)

bind-Ends :
    (os : Os) (host : List ℕ) (port : ℕ) (s : TcpSocket)
    → is_valid s.m_fd ≡ true
    → s.type ≢ unknown
    → Ends (type_eq s.type server) (binds host port) s (ended (bind os host port s))
unfolding bind prepare create_socket_if_necessary check_or_set_type resolve
bind-Ends os host port s opened known = ground arith

UsedEnds : TcpSocket → TcpSocket → Type 0
UsedEnds s r = (r ≡ s) ⊎ (r ≡ record s { m_fd = invalid; type = unknown })

use_socket-UsedEnds :
    (os : Os) (timeout : ℕ) (s : TcpSocket) → UsedEnds s (ended (use_socket os timeout s)).1
unfolding use_socket or_close close UsedEnds
use_socket-UsedEnds os timeout s = ground arith

connect-Ends :
    (os : Os) (host : List ℕ) (port timeout : ℕ) (s : TcpSocket)
    → is_valid s.m_fd ≡ true
    → s.type ≢ unknown
    → Ends
        (type_eq s.type client)
        (connects host port timeout)
        s
        (ended (connect os host port timeout s))
unfolding connect prepare create_socket_if_necessary check_or_set_type resolve UsedEnds
connect-Ends os host port timeout s opened known =
    ground (arith, use_socket-UsedEnds os timeout (record s { host = host; port = port }))

-- On an open socket of a known type an operation of the other type throws, and changes nothing but
-- the address, which connect and bind set first; one of its own type keeps the descriptor, the type
-- and, but for connect and bind, the address, whether it throws or not, except that connect may
-- close the socket.
pub perform-kind :
    (os : Os) (op : Operation) (s : TcpSocket)
    → is_valid s.m_fd ≡ true
    → s.type ≢ unknown
    → Ends (type_eq s.type (kind op)) op s (perform os op s)
unfolding perform recv send listen accept create_socket_if_necessary check_or_set_type
perform-kind os (receives size) s opened known = ground arith
perform-kind os (connects host port timeout) s opened known =
    connect-Ends os host port timeout s opened known
perform-kind os (binds host port) s opened known = bind-Ends os host port s opened known
perform-kind os op s opened known = ground arith
