-- ===== src/TcpSocket/Connecting.antt =====
-- What a socket is after connect and bind.
use tacopie.TcpSocket.{
  check_or_set_type, create_socket_if_necessary, client, is_valid, unknown, close, invalid,
  SocketType, Os, TcpSocket,
}
use tacopie.Error.{then_do, err, ok, Outcome, Error}
use tacopie.Prelude.{inl, ◌⊎◌, arith, false, true, Bool, ℕ, List, ◌≡◌}
use tacopie.TcpSocket.Connect.{connect, resolve, prepare, use_socket, or_close}

-- The errors that come before the socket is used.
abbrev pub is_early : Error → Bool
is_early Error.socket_failure = true
is_early Error.invalid_operation = true
is_early Error.inet_pton_failure = true
is_early Error.getaddrinfo_failure = true
is_early e = false

abbrev pub IsClosed : TcpSocket → Type 0
IsClosed s = (s.m_fd ≡ invalid) × (s.type ≡ unknown)

abbrev pub IsOpen : SocketType → List ℕ → ℕ → TcpSocket → Type 0
IsOpen t host port s = (is_valid s.m_fd ≡ true) × (s.type ≡ t) × (s.host ≡ host) × (s.port ≡ port)

abbrev pub ConnectEnds : List ℕ → ℕ → Outcome TcpSocket (Unit {0}) → Type 0
ConnectEnds host port (ok a s) = IsOpen client host port s
ConnectEnds host port (err e s) = (is_early e ≡ true) ⊎ IsClosed s

use_socket-ConnectEnds :
    (os : Os) (timeout : ℕ) (host : List ℕ) (port : ℕ) (s : TcpSocket)
    → IsOpen client host port s
    → ConnectEnds host port (use_socket os timeout s)
unfolding use_socket or_close close
use_socket-ConnectEnds os timeout host port s here = ground arith

abbrev pub PrepareEnds : SocketType → List ℕ → ℕ → Outcome TcpSocket (Unit {0}) → Type 0
PrepareEnds t host port (ok a s) = IsOpen t host port s
PrepareEnds t host port (err e s) = is_early e ≡ true

prepare-PrepareEnds :
    (os : Os) (t : SocketType) (host : List ℕ) (port : ℕ) (s : TcpSocket)
    → PrepareEnds t host port (prepare os t host port s)
unfolding prepare create_socket_if_necessary check_or_set_type resolve
prepare-PrepareEnds os t host port s = ground arith

-- connect, whatever the system answers: if it returns, the socket is open, of type CLIENT and has
-- the host and the port; if it throws, then before the socket was used or with the socket closed.
pub connect-ConnectEnds :
    (os : Os) (host : List ℕ) (port timeout : ℕ) (s : TcpSocket)
    → ConnectEnds host port (connect os host port timeout s)
unfolding connect
connect-ConnectEnds os host port timeout s =
    by_outcome (prepare os client host port s) (prepare-PrepareEnds os client host port s)
  where
    by_outcome :
        (r : Outcome TcpSocket (Unit {0}))
        → PrepareEnds client host port r
        → ConnectEnds host port (then_do r (λ _. use_socket os timeout))
    by_outcome (ok a u) here = use_socket-ConnectEnds os timeout host port u here
    by_outcome (err e u) here = inl here
