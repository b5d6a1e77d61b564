-- ===== src/TcpSocket/Connect.antt =====
-- sources/network/unix/unix_tcp_socket.cpp: connect and bind. The socket address that they build is
-- not in the model: the system calls get the host and the port.
use tacopie.Error.{err, modify, ok, Error, M, ◌>>◌}
use tacopie.TcpSocket.{
  SocketType, refused, client, server, TcpSocket, check_or_set_type, ConnectAnswer, Os, close,
  create_socket_if_necessary, is_ipv6,
}
use tacopie.Prelude.{ltb, ◌==◌, if◌then◌else◌, false, not, List, true, Bool, ℕ}

-- From the host and the port to a socket address, or an error.
unfoldable pub resolve : Os → M TcpSocket (Unit {0})
unfolding is_ipv6
resolve os s =
    if s.port == 0
    then ok tt s
    else if is_ipv6 s
    then if os.inet_pton s.host then ok tt s else err Error.inet_pton_failure s
    else if os.getaddrinfo s.host
    then ok tt s
    else err Error.getaddrinfo_failure s

-- `close(); __TACOPIE_THROW(...)`, unless the call before succeeded.
unfoldable pub or_close : Bool → Error → M TcpSocket (Unit {0})
unfolding close
or_close true e s = ok tt s
or_close false e s = err e (close s)

unfoldable pub set_mode : Os → ℕ → M TcpSocket (Unit {0})
unfolding or_close
set_mode os timeout s =
    if ltb 0 timeout
    then or_close (os.set_blocking s.m_fd false) Error.set_non_blocking_failure s
    else or_close (os.set_blocking s.m_fd true) Error.set_blocking_failure s

abbrev pub is_refused : ConnectAnswer → Bool
is_refused refused = true
is_refused answer = false

unfoldable pub start_connect : Os → M TcpSocket (Unit {0})
unfolding or_close
start_connect os s =
    or_close (not (is_refused (os.connect s.m_fd s.host s.port))) Error.connect_failure s

-- With a timeout: wait until the socket is writable, and go back to blocking mode.
unfoldable pub await_connect : Os → ℕ → M TcpSocket (Unit {0})
unfolding or_close
await_connect os timeout = do
  λ s. or_close (os.select_writable s.m_fd timeout) Error.connect_timed_out s
  λ s. or_close (os.no_pending_error s.m_fd) Error.connect_failure s
  λ s. or_close (os.set_blocking s.m_fd true) Error.set_blocking_failure s

-- connect, from the first use of the socket on.
unfoldable pub use_socket : Os → ℕ → M TcpSocket (Unit {0})
unfolding set_mode start_connect await_connect
use_socket os timeout = do
  set_mode os timeout
  start_connect os
  λ s. if ltb 0 timeout then await_connect os timeout s else ok tt s

-- The address of the peer, and a socket of the right type.
unfoldable pub prepare : Os → SocketType → List ℕ → ℕ → M TcpSocket (Unit {0})
unfolding create_socket_if_necessary check_or_set_type resolve
prepare os t host port = do
  modify (λ s. record s { host = host; port = port })
  create_socket_if_necessary os
  check_or_set_type t
  resolve os

unfoldable pub connect : Os → List ℕ → ℕ → ℕ → M TcpSocket (Unit {0})
connect os host port timeout = do prepare os client host port; use_socket os timeout

unfoldable pub bind : Os → List ℕ → ℕ → M TcpSocket (Unit {0})
bind os host port = do
  prepare os server host port
  λ s. if os.bind s.m_fd s.host s.port then ok tt s else err Error.bind_failure s
