-- ===== src/TcpSocket.antt =====
-- includes/tacopie/network/tcp_socket.hpp and sources/network/common/tcp_socket.cpp, with the
-- functions of sources/network/unix/unix_tcp_socket.cpp that they call. The answers of the operating
-- system are an argument of each operation, and text is the list of its bytes.
pub mod Connecting
pub mod Connect
pub mod Kinds
pub mod Windows
use tacopie.Prelude.{
  ℕ, Bool, true, false, ◌&&◌, ◌||◌, not, List, [], ◌∷◌, ◌++◌, Option, none, some, ◌==◌,
  if◌then◌else◌,
}
use tacopie.Typedefs.{Fd, invalid, fd, fd_eq}
use tacopie.Error.{Error, M, pure, throw, ◌>>◌, ok, err}

pub data SocketType : Type 0 where
  client : SocketType
  server : SocketType
  unknown : SocketType

pub data Family : Type 0 where
  af_unix : Family
  af_inet : Family
  af_inet6 : Family

pub record TcpSocket : Type 0 where
  pub m_fd : Fd
  pub host : List ℕ
  pub port : ℕ
  pub type : SocketType

-- The address of a peer as ::accept gives it: inet_ntop may fail, which leaves the text empty.
pub record Peer : Type 0 where
  pub family : Family
  pub address : Option (List ℕ)
  pub port : ℕ

-- ::connect returns 0, or -1 with EINPROGRESS, or -1 with another error.
pub data ConnectAnswer : Type 0 where
  connected : ConnectAnswer
  in_progress : ConnectAnswer
  refused : ConnectAnswer

-- The answers of the system calls. `none` and `invalid` stand for SOCKET_ERROR, and `true` for a
-- call that succeeds. `inet_pton` is true for a result of at least 0, `select_writable` for a result
-- of 1, and `no_pending_error` if getsockopt succeeds and reports no error.
pub record Os : Type 0 where
  pub socket : Family → Fd
  pub recv : Fd → ℕ → Option (List ℕ)
  pub send : Fd → List ℕ → ℕ → Option ℕ
  pub listen : Fd → ℕ → Bool
  pub accept : Fd → Fd × Peer
  pub bind : Fd → List ℕ → ℕ → Bool
  pub inet_pton : List ℕ → Bool
  pub getaddrinfo : List ℕ → Bool
  pub set_blocking : Fd → Bool → Bool
  pub connect : Fd → List ℕ → ℕ → ConnectAnswer
  pub select_writable : Fd → ℕ → Bool
  pub no_pending_error : Fd → Bool

unfoldable pub create : TcpSocket
create = record { m_fd = invalid; host = []; port = 0; type = unknown }

-- `move_from s` is the socket built by the move constructor, and what is left of `s`.
unfoldable pub move_from : TcpSocket → TcpSocket × TcpSocket
move_from s = (s, record s { m_fd = invalid; type = unknown })

abbrev pub contains : ℕ → List ℕ → Bool
contains c [] = false
contains c (x ∷ xs) = x == c || contains c xs

unfoldable pub is_ipv6 : TcpSocket → Bool
is_ipv6 s = contains b':' s.host

unfoldable pub family_of : TcpSocket → Family
unfolding is_ipv6
family_of s = if s.port == 0 then af_unix else if is_ipv6 s then af_inet6 else af_inet

abbrev pub is_valid : Fd → Bool
is_valid invalid = false
is_valid (fd n) = true

abbrev pub type_eq : SocketType → SocketType → Bool
type_eq client client = true
type_eq server server = true
type_eq unknown unknown = true
type_eq _ _ = false

unfoldable pub create_socket_if_necessary : Os → M TcpSocket (Unit {0})
unfolding family_of
create_socket_if_necessary os s =
    if is_valid s.m_fd
    then ok tt s
    else let s' = record s { m_fd = os.socket (family_of s); type = unknown } in
      if is_valid (os.socket (family_of s)) then ok tt s' else err Error.socket_failure s'

unfoldable pub check_or_set_type : SocketType → M TcpSocket (Unit {0})
check_or_set_type t s =
    if not (type_eq s.type unknown) && not (type_eq s.type t)
    then err Error.invalid_operation s
    else ok tt (record s { type = t })

unfoldable pub close : TcpSocket → TcpSocket
close s = record s { m_fd = invalid; type = unknown }

-- The result of ::recv: an error, the end of the stream, or data.
unfoldable pub received : Option (List ℕ) → M TcpSocket (List ℕ)
received none = throw Error.recv_failure
received (some []) = throw Error.closed_by_remote
received (some (b ∷ bs)) = pure (b ∷ bs)

unfoldable pub recv : Os → ℕ → M TcpSocket (List ℕ)
unfolding create_socket_if_necessary check_or_set_type received
recv os size = do
  create_socket_if_necessary os
  check_or_set_type client
  λ s. received (os.recv s.m_fd size) s

unfoldable pub sent : Option ℕ → M TcpSocket ℕ
sent none = throw Error.send_failure
sent (some n) = pure n

unfoldable pub send : Os → List ℕ → ℕ → M TcpSocket ℕ
unfolding create_socket_if_necessary check_or_set_type sent
send os bytes size = do
  create_socket_if_necessary os
  check_or_set_type client
  λ s. sent (os.send s.m_fd bytes size) s

unfoldable pub listen : Os → ℕ → M TcpSocket (Unit {0})
unfolding create_socket_if_necessary check_or_set_type
listen os backlog = do
  create_socket_if_necessary os
  check_or_set_type server
  λ s. if os.listen s.m_fd backlog then ok tt s else err Error.listen_failure s

-- The text of the peer's address, in brackets for IPv6.
abbrev pub peer_host : Peer → List ℕ
peer_host p = elim p.address [
  | none ↦ []
  | some text ↦ elim p.family [ af_inet6 ↦ b'[' ∷ (text ++ b']' ∷ []) | _ ↦ text ]
]

unfoldable pub accepted : Fd × Peer → M TcpSocket TcpSocket
accepted (f, p) s =
    if is_valid f
    then ok (record { m_fd = f; host = peer_host p; port = p.port; type = client }) s
    else err Error.accept_failure s

unfoldable pub accept : Os → M TcpSocket TcpSocket
unfolding create_socket_if_necessary check_or_set_type accepted
accept os = do
  create_socket_if_necessary os
  check_or_set_type server
  λ s. accepted (os.accept s.m_fd) s

unfoldable pub set_type : SocketType → TcpSocket → TcpSocket
set_type t s = record s { type = t }

-- `operator==`
unfoldable pub socket_eq : TcpSocket → TcpSocket → Bool
socket_eq s t = fd_eq s.m_fd t.m_fd && type_eq s.type t.type
