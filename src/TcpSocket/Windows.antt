-- ===== src/TcpSocket/Windows.antt =====
-- sources/network/windows/windows_tcp_socket.cpp: connect and bind as they are built on Windows, where
-- a port of 0 stands for nothing special. The modes of a socket are set by ioctlsocket there; `Os` has
-- its answer, and those of the other calls, under the names that it has for them.
use tacopie.Prelude.{true, false, ltb, ap, ◌∙◌, ℕ, ◌≡◌, ◌≢◌, refl, List, arith, if◌then◌else◌}
use tacopie.Error.{Outcome, then_do, err, modify, ok, Error, M, ◌>>◌}
use tacopie.TcpSocket.{
  SocketType, client, server, TcpSocket, Family, af_inet, af_inet6, check_or_set_type, Os, is_ipv6,
  is_valid, unknown,
}
use tacopie.TcpSocket
use tacopie.TcpSocket.Connect

unfoldable pub family_of : TcpSocket → Family
unfolding is_ipv6
family_of s = if is_ipv6 s then af_inet6 else af_inet

unfoldable pub create_socket_if_necessary : Os → M TcpSocket (Unit {0})
unfolding family_of
create_socket_if_necessary os s =
    if is_valid s.m_fd
    then ok tt s
    else let s' = record s { m_fd = os.socket (family_of s); type = unknown } in
      if is_valid (os.socket (family_of s)) then ok tt s' else err Error.socket_failure s'

unfoldable pub resolve : Os → M TcpSocket (Unit {0})
unfolding is_ipv6
resolve os s =
    if is_ipv6 s
    then if os.inet_pton s.host then ok tt s else err Error.inet_pton_failure s
    else if os.getaddrinfo s.host
    then ok tt s
    else err Error.getaddrinfo_failure s

unfoldable pub prepare : Os → SocketType → List ℕ → ℕ → M TcpSocket (Unit {0})
unfolding create_socket_if_necessary check_or_set_type resolve
prepare os t host port = do
  modify (λ s. record s { host = host; port = port })
  create_socket_if_necessary os
  check_or_set_type t
  resolve os

-- `close(); __TACOPIE_THROW(...)`
abbrev pub close_and_throw : Error → M TcpSocket (Unit {0})
close_and_throw e s = err e (TcpSocket.close s)

-- The mode that the connection is made in.
unfoldable pub set_mode : Os → ℕ → M TcpSocket (Unit {0})
set_mode os timeout s =
    if ltb 0 timeout
    then if os.set_blocking s.m_fd false
      then ok tt s
      else close_and_throw Error.set_non_blocking_failure s
    else if os.set_blocking s.m_fd true
    then ok tt s
    else close_and_throw Error.set_blocking_failure s

unfoldable pub start_connect : Os → M TcpSocket (Unit {0})
start_connect os s =
    if Connect.is_refused (os.connect s.m_fd s.host s.port)
    then close_and_throw Error.connect_failure s
    else ok tt s

-- With a timeout: select, the pending error of the socket, and the blocking mode again.
unfoldable pub await_connect : Os → ℕ → M TcpSocket (Unit {0})
await_connect os timeout s =
    if os.select_writable s.m_fd timeout
    then if os.no_pending_error s.m_fd
      then if os.set_blocking s.m_fd true
        then ok tt s
        else close_and_throw Error.set_blocking_failure s
      else close_and_throw Error.connect_failure s
    else close_and_throw Error.connect_timed_out s

unfoldable pub use_socket : Os → ℕ → M TcpSocket (Unit {0})
use_socket os timeout = do
  set_mode os timeout
  start_connect os
  λ s. if ltb 0 timeout then await_connect os timeout s else ok tt s

unfoldable pub connect : Os → List ℕ → ℕ → ℕ → M TcpSocket (Unit {0})
connect os host port timeout = do prepare os client host port; use_socket os timeout

unfoldable pub bind : Os → List ℕ → ℕ → M TcpSocket (Unit {0})
bind os host port = do
  prepare os server host port
  λ s. if os.bind s.m_fd s.host s.port then ok tt s else err Error.bind_failure s

prepare-prepare :
    (os : Os) (t : SocketType) (host : List ℕ) (port : ℕ) (s : TcpSocket)
    → port ≢ 0
    → prepare os t host port s ≡ Connect.prepare os t host port s
unfolding prepare Connect.prepare TcpSocket.family_of TcpSocket.create_socket_if_necessary resolve
    Connect.resolve check_or_set_type family_of create_socket_if_necessary
prepare-prepare os t host port s tcp = ground arith

-- Two computations that go on alike from the same outcome.
then_do-same :
    {S A B : Type 0} (o : Outcome S A) (f g : A → M S B)
    → ((a : A) (s : S) → f a s ≡ g a s)
    → then_do o f ≡ then_do o g
then_do-same (ok a s) f g same = same a s
then_do-same (err e s) f g same = refl

set_mode-set_mode :
    (os : Os) (timeout : ℕ) (s : TcpSocket) → set_mode os timeout s ≡ Connect.set_mode os timeout s
unfolding set_mode Connect.set_mode Connect.or_close
set_mode-set_mode os timeout s = ground arith

start_connect-start_connect :
    (os : Os) (s : TcpSocket) → start_connect os s ≡ Connect.start_connect os s
unfolding start_connect Connect.start_connect Connect.or_close
start_connect-start_connect os s = ground arith

await_connect-await_connect :
    (os : Os) (timeout : ℕ) (s : TcpSocket)
    → await_connect os timeout s ≡ Connect.await_connect os timeout s
unfolding await_connect Connect.await_connect Connect.or_close
await_connect-await_connect os timeout s = ground arith

use_socket-use_socket :
    (os : Os) (timeout : ℕ) (s : TcpSocket)
    → use_socket os timeout s ≡ Connect.use_socket os timeout s
unfolding use_socket Connect.use_socket
use_socket-use_socket os timeout s =
    ap
      (λ o. then_do o (λ _.
        start_connect os >> λ u. if ltb 0 timeout then await_connect os timeout u else ok tt u))
      (set_mode-set_mode os timeout s)
    ∙ then_do-same (Connect.set_mode os timeout s) _ _ (λ _ u.
      ap (λ o. then_do o (λ _ v. if ltb 0 timeout then await_connect os timeout v else ok tt v))
        (start_connect-start_connect os u)
      ∙ then_do-same (Connect.start_connect os u) _ _ (λ _ v.
        ap (λ o. if ltb 0 timeout then o else ok tt v) (await_connect-await_connect os timeout v)))

-- With a port that is not 0, both operations do on Windows exactly what they do on Unix: they answer
-- or throw the same, and leave the same socket, for the same answers of the operating system.
pub connect-bind_platforms :
    (os : Os) (host : List ℕ) (port timeout : ℕ) (s : TcpSocket)
    → port ≢ 0
    → (connect os host port timeout s ≡ Connect.connect os host port timeout s)
      × (bind os host port s ≡ Connect.bind os host port s)
unfolding connect bind Connect.connect Connect.bind
connect-bind_platforms os host port timeout s tcp = (
  rw (prepare-prepare os client host port s tcp) (
      then_do-same (Connect.prepare os client host port s) _ _
        (λ _ u. use_socket-use_socket os timeout u)),
  rw (prepare-prepare os server host port s tcp) refl,
)
