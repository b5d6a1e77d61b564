-- ===== src/Error/Texts.antt =====
-- includes/tacopie/utils/error.hpp and sources/utils/error.cpp: the object that is thrown, with its text
-- and its place, and the line that __TACOPIE_THROW logs before. The texts are those that
-- sources/network gives the macro for the errors of the model.
use tacopie.Prelude.{ℕ, ◌≡◌, refl, Bool, List, [], ◌∷◌, Option, none, some, if◌then◌else◌, codes}
use tacopie.Error.{
  Error, socket_failure, invalid_operation, recv_failure, closed_by_remote, send_failure,
  listen_failure, accept_failure, inet_pton_failure, getaddrinfo_failure, set_non_blocking_failure,
  set_blocking_failure, connect_failure, connect_timed_out, bind_failure, already_connected,
  disconnected, already_running,
}
use tacopie.Logger.{LogLevel, error, warn, debug, Streams, log_active}
use tacopie.DocSearch.Box.{list_eq}

abbrev pub text_of : Error → List ℕ
text_of socket_failure = codes "tcp_socket::create_socket_if_necessary: socket() failure"
text_of invalid_operation = codes "trying to perform invalid operation on socket"
text_of recv_failure = codes "recv() failure"
text_of closed_by_remote = codes "nothing to read, socket has been closed by remote host"
text_of send_failure = codes "send() failure"
text_of listen_failure = codes "listen() failure"
text_of accept_failure = codes "accept() failure"
text_of inet_pton_failure = codes "inet_pton() failure"
text_of getaddrinfo_failure = codes "getaddrinfo() failure"
text_of set_non_blocking_failure = codes "connect() set non-blocking failure"
text_of set_blocking_failure = codes "connect() set blocking failure"
text_of connect_failure = codes "connect() failure"
text_of connect_timed_out = codes "connect() timed out"
text_of bind_failure = codes "bind() failure"
text_of already_connected = codes "tcp_client is already connected"
text_of disconnected = codes "tcp_client is disconnected"
text_of already_running = codes "tcp_server is already running"

-- The level that each is logged at.
abbrev pub level_of : Error → LogLevel
level_of closed_by_remote = warn
level_of listen_failure = debug
level_of already_connected = warn
level_of disconnected = warn
level_of already_running = warn
level_of e = error

-- `tacopie_error`
pub record TacopieError : Type 0 where
  pub what : List ℕ
  pub file : List ℕ
  pub line : ℕ

-- __TACOPIE_THROW: the object, and the streams after the line that is logged, if logging is compiled in.
unfoldable pub tacopie_throw :
    (ℕ → List ℕ) → Bool → Option LogLevel → Error → List ℕ → ℕ → Streams → TacopieError × Streams
tacopie_throw decimal logging_enabled active e file line s = (
  record { what = text_of e; file = file; line = line },
  if logging_enabled
      then log_active decimal active
          (record { level = level_of e; msg = text_of e; file = file; line = line }) s
      else s,
)

abbrev pub errors : List Error
errors =
    socket_failure ∷ invalid_operation ∷ recv_failure ∷ closed_by_remote ∷ send_failure
    ∷ listen_failure ∷ accept_failure ∷ inet_pton_failure ∷ getaddrinfo_failure
    ∷ set_non_blocking_failure ∷ set_blocking_failure ∷ connect_failure ∷ connect_timed_out
    ∷ bind_failure ∷ already_connected ∷ disconnected ∷ already_running ∷ []

-- The error of a text.
abbrev pub error_of : List Error → List ℕ → Option Error
error_of [] text = none
error_of (e ∷ es) text = if list_eq (text_of e) text then some e else error_of es text

error_of-text_of : (e : Error) → error_of errors (text_of e) ≡ some e
error_of-text_of socket_failure = refl
error_of-text_of invalid_operation = refl
error_of-text_of recv_failure = refl
error_of-text_of closed_by_remote = refl
error_of-text_of send_failure = refl
error_of-text_of listen_failure = refl
error_of-text_of accept_failure = refl
error_of-text_of inet_pton_failure = refl
error_of-text_of getaddrinfo_failure = refl
error_of-text_of set_non_blocking_failure = refl
error_of-text_of set_blocking_failure = refl
error_of-text_of connect_failure = refl
error_of-text_of connect_timed_out = refl
error_of-text_of bind_failure = refl
error_of-text_of already_connected = refl
error_of-text_of disconnected = refl
error_of-text_of already_running = refl

-- The text of a thrown object tells which error it is: no two errors have the same.
pub error_of-tacopie_throw :
    (decimal : ℕ → List ℕ) (logging_enabled : Bool) (active : Option LogLevel) (e : Error)
    (file : List ℕ) (line : ℕ) (s : Streams)
    → error_of errors ((tacopie_throw decimal logging_enabled active e file line s).0.what) ≡ some e
unfolding tacopie_throw
error_of-tacopie_throw decimal logging_enabled active e file line s = error_of-text_of e
