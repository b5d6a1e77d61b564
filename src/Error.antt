-- ===== src/Error.antt =====
-- includes/tacopie/utils/error.hpp and sources/utils/error.cpp: what __TACOPIE_THROW throws. An
-- error is known by its message, which is in `Texts` with what is logged. A thrown error leaves the
-- state as it was changed before, so an outcome has the state in both cases.
pub mod Texts

pub data Error : Type 0 where
  socket_failure : Error
  invalid_operation : Error
  recv_failure : Error
  closed_by_remote : Error
  send_failure : Error
  listen_failure : Error
  accept_failure : Error
  inet_pton_failure : Error
  getaddrinfo_failure : Error
  set_non_blocking_failure : Error
  set_blocking_failure : Error
  connect_failure : Error
  connect_timed_out : Error
  bind_failure : Error
  already_connected : Error
  disconnected : Error
  already_running : Error

pub data Outcome (S A : Type 0) : Type 0 where
  ok : A → S → Outcome S A
  err : Error → S → Outcome S A

-- A computation on a state that may throw.
abbrev pub M : Type 0 → Type 0 → Type 0
M S A = S → Outcome S A

abbrev pub pure : {S A : Type 0} → A → M S A
pure a s = ok a s

abbrev pub throw : {S A : Type 0} → Error → M S A
throw e s = err e s

abbrev pub modify : {S : Type 0} → (S → S) → M S (Unit {0})
modify f s = ok tt (f s)

abbrev pub then_do : {S A B : Type 0} → Outcome S A → (A → M S B) → Outcome S B
then_do (ok a s) f = f a s
then_do (err e s) f = err e s

infixl 5 ◌>>=◌ ◌>>◌
abbrev pub ◌>>=◌ : {S A B : Type 0} → M S A → (A → M S B) → M S B
◌>>=◌ m f s = then_do (m s) f

abbrev pub ◌>>◌ : {S B : Type 0} → M S (Unit {0}) → M S B → M S B
◌>>◌ m k s = then_do (m s) (λ _. k)

abbrev pub state_of : {S A : Type 0} → Outcome S A → S
state_of (ok a s) = s
state_of (err e s) = s
