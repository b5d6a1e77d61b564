-- ===== src/SelfPipe/Windows.antt =====
-- sources/network/windows/windows_self_pipe.cpp: the self pipe on Windows, a socket that sends datagrams
-- to itself. `pending` is the number of datagrams that it has not received.
use tacopie.Prelude.{
  ◌⊎◌, ℕ, zero, suc, ◌+◌, ◌-◌, ◌≤◌, ◌≡◌, refl, List, [], ◌∷◌, Bool, Option, none, some,
  if◌then◌else◌, arith, not, ◌||◌, inl, inr, Bool-cases,
}
use tacopie.Typedefs.{Fd, fd, invalid}
use tacopie.SelfPipe.{SelfPipe}
use tacopie.SelfPipe

pub record WindowsPipe : Type 0 where
  pub m_fd : Fd
  pub pending : ℕ

-- What the calls of the constructor answer; `true` stands for success.
pub record Answers : Type 0 where
  pub socket : Option ℕ
  pub bind : Bool
  pub getsockname : Bool
  pub connect : Bool

-- The pipe, or the descriptors that are open when the constructor throws.
pub data Made : Type 0 where
  made : WindowsPipe → Made
  thrown : List Fd → Made

abbrev pub use_socket : Option ℕ → Answers → Made
use_socket none a = thrown []
use_socket (some n) a =
    if not a.bind || (not a.getsockname || not a.connect)
    then thrown (fd n ∷ [])
    else made (record { m_fd = fd n; pending = 0 })

unfoldable pub create : Answers → Made
create a = use_socket a.socket a

unfoldable pub get_read_fd : WindowsPipe → Fd
get_read_fd p = p.m_fd

unfoldable pub get_write_fd : WindowsPipe → Fd
get_write_fd p = p.m_fd

-- sendto(m_fd, "a", 1, ...)
unfoldable pub notify : WindowsPipe → WindowsPipe
notify p = record p { pending = p.pending + 1 }

-- recvfrom takes one datagram, and the socket does not block if there is none.
unfoldable pub clr_buffer : WindowsPipe → WindowsPipe
clr_buffer p = record p { pending = p.pending - 1 }

abbrev pub close_valid : Fd → List Fd
close_valid invalid = []
close_valid (fd n) = fd n ∷ []

-- The destructor: the descriptors that it closes.
unfoldable pub destroy : WindowsPipe → List Fd
destroy p = close_valid p.m_fd

-- What the destructor of a pipe closes is what its constructor opened, but an exception after the
-- socket was made leaves that open.
pub create-destroy :
    (n : ℕ) (a : Answers)
    → a.socket ≡ some n
    → ((p : WindowsPipe) × (create a ≡ made p) × (destroy p ≡ fd n ∷ []))
      ⊎ (create a ≡ thrown (fd n ∷ []))
unfolding create destroy
create-destroy n a e = elim (Bool-cases (not a.bind || (not a.getsockname || not a.connect))) [
  | inl fails ↦ inr (ground (arith, fails))
  | inr works ↦ inl (record { m_fd = fd n; pending = 0 }, ground (arith, works), refl)
]

abbrev notify_times : ℕ → WindowsPipe → WindowsPipe
notify_times zero p = p
notify_times (suc n) p = notify_times n (notify p)

abbrev notify_unix_times : ℕ → SelfPipe → SelfPipe
notify_unix_times zero p = p
notify_unix_times (suc n) p = notify_unix_times n (SelfPipe.notify p)

notify_times-pending : (n : ℕ) (p : WindowsPipe) → (notify_times n p).pending ≡ p.pending + n
unfolding notify
notify_times-pending zero p = omega arith
notify_times-pending (suc n) p = omega (arith, notify_times-pending n (notify p))

notify_unix_times-pending : (n : ℕ) (p : SelfPipe) → (notify_unix_times n p).pending ≡ p.pending + n
unfolding SelfPipe.notify
notify_unix_times-pending zero p = omega arith
notify_unix_times-pending (suc n) p = omega (arith, notify_unix_times-pending n (SelfPipe.notify p))

-- One call of clr_buffer clears up to 1024 notifications on Unix, and leaves all but one of them on
-- Windows.
pub clr_buffer-platforms :
    (n : ℕ) (p : SelfPipe) (w : WindowsPipe)
    → p.pending + suc n ≤ 1024
    → w.pending ≡ 0
    → ((SelfPipe.clr_buffer (notify_unix_times (suc n) p)).pending ≡ 0)
      × ((clr_buffer (notify_times (suc n) w)).pending ≡ n)
unfolding clr_buffer SelfPipe.clr_buffer
clr_buffer-platforms n p w small empty = (
  omega (arith, notify_unix_times-pending (suc n) p),
  omega (arith, notify_times-pending (suc n) w),
)
