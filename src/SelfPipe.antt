-- ===== src/SelfPipe.antt =====
-- includes/tacopie/network/self_pipe.hpp and sources/network/unix/unix_self_pipe.cpp: the pipe that
-- wakes the poll worker up. `pending` is the number of bytes in it. A write to a full pipe blocks in
-- the source; the pipe of the model is not bounded.
pub mod Windows
use tacopie.Prelude.{◌∷◌, [], ◌++◌, List, ℕ, ◌+◌, ◌-◌, Option, none, some}
use tacopie.Typedefs.{invalid, Fd, fd}

pub record SelfPipe : Type 0 where
  pub read_fd : Fd
  pub write_fd : Fd
  pub pending : ℕ

-- The constructor, on the answer of pipe(): two descriptors, or `none` for -1, which throws.
unfoldable pub create : Option (ℕ × ℕ) → Option SelfPipe
create none = none
create (some (r, w)) = some (record { read_fd = fd r; write_fd = fd w; pending = 0 })

-- write(m_fds[1], "a", 1)
unfoldable pub notify : SelfPipe → SelfPipe
notify p = record p { pending = p.pending + 1 }

-- read(m_fds[0], buf, 1024)
unfoldable pub clr_buffer : SelfPipe → SelfPipe
clr_buffer p = record p { pending = p.pending - 1024 }

abbrev close_valid : Fd → List Fd
close_valid invalid = []
close_valid (fd n) = fd n ∷ []

-- The destructor: the descriptors that it closes.
unfoldable pub destroy : SelfPipe → List Fd
destroy p = close_valid p.read_fd ++ close_valid p.write_fd
