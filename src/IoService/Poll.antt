-- ===== src/IoService/Poll.antt =====
-- io_service.cpp: one round of the loop in poll(), with init_poll_fds_info and process_events, each
-- under `m_mtxTrackedSockets`.
use tacopie.Prelude.{
  ℕ, Bool, true, not, ◌&&◌, ◌||◌, List, [], ◌∷◌, ◌++◌, Option, none, some, if◌then◌else◌, is_set,
  ltb,
}
use tacopie.Typedefs.{Fd, fd_eq, member, find}
use tacopie.SelfPipe.{clr_buffer}
use tacopie.IoService.{IoService, TrackedSocket}
use tacopie.IoService.{process_rd_event, process_wr_event, remove, above, PollInfo}

-- `init_poll_fds_info` before its loop: the notifier alone is polled.
abbrev pub notifier_info : Fd → PollInfo
notifier_info f = record { polled = f ∷ []; rd = f ∷ []; wr = []; bound = above f }

-- What select() answers: whether its result is above 0, and the sets that it leaves.
pub record SelectAnswer : Type 0 where
  pub positive : Bool
  pub rd : List Fd
  pub wr : List Fd

module _ {C : Type 0} where
  abbrev pub should_read : TrackedSocket C → Bool
  should_read t = is_set t.callback_read && not t.is_executing_read

  abbrev pub should_write : TrackedSocket C → Bool
  should_write t = is_set t.callback_write && not t.is_executing_write

  -- The body of the loop over the tracked sockets.
  unfoldable pub poll_entry : Fd → TrackedSocket C → PollInfo → PollInfo
  poll_entry f t i = record {
    polled =
        if should_read t || should_write t || t.marked_for_untrack
        then i.polled ++ f ∷ []
        else i.polled;
    rd = if should_read t then f ∷ i.rd else i.rd;
    wr = if should_write t then f ∷ i.wr else i.wr;
    bound = if (should_read t || should_write t) && ltb i.bound (above f) then above f else i.bound;
  }

  unfoldable pub poll_entries : List (Fd × TrackedSocket C) → PollInfo → PollInfo
  poll_entries [] i = i
  poll_entries ((f, t) ∷ rest) i = poll_entries rest (poll_entry f t i)

  abbrev pub poll_info : IoService C → PollInfo
  poll_info s = poll_entries s.tracked (notifier_info s.notifier.read_fd)

  -- The result is `nFds + 1`.
  unfoldable pub init_poll_fds_info : IoService C → IoService C × ℕ
  init_poll_fds_info s =
      let i = poll_info s in
      (record s { polled_fds = i.polled; rd_set = i.rd; wr_set = i.wr }, i.bound)

  -- A read event of the polled socket, if there is one. The socket is a reference to the entry.
  unfoldable pub read_phase : Fd → TrackedSocket C → IoService C → IoService C × TrackedSocket C
  read_phase f t s = elim t.callback_read [
    | none ↦ (s, t)
    | some callback ↦
        if member f s.rd_set && not t.is_executing_read
        then (process_rd_event f callback t s, record t { is_executing_read = true })
        else (s, t)
  ]

  unfoldable pub write_phase : Fd → TrackedSocket C → IoService C → IoService C × TrackedSocket C
  write_phase f t s = elim t.callback_write [
    | none ↦ (s, t)
    | some callback ↦
        if member f s.wr_set && not t.is_executing_write
        then (process_wr_event f callback t s, record t { is_executing_write = true })
        else (s, t)
  ]

  unfoldable pub untrack_phase : Fd → TrackedSocket C → IoService C → IoService C
  untrack_phase f t s =
      if t.marked_for_untrack && not t.is_executing_read && not t.is_executing_write
      then remove f s
      else s

  unfoldable pub process_socket : Fd → Option (TrackedSocket C) → IoService C → IoService C
  process_socket f none s = s
  process_socket f (some t) s =
      let (s₁, t₁) = read_phase f t s in let (s₂, t₂) = write_phase f t₁ s₁ in untrack_phase f t₂ s₂

  -- The body of the loop over `m_vctPolledFds`.
  unfoldable pub process_fd : Fd → IoService C → IoService C
  process_fd f s =
      if fd_eq f s.notifier.read_fd && member f s.rd_set
      then record s { notifier = clr_buffer s.notifier }
      else process_socket f (find f s.tracked) s

  unfoldable pub process_fds : List Fd → IoService C → IoService C
  process_fds [] s = s
  process_fds (f ∷ fs) s = process_fds fs (process_fd f s)

  unfoldable pub process_events : IoService C → IoService C
  process_events s = process_fds s.polled_fds s

  unfoldable pub apply_select : SelectAnswer → IoService C → IoService C
  apply_select answer s = record s { rd_set = answer.rd; wr_set = answer.wr }

  -- A round of poll() with no other thread in between: `System` has the steps of a round apart.
  unfoldable pub poll_round : (ℕ → List Fd → List Fd → SelectAnswer) → IoService C → IoService C
  unfolding init_poll_fds_info apply_select process_events
  poll_round select s =
      let (s₁, bound) = init_poll_fds_info s in
      let answer = select bound s₁.rd_set s₁.wr_set in
      if answer.positive then process_events (apply_select answer s₁) else apply_select answer s₁
