-- ===== src/IoService/Interest.antt =====
-- What the poll worker asks select() for.
use tacopie.Prelude.{
  ltb, ◌≤◌, ◌≡◌, Bool, true, false, ◌&&◌, ◌||◌, List, [], ◌∷◌, Option, none, some, arith,
}
use tacopie.Typedefs.{Fd, fd_eq, find, member}
use tacopie.IoService.{TrackedSocket}
use tacopie.IoService.Poll.{
  poll_entry, poll_entries, notifier_info, init_poll_fds_info, should_read, should_write,
}
use tacopie.IoService.{IoService, PollInfo, above}
use tacopie.Typedefs.{Distinct, member-snoc, fd_eq_iff}

-- Every descriptor in the sets so far is below the bound.
abbrev Bounded : PollInfo → Type 0
Bounded i = (j : Fd) → (member j i.rd || member j i.wr) ≡ true → above j ≤ i.bound

module _ {C : Type 0} where
  abbrev pub wants_read : Option (TrackedSocket C) → Bool
  wants_read none = false
  wants_read (some t) = should_read t

  abbrev pub wants_write : Option (TrackedSocket C) → Bool
  wants_write none = false
  wants_write (some t) = should_write t

  abbrev pub wants_visit : Option (TrackedSocket C) → Bool
  wants_visit none = false
  wants_visit (some t) = should_read t || should_write t || t.marked_for_untrack

  -- The sets of the result at one descriptor, from those at the start.
  record Asks (j : Fd) (m : List (Fd × TrackedSocket C)) (i r : PollInfo) : Type 0 where
    rd : member j r.rd ≡ (member j i.rd || wants_read (find j m))
    wr : member j r.wr ≡ (member j i.wr || wants_write (find j m))
    polled : member j r.polled ≡ (member j i.polled || wants_visit (find j m))

  -- One entry adds its own descriptor to the sets, if it wants to be there.
  poll_entry-Asks :
      (j f : Fd) (t : TrackedSocket C) (i : PollInfo)
      → (member j (poll_entry f t i).rd ≡ (member j i.rd || fd_eq j f && should_read t))
        × (member j (poll_entry f t i).wr ≡ (member j i.wr || fd_eq j f && should_write t))
        × (member j (poll_entry f t i).polled
            ≡ (member j i.polled || fd_eq j f && wants_visit (some t)))
  unfolding poll_entry
  poll_entry-Asks j f t i = (ground arith, ground arith, ground (arith, member-snoc j f i.polled))

  poll_entries-Asks :
      (j : Fd) (m : List (Fd × TrackedSocket C)) (i : PollInfo)
      → Distinct m
      → Asks j m i (poll_entries m i)
  unfolding poll_entries find
  poll_entries-Asks j [] i d = ground arith
  poll_entries-Asks j ((f, t) ∷ m) i d =
      let rest = poll_entries-Asks j m (poll_entry f t i) d.1 in
      let (rd, wr, polled) = poll_entry-Asks j f t i in
      let alone : fd_eq j f ≡ true → find j m ≡ none = λ e. rw ((fd_eq_iff j f).0 e) d.0 in
      ground (arith, alone)

  poll_entry-Bounded :
      (f : Fd) (t : TrackedSocket C) (i : PollInfo) → Bounded i → Bounded (poll_entry f t i)
  unfolding poll_entry
  poll_entry-Bounded f t i b j m = ground (arith, b j, fd_eq_iff j f)

  poll_entries-Bounded :
      (m : List (Fd × TrackedSocket C)) (i : PollInfo) → Bounded i → Bounded (poll_entries m i)
  unfolding poll_entries
  poll_entries-Bounded [] i b = b
  poll_entries-Bounded ((f, t) ∷ m) i b =
      poll_entries-Bounded m (poll_entry f t i) (poll_entry-Bounded f t i b)

  -- `init_poll_fds_info` asks to read from the notifier and from exactly the tracked sockets that
  -- have a read callback and are not executing it, and so for writing; it visits those and the
  -- marked ones; and its result is above every descriptor of the sets, as select() wants it.
  pub init_poll_fds_info_lem :
      (s : IoService C)
      → Distinct s.tracked
      → (j : Fd)
      → let r = init_poll_fds_info s in
        let o = find j s.tracked in
        (member j r.0.rd_set ≡ (fd_eq j s.notifier.read_fd || wants_read o))
        × (member j r.0.wr_set ≡ wants_write o)
        × (member j r.0.polled_fds ≡ (fd_eq j s.notifier.read_fd || wants_visit o))
        × (((member j r.0.rd_set || member j r.0.wr_set) && ltb r.1 (above j)) ≡ false)
  unfolding init_poll_fds_info
  init_poll_fds_info_lem s d j =
      let info = notifier_info s.notifier.read_fd in
      let asks = poll_entries-Asks j s.tracked info d in
      (
        ground arith,
        ground arith,
        ground arith,
        ground (
          arith,
          poll_entries-Bounded s.tracked info
              (λ k m. ground (arith, fd_eq_iff k s.notifier.read_fd)) j,
        ),
      )
