-- ===== src/IoService/Order.antt =====
-- The order in which the map of the tracked sockets is iterated, which the standard leaves open, does
-- not decide what a round of poll() leaves of the sockets.
use tacopie.Prelude.{
  ℕ, ltb, ◌≡◌, ◌≢◌, false, ◌&&◌, ◌||◌, List, arith, ap, ◌∙◌, sym, refl, inl, inr, Bool-cases,
  if◌then◌else◌,
}
use tacopie.Typedefs.{Fd, find, member, Distinct}
use tacopie.IoService.{IoService, Job, above}
use tacopie.IoService.Poll.{
  init_poll_fds_info, apply_select, process_events, poll_round, SelectAnswer,
}
use tacopie.IoService.Invariant.Calls.{ServiceInv}
use tacopie.IoService.Interest.{init_poll_fds_info_lem}
use tacopie.IoService.Served.{process_events_lem}

abbrev pub SameMembers : List Fd → List Fd → Type 0
SameMembers xs ys = (j : Fd) → member j xs ≡ member j ys

-- The descriptors of two sets are below a bound, as select() wants it.
abbrev pub IsBelow : ℕ → List Fd → List Fd → Type 0
IsBelow bound rd wr = (j : Fd) → ((member j rd || member j wr) && ltb bound (above j)) ≡ false

-- select() sees sets of descriptors, and no order in them; the bound only has to be high enough.
abbrev pub IsSetWise : (ℕ → List Fd → List Fd → SelectAnswer) → Type 0
IsSetWise select =
    (bound bound' : ℕ) (rd rd' wr wr' : List Fd)
    → IsBelow bound rd wr
    → IsBelow bound' rd' wr'
    → SameMembers rd rd'
    → SameMembers wr wr'
    → select bound rd wr ≡ select bound' rd' wr'

module _ {C : Type 0} where
  -- Two services that track the same sockets, in any order.
  pub record SameSockets (s t : IoService C) : Type 0 where
    pub sockets : (j : Fd) → find j s.tracked ≡ find j t.tracked
    pub notifier_fd : s.notifier.read_fd ≡ t.notifier.read_fd

  module _ (s t : IoService C) where
    -- Both are asked about the same.
    select-same :
        (select : ℕ → List Fd → List Fd → SelectAnswer)
        → IsSetWise select
        → SameSockets s t
        → Distinct s.tracked
        → Distinct t.tracked
        → (let p = init_poll_fds_info s in select p.1 p.0.rd_set p.0.wr_set)
          ≡ (let p = init_poll_fds_info t in select p.1 p.0.rd_set p.0.wr_set)
    select-same select set_wise same d e =
        set_wise (init_poll_fds_info s).1 (init_poll_fds_info t).1 (init_poll_fds_info s).0.rd_set
          (init_poll_fds_info t).0.rd_set (init_poll_fds_info s).0.wr_set
          (init_poll_fds_info t).0.wr_set (λ j. (init_poll_fds_info_lem s d j).3)
          (λ j. (init_poll_fds_info_lem t e j).3)
          (λ j. ground (
            arith,
            (init_poll_fds_info_lem s d j).0,
            (init_poll_fds_info_lem t e j).0,
            same.sockets j,
            same.notifier_fd,
          ))
          (λ j. ground (
            arith,
            (init_poll_fds_info_lem s d j).1,
            (init_poll_fds_info_lem t e j).1,
            same.sockets j,
          ))

    visited-same :
        SameSockets s t
        → Distinct s.tracked
        → Distinct t.tracked
        → SameMembers (init_poll_fds_info s).0.polled_fds (init_poll_fds_info t).0.polled_fds
    visited-same same d e j = ground (
      arith,
      (init_poll_fds_info_lem s d j).2,
      (init_poll_fds_info_lem t e j).2,
      same.sockets j,
      same.notifier_fd,
    )

    -- The end of a round, on an answer.
    find-answered :
        (running running' : List (Job C)) (answer : SelectAnswer) (j : Fd)
        → ServiceInv s running
        → ServiceInv t running'
        → SameSockets s t
        → Distinct s.tracked
        → Distinct t.tracked
        → j ≢ s.notifier.read_fd
        → find j (process_events (apply_select answer (init_poll_fds_info s).0)).tracked
          ≡ find j (process_events (apply_select answer (init_poll_fds_info t).0)).tracked
    unfolding init_poll_fds_info apply_select
    find-answered running running' answer j inv inv' same d e other = ground (
      arith,
      (process_events_lem running (apply_select answer (init_poll_fds_info s).0) j inv other).1,
      (process_events_lem running' (apply_select answer (init_poll_fds_info t).0) j inv'
          (rw (same.notifier_fd) at other)).1,
      visited-same same d e j,
      same.sockets j,
    )

  -- A round, once select() has answered.
  answered : SelectAnswer → IoService C → IoService C
  answered answer s =
      if answer.positive
      then process_events (apply_select answer (init_poll_fds_info s).0)
      else apply_select answer (init_poll_fds_info s).0

  poll_round-answered :
      (select : ℕ → List Fd → List Fd → SelectAnswer) (s : IoService C)
      → poll_round select s
        ≡ answered
            (select
              (init_poll_fds_info s).1
              (init_poll_fds_info s).0.rd_set
              (init_poll_fds_info s).0.wr_set)
            s
  unfolding poll_round answered
  poll_round-answered select s = refl

  find-answered_round :
      (s t : IoService C) (running running' : List (Job C)) (answer : SelectAnswer) (j : Fd)
      → ServiceInv s running
      → ServiceInv t running'
      → SameSockets s t
      → Distinct s.tracked
      → Distinct t.tracked
      → j ≢ s.notifier.read_fd
      → find j (answered answer s).tracked ≡ find j (answered answer t).tracked
  unfolding answered init_poll_fds_info apply_select
  find-answered_round s t running running' answer j inv inv' same d e other =
      elim (Bool-cases answer.positive) [
        | inl some_ready ↦
            rw (some_ready) (find-answered s t running running' answer j inv inv' same d e other)
        | inr none_ready ↦ rw (none_ready) (same.sockets j)
      ]

  -- Two services that track the same sockets, in maps that are iterated in different orders, track the
  -- same sockets again after a round of poll() with no other thread in between: each descriptor but
  -- the notifier's has the same entry in both, with the same flags. Each map has one entry for a
  -- descriptor, the flags count the callbacks in flight, and select() sees no order in its sets.
  pub find-poll_round :
      (select : ℕ → List Fd → List Fd → SelectAnswer) (s t : IoService C)
      (running running' : List (Job C)) (j : Fd)
      → IsSetWise select
      → ServiceInv s running
      → ServiceInv t running'
      → SameSockets s t
      → Distinct s.tracked
      → Distinct t.tracked
      → j ≢ s.notifier.read_fd
      → find j (poll_round select s).tracked ≡ find j (poll_round select t).tracked
  find-poll_round select s t running running' j set_wise inv inv' same d e other =
      let p = init_poll_fds_info s in
      let answer = select p.1 p.0.rd_set p.0.wr_set in
      ap (λ x. find j x.tracked) (poll_round-answered select s)
      ∙ find-answered_round s t running running' answer j inv inv' same d e other
      ∙ ap (λ a. find j (answered a t).tracked) (select-same s t select set_wise same d e)
      ∙ ap (λ x. find j x.tracked) (sym (poll_round-answered select t))
